-- ===== src/Kernel/Frames/Alloc.antt =====
-- Taking, sharing and giving back the page frames of os/kernel/mm.c.
use tortoise.Base.{
  ◌≡◌, refl, ap, ◌∙◌, arith, ℕ, zero, suc, ◌+◌, ◌-◌, ◌%◌, ◌^◌, ◌≤◌, ◌<◌, ◌⊎◌, inl, inr, true, false,
  none, some, ◌==◌, if◌then◌else◌, Bool-cases, Option-cases, update, update-update, u16, sub32,
}
use mathlib.Core.Path.{fun_ext}
use tortoise.Kernel.Frames.{
  Frames, next_clear, frame_address, frame_alloc, fidx, drop_ref, frame_free, frame_ref,
}
use tortoise.Kernel.Frames.Count.{clear_below, clear-set, clear_below-le, clear-none}
use tortoise.Kernel.Frames.Refs.{
  IsConsistent, fidx-frame_address, set-IsConsistent, count-IsConsistent, drop_ref-IsConsistent,
  next_clear-clear, next_clear-none, passes, true_ne_false, none_ne_some,
}

at_update : {A : Type 0} (f : ℕ → A) (i : ℕ) (v : A) → update f i v i ≡ v
at_update f i v = let here : (i == i) ≡ true = ground arith in rw here refl

drop_ref-fref :
    (s : Frames) (i : ℕ) → 0 < s.fref i → s.fref i < 2 ^ 16 → (drop_ref i s).fref i + 1 ≡ s.fref i
unfolding drop_ref
drop_ref-fref s i some_refs short = ground arith

drop_ref-nfree :
    (s : Frames) (i : ℕ)
    → 0 < s.fref i
    → s.fref i < 2 ^ 16
    → s.nfree < 2 ^ 32 - 1
    → (drop_ref i s).nfree ≡ (if s.fref i == 1 then s.nfree + 1 else s.nfree)
unfolding drop_ref
drop_ref-nfree s i some_refs short few = ground arith

few_free : (s : Frames) → IsConsistent s → s.nfree ≤ 65536
few_free s h =
    let most = clear_below-le s.nframes s.fbits in omega (arith, h.free_count, h.few_frames)

-- From consistent counts, giving back a frame that is in use does not panic, takes one reference,
-- makes the frame free just when that was the last, and keeps the counts consistent with the bits.
pub frame_free-frame_address :
    (s : Frames) (i : ℕ)
    → IsConsistent s
    → i < s.nframes
    → s.fbits i ≡ true
    → (s' : Frames) × (frame_free (frame_address i) s ≡ some s')
      × IsConsistent s'
      × (s'.fref i + 1 ≡ s.fref i)
      × (s'.nfree ≡ (if s.fref i == 1 then s.nfree + 1 else s.nfree))
unfolding frame_free
frame_free-frame_address s i h below busy =
    let few = few_free s h in
    (
      drop_ref i s,
      rw (fidx-frame_address s i h below busy, frame_free) refl,
      drop_ref-IsConsistent s i h below busy,
      drop_ref-fref s i (h.counted i below busy) (h.count_range i below),
      drop_ref-nfree s i (h.counted i below busy) (h.count_range i below) (omega arith),
    )

update_own : (f : ℕ → ℕ) (i v : ℕ) → v ≡ f i → update f i v ≡ f
update_own f i v e = fun_ext λ j. elim (Bool-cases (j == i)) [
  | inl here ↦ let same : j ≡ i = ground arith in rw (here, same) e
  | inr other ↦ rw other refl
]

-- A reference more and then one fewer.
drop_ref-again :
    (s : Frames) (i : ℕ)
    → 0 < s.fref i
    → s.fref i < 65535
    → drop_ref i (record s { fref = update s.fref i (u16 (s.fref i + 1)) }) ≡ s
unfolding drop_ref
drop_ref-again s i some_refs room =
    let here : (i == i) ≡ true = ground arith in
    let value : (u16 (s.fref i + 1) + 65535) % 2 ^ 16 ≡ s.fref i = omega arith in
    let more : (s.fref i == 0) ≡ false = ground arith in
    let same : update (update s.fref i (u16 (s.fref i + 1))) i (s.fref i) ≡ s.fref =
      update-update s.fref i (u16 (s.fref i + 1)) (s.fref i)
      ∙ update_own s.fref i (s.fref i) refl in
    rw (here, value, more) (ap (λ r. record s { fref = r }) same)

freed :
    (s : Frames) (i : ℕ) (s' : Frames)
    → fidx (frame_address i) s ≡ some i
    → drop_ref i s ≡ s'
    → frame_free (frame_address i) s ≡ some s'
unfolding frame_free
freed s i s' e d = rw (e, frame_free) (ap (λ r. some r) d)

-- From consistent counts, one more reference to a frame in use, while it has fewer than 65535, does
-- not panic and keeps the counts consistent with the bits; giving it back makes the frames what they
-- were.
pub frame_free-frame_ref :
    (s : Frames) (i : ℕ)
    → IsConsistent s
    → i < s.nframes
    → s.fbits i ≡ true
    → s.fref i < 65535
    → (s' : Frames) × (frame_ref (frame_address i) s ≡ some s')
      × IsConsistent s'
      × (s'.fref i ≡ s.fref i + 1)
      × (frame_free (frame_address i) s' ≡ some s)
unfolding frame_ref
frame_free-frame_ref s i h below busy room =
    let s' : Frames = record s { fref = update s.fref i (u16 (s.fref i + 1)) } in
    let kept : IsConsistent s' =
      count-IsConsistent s i (u16 (s.fref i + 1)) h busy (omega arith) (omega arith) in
    (
      s',
      rw (fidx-frame_address s i h below busy, frame_ref) refl,
      kept,
      at_update s.fref i (u16 (s.fref i + 1)) ∙ (omega arith),
      freed s' i s (fidx-frame_address s' i kept below busy)
          (drop_ref-again s i (h.counted i below busy) room),
    )

some_rounds : (k i : ℕ) (s : Frames) → next_clear k 0 s ≡ some i → 0 < k
unfolding next_clear
some_rounds zero i s e = absurd (none_ne_some i e)
some_rounds (suc k) i s e = omega arith

-- Every frame has a set bit if the search finds none.
all_busy :
    (s : Frames)
    → IsConsistent s
    → next_clear s.nframes 0 s ≡ none
    → (i : ℕ) → i < s.nframes
    → s.fbits i ≡ true
all_busy s h e i below =
    let (n, lt, place) = passes s i h.hint_range below in
    rw place at (next_clear-none s.nframes 0 n s e (omega arith) (omega arith))

-- From consistent counts, taking a frame fails just when none is free, and then changes nothing;
-- otherwise it gives a frame that was not in use, which then has one reference, with one frame
-- fewer free and the counts consistent with the bits.
pub frame_alloc-cases :
    (s : Frames)
    → IsConsistent s
    → ((frame_alloc s ≡ (0, s)) × (s.nfree ≡ 0))
      ⊎ ((i : ℕ) × (i < s.nframes)
          × (s.fbits i ≡ false)
          × ((frame_alloc s).0 ≡ frame_address i)
          × ((frame_alloc s).1.fref i ≡ 1)
          × ((frame_alloc s).1.nfree + 1 ≡ s.nfree)
          × IsConsistent (frame_alloc s).1)
unfolding frame_alloc
frame_alloc-cases s h = elim (Option-cases (next_clear s.nframes 0 s)) [
  | inl e ↦
      inl (rw (e, frame_alloc) refl, h.free_count ∙ clear-none s.nframes s.fbits (all_busy s h e))
  | inr (i, e) ↦
      let (below, free) = next_clear-clear s.nframes 0 i s e (some_rounds s.nframes i s e) in
      let one = clear-set s.nframes i s.fbits below free in
      let few = few_free s h in
      let fewer : sub32 s.nfree 1 ≡ clear_below s.nframes (update s.fbits i true) =
        omega (arith, h.free_count) in
      inr (
        i,
        below,
        free,
        rw (e, frame_alloc) refl,
        rw (e, frame_alloc) (at_update s.fref i 1),
        rw (e, frame_alloc) (omega (arith, h.free_count)),
        rw (e, frame_alloc)
            (set-IsConsistent s i 1 (i + 1) (sub32 s.nfree 1) true h (omega arith) fewer
              (λ t. omega arith) (λ t. absurd (true_ne_false t)) (omega arith)),
      )
]
