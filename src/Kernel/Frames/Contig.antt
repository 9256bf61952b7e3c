-- ===== src/Kernel/Frames/Contig.antt =====
-- Frames in a row: `frame_alloc_contig` of os/kernel/mm.c.
use tortoise.Base.{
  ◌≡◌, refl, arith, ℕ, zero, suc, ◌+◌, ◌-◌, ◌∙◌, Bool-cases, ==_iff, ◌≤◌, ◌<◌, ◌⊎◌, inl, inr, Bool,
  true, false, ◌==◌, update, sub32,
}
use tortoise.Kernel.Lowmem.Search.{AllFree, SomeUsed, first_fit-first}
use tortoise.Kernel.Frames.{Frames, frame_address, frame_alloc_contig, set_run}
use tortoise.Kernel.Frames.Count.{clear_below, clear-set, clear_below-le}
use tortoise.Kernel.Frames.Refs.{IsConsistent, set-IsConsistent, true_ne_false}

abbrev taken : ℕ → ℕ → Frames → Frames
taken n i s = record s {
  fbits = set_run n i true s.fbits;
  fref = set_run n i 1 s.fref;
  nfree = sub32 s.nfree n;
}

abbrev one_taken : ℕ → Frames → Frames
one_taken i s = record s {
  fbits = update s.fbits i true;
  fref = update s.fref i 1;
  fhint = s.fhint;
  nfree = sub32 s.nfree 1;
}

one_taken-IsConsistent :
    (s : Frames) (i : ℕ)
    → IsConsistent s
    → i < s.nframes
    → s.fbits i ≡ false
    → (0 < s.nfree) × IsConsistent (one_taken i s)
one_taken-IsConsistent s i h below free =
    let one = clear-set s.nframes i s.fbits below free in
    let most = clear_below-le s.nframes s.fbits in
    let fewer : sub32 s.nfree 1 ≡ clear_below s.nframes (update s.fbits i true) =
      omega (arith, h.free_count, h.few_frames) in
    (
      omega (arith, h.free_count),
      set-IsConsistent s i 1 s.fhint (sub32 s.nfree 1) true h h.hint_range fewer (λ t. omega arith)
          (λ t. absurd (true_ne_false t)) (omega arith),
    )

still_free :
    (n i : ℕ) (bits : ℕ → Bool) → AllFree (suc n) i bits → AllFree n (i + 1) (update bits i true)
still_free n i bits frees k h =
    let other : (i + 1 + k == i) ≡ false = ground arith in
    let place : i + 1 + k ≡ i + suc k = omega arith in
    rw other (rw place (frees (suc k) (omega arith)))

-- Free frames in a row, taken one after another.
taken-IsConsistent :
    (n i : ℕ) (s : Frames)
    → IsConsistent s
    → i + n ≤ s.nframes
    → AllFree n i s.fbits
    → (n ≤ s.nfree) × IsConsistent (taken n i s)
unfolding set_run
taken-IsConsistent zero i s h fits frees =
    let most = clear_below-le s.nframes s.fbits in
    let same : sub32 s.nfree 0 ≡ s.nfree = omega (arith, h.free_count, h.few_frames) in
    (omega arith, rw same h)
taken-IsConsistent (suc n) i s h fits frees =
    let first : s.fbits i ≡ false =
      (let place : i + 0 ≡ i = omega arith in rw place at (frees 0 (omega arith))) in
    let (some_free, next) = one_taken-IsConsistent s i h (omega arith) first in
    let (enough, rest) =
      taken-IsConsistent n (i + 1) (one_taken i s) next (omega arith)
        (still_free n i s.fbits frees) in
    let most = clear_below-le s.nframes s.fbits in
    let count : sub32 (sub32 s.nfree 1) n ≡ sub32 s.nfree (suc n) =
      omega (arith, enough, some_free, h.free_count, h.few_frames) in
    (omega (arith, enough, some_free, h.free_count, h.few_frames), rw count at rest)

set_run-outside :
    {A : Type 0} (n i : ℕ) (v : A) (f : ℕ → A) (j : ℕ)
    → (j < i) ⊎ (i + n ≤ j)
    → set_run n i v f j ≡ f j
unfolding set_run
set_run-outside zero i v f j out = refl
set_run-outside (suc n) i v f j out =
    let other : (j == i) ≡ false = elim out [
      | inl before ↦ ground arith
      | inr behind ↦ ground arith
    ] in
    let out' : (j < i + 1) ⊎ (i + 1 + n ≤ j) = elim out [
      | inl before ↦ inl (omega arith)
      | inr behind ↦ inr (omega arith)
    ] in
    set_run-outside n (i + 1) v (update f i v) j out' ∙ rw other refl

set_run-inside :
    {A : Type 0} (n i : ℕ) (v : A) (f : ℕ → A) (j : ℕ) → i ≤ j → j < i + n → set_run n i v f j ≡ v
unfolding set_run
set_run-inside zero i v f j from to = absurd (omega arith)
set_run-inside (suc n) i v f j from to = elim (Bool-cases (j == i)) [
  | inl here ↦
      let e : j ≡ i = (==_iff j i).0 here in
      set_run-outside n (i + 1) v (update f i v) j (inl (omega (arith, e))) ∙ rw here refl
  | inr later ↦ set_run-inside n (i + 1) v (update f i v) j (ground arith) (omega arith)
]

-- From `s` to `t`, just the `n` frames from `r` on come into use, once each.
abbrev pub TakesRun : ℕ → ℕ → Frames → Frames → Type 0
TakesRun n r s t =
    ((j : ℕ) → r ≤ j → j < r + n → (s.fbits j ≡ false) × (t.fbits j ≡ true) × (t.fref j ≡ 1))
    × ((j : ℕ) → (j < r) ⊎ (r + n ≤ j) → (t.fbits j ≡ s.fbits j) × (t.fref j ≡ s.fref j))

taken-TakesRun : (n r : ℕ) (s : Frames) → AllFree n r s.fbits → TakesRun n r s (taken n r s)
taken-TakesRun n r s frees = (
  λ j from to.
      let place : r + (j - r) ≡ j = omega arith in
      (
        rw place at (frees (j - r) (omega arith)),
        set_run-inside n r true s.fbits j from to,
        set_run-inside n r 1 s.fref j from to,
      ),
  λ j out. (set_run-outside n r true s.fbits j out, set_run-outside n r 1 s.fref j out),
)

-- From consistent counts, taking one frame or more in a row either fails and changes nothing, and
-- then no place has as many free frames in a row; or gives the address of the first place that has,
-- of which all frames come into use with a count of 1 and no other frame changes, with that many
-- frames fewer free and the counts consistent with the bits.
pub frame_alloc_contig-cases :
    (n : ℕ) (s : Frames)
    → IsConsistent s
    → 0 < n
    → ((frame_alloc_contig n s ≡ (0, s)) × ((j : ℕ) → j + n ≤ s.nframes → SomeUsed n j s.fbits))
      ⊎ ((r : ℕ) × ((frame_alloc_contig n s).0 ≡ frame_address r)
          × (r + n ≤ s.nframes)
          × TakesRun n r s (frame_alloc_contig n s).1
          × ((j : ℕ) → j < r → SomeUsed n j s.fbits)
          × ((frame_alloc_contig n s).1.nfree + n ≡ s.nfree)
          × IsConsistent (frame_alloc_contig n s).1)
unfolding frame_alloc_contig
frame_alloc_contig-cases n s h some_of =
    elim (first_fit-first (s.nframes + 1) s.nframes n 0 s.fbits some_of (omega arith)) [
      | inl (failed, blocked) ↦
          inl (rw (failed, frame_alloc_contig) refl, λ j fits. blocked j (omega arith) fits)
      | inr (r, found, above, fits, frees, before) ↦
          let (enough, kept) = taken-IsConsistent n r s h fits frees in
          let most = clear_below-le s.nframes s.fbits in
          inr (
            r,
            rw (found, frame_alloc_contig) refl,
            fits,
            rw (found, frame_alloc_contig) (taken-TakesRun n r s frees),
            λ j lt. before j (omega arith) lt,
            rw (found, frame_alloc_contig) (omega (arith, enough, h.free_count, h.few_frames)),
            rw (found, frame_alloc_contig) kept,
          )
    ]
