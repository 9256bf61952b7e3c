-- ===== src/Kernel/Frames/Refs.antt =====
-- The counts of the page frames of os/kernel/mm.c.
use tortoise.Base.{
  ◌≡◌, ◌≢◌, refl, sym, ◌∙◌, arith, ℕ, zero, suc, ◌+◌, ◌-◌, ◌*◌, ◌/◌, ◌%◌, ◌^◌, ◌≤◌, ◌<◌, inl, inr,
  Bool, true, false, not, ◌||◌, Option, none, some, ltb, leb, ◌==◌, Bool-cases, update, u32, sub32,
}
use native.Mathlib.Nat.{mod-lt, mod-eq_of_lt, add-mod_right}
use tortoise.Kernel.Frames.{Frames, next_clear, frame_address, fidx, drop_ref}
use tortoise.Kernel.Frames.Count.{clear_below, clear-reset, clear_below-le}

-- The count of free frames is that of the clear bits, and a frame has references just when its bit
-- is set.
pub record IsConsistent (s : Frames) : Type 0 where
  pub few_frames : s.nframes ≤ 65536
  pub hint_range : s.fhint ≤ s.nframes
  pub free_count : s.nfree ≡ clear_below s.nframes s.fbits
  pub counted : (i : ℕ) → i < s.nframes → s.fbits i ≡ true → 0 < s.fref i
  pub uncounted : (i : ℕ) → i < s.nframes → s.fbits i ≡ false → s.fref i ≡ 0
  pub count_range : (i : ℕ) → i < s.nframes → s.fref i < 2 ^ 16

-- The address of a frame in use is one that `fidx` takes.
pub fidx-frame_address :
    (s : Frames) (i : ℕ)
    → IsConsistent s
    → i < s.nframes
    → s.fbits i ≡ true
    → fidx (frame_address i) s ≡ some i
unfolding fidx frame_address
fidx-frame_address s i h below busy =
    let index : sub32 (u32 (0x400000 + i * 4096)) 0x400000 / 4096 ≡ i =
      omega (arith, h.few_frames) in
    let good : (ltb (u32 (0x400000 + i * 4096)) 0x400000 || leb s.nframes i || not (s.fbits i))
        ≡ false =
      rw busy (small i (omega (arith, h.few_frames)) below) in
    rw (index, good) refl
  where
    small :
        (i : ℕ)
        → i < 65536
        → i < s.nframes
        → (ltb (u32 (0x400000 + i * 4096)) 0x400000 || leb s.nframes i || false) ≡ false
    small i lt below = ground arith

pub true_ne_false : true ≢ false
true_ne_false h = cc

pub none_ne_some : (i : ℕ) → ◌≡◌ {A = Option ℕ} none (some i) → ⊥
none_ne_some i h = cc

some_eq : {i j : ℕ} → ◌≡◌ {A = Option ℕ} (some i) (some j) → i ≡ j
some_eq h = cc

fidx-valid :
    (pa : ℕ) (s : Frames) (i : ℕ) → fidx pa s ≡ some i → (i < s.nframes) × (s.fbits i ≡ true)
unfolding fidx
fidx-valid pa s i e = ground arith

-- A frame with a new bit and a new count that agree.
pub set-IsConsistent :
    (s : Frames) (i c hint free : ℕ) (b : Bool)
    → IsConsistent s
    → hint ≤ s.nframes
    → free ≡ clear_below s.nframes (update s.fbits i b)
    → (b ≡ true → 0 < c)
    → (b ≡ false → c ≡ 0)
    → c < 2 ^ 16
    → IsConsistent (record s {
      fbits = update s.fbits i b;
      fref = update s.fref i c;
      fhint = hint;
      nfree = free;
    })
set-IsConsistent s i c hint free b h in_range count some_refs no_refs short = record {
  few_frames = h.few_frames;
  hint_range = in_range;
  free_count = count;
  counted = λ j lt busy. elim (Bool-cases (j == i)) [
    | inl e ↦ rw e (some_refs (rw e at busy))
    | inr e ↦ rw e (h.counted j lt (rw e at busy))
  ];
  uncounted = λ j lt clear. elim (Bool-cases (j == i)) [
    | inl e ↦ rw e (no_refs (rw e at clear))
    | inr e ↦ rw e (h.uncounted j lt (rw e at clear))
  ];
  count_range =
      λ j lt. elim (Bool-cases (j == i)) [ inl e ↦ rw e short | inr e ↦ rw e (h.count_range j lt) ];
}

-- A frame in use with a new count.
pub count-IsConsistent :
    (s : Frames) (i c : ℕ)
    → IsConsistent s
    → s.fbits i ≡ true
    → 0 < c
    → c < 2 ^ 16
    → IsConsistent (record s { fref = update s.fref i c })
count-IsConsistent s i c h busy_frame some_refs short = record {
  few_frames = h.few_frames;
  hint_range = h.hint_range;
  free_count = h.free_count;
  counted = λ j lt busy. elim (Bool-cases (j == i)) [
    | inl e ↦ rw e some_refs
    | inr e ↦ rw e (h.counted j lt busy)
  ];
  uncounted = λ j lt clear. elim (Bool-cases (j == i)) [
    | inl e ↦ absurd (busy_not_clear j e clear)
    | inr e ↦ rw e (h.uncounted j lt clear)
  ];
  count_range =
      λ j lt. elim (Bool-cases (j == i)) [ inl e ↦ rw e short | inr e ↦ rw e (h.count_range j lt) ];
}
  where
    busy_not_clear : (j : ℕ) → (j == i) ≡ true → s.fbits j ≡ false → ⊥
    busy_not_clear j e clear =
        let same : j ≡ i = ground arith in true_ne_false (sym busy_frame ∙ (rw same at clear))

pub drop_ref-IsConsistent :
    (s : Frames) (i : ℕ)
    → IsConsistent s
    → i < s.nframes
    → s.fbits i ≡ true
    → IsConsistent (drop_ref i s)
unfolding drop_ref
drop_ref-IsConsistent s i h below busy = elim (Bool-cases ((s.fref i + 65535) % 2 ^ 16 == 0)) [
  | inl last ↦
      let one = clear-reset s.nframes i s.fbits below busy in
      let most = clear_below-le s.nframes (update s.fbits i false) in
      rw last (
        set-IsConsistent s i ((s.fref i + 65535) % 2 ^ 16) s.fhint (u32 (s.nfree + 1)) false h
          h.hint_range (omega (arith, h.free_count, h.few_frames))
          (λ e. absurd (true_ne_false (sym e))) (λ e. ground arith) (omega arith))
  | inr more ↦
      rw more
        (count-IsConsistent s i ((s.fref i + 65535) % 2 ^ 16) h busy (ground arith) (omega arith))
]

-- The frame that `frame_alloc` finds has a clear bit.
pub next_clear-clear :
    (k n i : ℕ) (s : Frames)
    → next_clear k n s ≡ some i
    → 0 < s.nframes
    → (i < s.nframes) × (s.fbits i ≡ false)
unfolding next_clear
next_clear-clear zero n i s e h = absurd (none_ne_some i e)
next_clear-clear (suc k) n i s e h = elim (Bool-cases (s.fbits ((s.fhint + n) % s.nframes))) [
  | inl busy ↦ next_clear-clear k (n + 1) i s (rw busy at e) h
  | inr free ↦
      let found : (s.fhint + n) % s.nframes ≡ i = some_eq (rw free at e) in
      (rw (← found) (mod-lt (s.fhint + n) h), rw (← found) free)
]

-- If it finds none, every frame that it looked at is in use.
pub next_clear-none :
    (k n j : ℕ) (s : Frames)
    → next_clear k n s ≡ none
    → n ≤ j
    → j < n + k
    → s.fbits ((s.fhint + j) % s.nframes) ≡ true
unfolding next_clear
next_clear-none zero n j s e low high = absurd (omega arith)
next_clear-none (suc k) n j s e low high = elim (Bool-cases (s.fbits ((s.fhint + n) % s.nframes))) [
  | inr free ↦ absurd (none_ne_some _ (sym (rw free at e)))
  | inl busy ↦ elim (Bool-cases (n == j)) [
    | inl same ↦ let here : j ≡ n = ground arith in rw here busy
    | inr other ↦ next_clear-none k (n + 1) j s (rw busy at e) (ground arith) (omega arith)
  ]
]

-- The rounds pass every frame.
pub passes :
    (s : Frames) (i : ℕ)
    → s.fhint ≤ s.nframes
    → i < s.nframes
    → (n : ℕ) × (n < s.nframes) × ((s.fhint + n) % s.nframes ≡ i)
passes s i hint below = elim (Bool-cases (ltb i s.fhint)) [
  | inl before ↦
      let sum : s.fhint + (i + s.nframes - s.fhint) ≡ i + s.nframes = ground arith in
      (
        i + s.nframes - s.fhint,
        ground arith,
        rw sum (add-mod_right i s.nframes ∙ mod-eq_of_lt below),
      )
  | inr behind ↦
      let sum : s.fhint + (i - s.fhint) ≡ i = ground arith in
      (i - s.fhint, ground arith, rw sum (mod-eq_of_lt below))
]
