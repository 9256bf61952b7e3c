-- ===== src/Kernel/Lowmem/Search.antt =====
-- The search of os/kernel/mm.c for free pages of low memory.
use tortoise.Base.{
  ◌≡◌, refl, arith, ℕ, zero, suc, ◌+◌, ◌-◌, ◌≤◌, ◌<◌, ◌⊎◌, inl, inr, Bool, true, false, none, some,
  leb, leb→le, ◌==◌, Bool-cases,
}
use tortoise.Kernel.Lowmem.{free_pages, first_fit}

-- The `n` pages from `j` on are free; and one of them is not.
abbrev pub AllFree : ℕ → ℕ → (ℕ → Bool) → Type 0
AllFree n j used = (k : ℕ) → k < n → used (j + k) ≡ false

abbrev pub SomeUsed : ℕ → ℕ → (ℕ → Bool) → Type 0
SomeUsed n j used = (k : ℕ) × (k < n) × (used (j + k) ≡ true)

-- The inner loop stops at the first page in use.
free_pages-first :
    (n i : ℕ) (used : ℕ → Bool)
    → ((free_pages n i used ≡ n) × AllFree n i used)
      ⊎ ((free_pages n i used < n) × (used (i + free_pages n i used) ≡ true))
unfolding free_pages
free_pages-first zero i used = inl (refl, λ k h. absurd (omega arith))
free_pages-first (suc n) i used = elim (Bool-cases (used i)) [
  | inl busy ↦ inr (rw busy (omega arith), rw busy (busy_at i busy))
  | inr free ↦ elim (free_pages-first n (i + 1) used) [
    | inl (all, frees) ↦ inl (rw (free, all) refl, λ k h. all_free frees free k h)
    | inr (stop, busy) ↦ inr (rw free (omega arith), rw free (later busy))
  ]
]
  where
    busy_at : (i : ℕ) → used i ≡ true → used (i + 0) ≡ true
    busy_at i b = let e : i + 0 ≡ i = omega arith in rw e b

    later :
        used (i + 1 + free_pages n (i + 1) used) ≡ true
        → used (i + suc (free_pages n (i + 1) used)) ≡ true
    later b =
        let e : i + suc (free_pages n (i + 1) used) ≡ i + 1 + free_pages n (i + 1) used =
          omega arith in
        rw e b

    all_free : AllFree n (i + 1) used → used i ≡ false → AllFree (suc n) i used
    all_free frees free zero h = let e : i + 0 ≡ i = omega arith in rw e free
    all_free frees free (suc k) h =
        let e : i + suc k ≡ i + 1 + k = omega arith in rw e (frees k (omega arith))

-- What the search finds: the first place where `n` pages are free, or that there is none.
pub first_fit-first :
    (fuel limit n i : ℕ) (used : ℕ → Bool)
    → 0 < n
    → limit < fuel + i
    → ((first_fit fuel limit n i used ≡ none)
        × ((j : ℕ) → i ≤ j → j + n ≤ limit → SomeUsed n j used))
      ⊎ ((r : ℕ) × (first_fit fuel limit n i used ≡ some r)
          × (i ≤ r)
          × (r + n ≤ limit)
          × AllFree n r used
          × ((j : ℕ) → i ≤ j → j < r → SomeUsed n j used))
unfolding first_fit
first_fit-first zero limit n i used some_pages fuel_left =
    inl (refl, λ j low high. absurd (omega arith))
first_fit-first (suc fuel) limit n i used some_pages fuel_left =
    elim (Bool-cases (leb (i + n) limit)) [
      | inr over ↦ inl (rw over refl, λ j low high. absurd (too_far over j low high))
      | inl inside ↦ elim (free_pages-first n i used) [
        | inl (all, frees) ↦
            let exact : (free_pages n i used == n) ≡ true = ground arith in
            inr (
              i,
              rw (inside, exact) refl,
              omega arith,
              leb→le (i + n) limit inside,
              frees,
              λ j low high. absurd (omega arith),
            )
        | inr (stop, busy) ↦
            let k = free_pages n i used in
            let short : (free_pages n i used == n) ≡ false = ground arith in
            elim (first_fit-first fuel limit n (i + free_pages n i used + 1) used some_pages
              (omega arith)) [
                | inl (failed, blocked) ↦
                    inl (
                      rw (inside, short) failed,
                      λ j low high. skip stop busy j low (blocked j) high,
                    )
                | inr (r, found, above, fits, frees, before) ↦ inr (
                  r,
                  rw (inside, short) found,
                  omega arith,
                  fits,
                  frees,
                  λ j low high. skip stop busy j low (λ l h. before j l high) (omega arith),
                )
              ]
      ]
    ]
  where
    too_far : leb (i + n) limit ≡ false → (j : ℕ) → i ≤ j → j + n ≤ limit → ⊥
    too_far over j low high = ground arith

    skip :
        free_pages n i used < n
        → used (i + free_pages n i used) ≡ true
        → (j : ℕ) → i ≤ j
        → (i + free_pages n i used + 1 ≤ j → j + n ≤ limit → SomeUsed n j used)
        → j + n ≤ limit
        → SomeUsed n j used
    skip stop busy j low rest high = elim (Bool-cases (leb j (i + free_pages n i used))) [
      | inl near ↦ (i + free_pages n i used - j, ground arith, blocker near)
      | inr far ↦ rest (ground arith) high
    ]
      where
        blocker :
            leb j (i + free_pages n i used) ≡ true → used (j + (i + free_pages n i used - j)) ≡ true
        blocker near =
            let e : j + (i + free_pages n i used - j) ≡ i + free_pages n i used = ground arith in
            rw e busy
