-- ===== src/Kernel/Lowmem/Pages.antt =====
-- Taking and giving back pages of low memory, os/kernel/mm.c.
use tortoise.Base.{
  ◌≡◌, ◌≢◌, refl, ap, arith, ℕ, zero, suc, ◌+◌, ◌*◌, ◌/◌, ◌≤◌, ◌<◌, ◌⊎◌, inl, inr, Bool, true,
  false, not, ◌&&◌, ◌||◌, some, ltb, leb, ◌==◌, if◌then◌else◌, Bool-cases, update,
}
use mathlib.Core.Path.{fun_ext}
use tortoise.Kernel.Lowmem.{Low, mark, low_alloc_n, release, low_free_n}
use tortoise.Kernel.Lowmem.Search.{AllFree, SomeUsed, first_fit-first}

-- Taking one page or more either fails and changes nothing, and then no place above the kernel has
-- as many free pages in a row; or takes the first place that has, and marks exactly its pages.
pub low_alloc_n-first :
    (n : ℕ) (s : Low)
    → 0 < n
    → ((low_alloc_n n s ≡ (0, s)) × ((j : ℕ) → s.first ≤ j → j + n ≤ 1024 → SomeUsed n j s.used))
      ⊎ ((r : ℕ) × (low_alloc_n n s ≡ (r * 4096, record s { used = mark r n s.used }))
          × (s.first ≤ r)
          × (r + n ≤ 1024)
          × AllFree n r s.used
          × ((j : ℕ) → s.first ≤ j → j < r → SomeUsed n j s.used))
unfolding low_alloc_n
low_alloc_n-first n s some_pages =
    elim (first_fit-first 1025 1024 n s.first s.used some_pages (omega arith)) [
      | inl (failed, blocked) ↦ inl (rw (failed, low_alloc_n) refl, blocked)
      | inr (r, found, above, fits, frees, before) ↦
          inr (r, rw (found, low_alloc_n) refl, above, fits, frees, before)
    ]

-- The first of the marked pages, given back.
unmark :
    (i n : ℕ) (used : ℕ → Bool)
    → used i ≡ false
    → update (mark i (suc n) used) i false ≡ mark (i + 1) n used
unfolding mark
unmark i n used free = fun_ext λ j. elim (Bool-cases (j == i)) [
  | inl e ↦ let same : j ≡ i = ground arith in rw same (own i n free)
  | inr e ↦ rw e (other j e)
]
  where
    own :
        (i n : ℕ)
        → used i ≡ false
        → (if i == i then false else if leb i i && ltb i (i + suc n) then true else used i)
          ≡ (if leb (i + 1) i && ltb i (i + 1 + n) then true else used i)
    own i n free = ground arith

    other :
        (j : ℕ)
        → (j == i) ≡ false
        → (if leb i j && ltb j (i + suc n) then true else used j)
          ≡ (if leb (i + 1) j && ltb j (i + 1 + n) then true else used j)
    other j e = ground arith

mark-none : (i : ℕ) (used : ℕ → Bool) → mark i 0 used ≡ used
unfolding mark
mark-none i used = fun_ext λ j. ground arith

mark-own : (i n : ℕ) (used : ℕ → Bool) → mark i (suc n) used i ≡ true
unfolding mark
mark-own i n used = ground arith

release-mark :
    (n i first : ℕ) (used : ℕ → Bool)
    → first ≤ i
    → i + n ≤ 1024
    → AllFree n i used
    → release n i (record { used = mark i n used; first = first })
      ≡ some (record { used = used; first = first })
unfolding release
release-mark zero i first used low high frees = rw (mark-none i used) refl
release-mark (suc n) i first used low high frees =
    let free : used i ≡ false = first_free in
    let good : (ltb i first || leb 1024 i || not (mark i (suc n) used i)) ≡ false = taken in
    rw (good, unmark i n used free)
      (release-mark n (i + 1) first used (omega arith) (omega arith) later)
  where
    first_free : used i ≡ false
    first_free = let e : i + 0 ≡ i = omega arith in rw e at (frees 0 (omega arith))

    taken : (ltb i first || leb 1024 i || not (mark i (suc n) used i)) ≡ false
    taken = ground (arith, mark-own i n used)

    later : AllFree n (i + 1) used
    later k h = let e : i + 1 + k ≡ i + suc k = omega arith in rw e (frees (suc k) (omega arith))

-- Pages that were taken can be given back, without a panic, and then the pages in use are those of
-- before. Page 0 is the kernel's.
pub low_free_n-low_alloc_n :
    (n : ℕ) (s : Low)
    → 0 < n
    → (low_alloc_n n s).0 ≢ 0
    → low_free_n (low_alloc_n n s).0 n (low_alloc_n n s).1 ≡ some s
unfolding low_free_n
low_free_n-low_alloc_n n s some_pages got = elim (low_alloc_n-first n s some_pages) [
  | inl (failed, blocked) ↦ absurd (got (ap (λ r. r.0) failed))
  | inr (r, taken, above, fits, frees, before) ↦
      let page : r * 4096 / 4096 ≡ r = omega arith in
      rw (taken, page) (release-mark n r s.first s.used above fits frees)
]
