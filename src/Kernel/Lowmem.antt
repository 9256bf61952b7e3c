-- ===== src/Kernel/Lowmem.antt =====
-- The pages of low memory in os/kernel/mm.c: `low_alloc_n`, `low_alloc`, `low_free_n` and `low_free`.
-- LOWMEM / PAGE is 1024 pages. Clearing the pages is left out.
pub mod Search
pub mod Pages
use tortoise.Base.{
  ℕ, zero, suc, ◌+◌, ◌*◌, ◌/◌, Bool, true, false, not, ◌&&◌, ◌||◌, Option, none, some, ltb, leb,
  ◌==◌, if◌then◌else◌, update,
}

-- `low_used`, and `low_first`.
pub record Low : Type 0 where
  pub used : ℕ → Bool
  pub first : ℕ

-- The inner loop: how many of the `n` pages from `i` on are free before one that is not.
unfoldable pub free_pages : ℕ → ℕ → (ℕ → Bool) → ℕ
free_pages zero i used = 0
free_pages (suc n) i used = let rest = free_pages n (i + 1) used in if used i then 0 else suc rest

-- The outer loop over the pages below `limit`, on fuel; every round goes forward by a page or more.
unfoldable pub first_fit : ℕ → ℕ → ℕ → ℕ → (ℕ → Bool) → Option ℕ
unfolding free_pages
first_fit zero limit n i used = none
first_fit (suc fuel) limit n i used =
    let k = free_pages n i used in
    let rest = first_fit fuel limit n (i + k + 1) used in
    if leb (i + n) limit then if k == n then some i else rest else none

-- `n` pages from `i` on are taken.
unfoldable pub mark : ℕ → ℕ → (ℕ → Bool) → ℕ → Bool
mark i n used j = if leb i j && ltb j (i + n) then true else used j

unfoldable pub low_alloc_n : ℕ → Low → ℕ × Low
unfolding first_fit mark
low_alloc_n n s = elim (first_fit 1025 1024 n s.first s.used) [
  | none ↦ (0, s)
  | some i ↦ (i * 4096, record s { used = mark i n s.used })
]

unfoldable pub low_alloc : Low → ℕ × Low
unfolding low_alloc_n
low_alloc s = low_alloc_n 1 s

-- The loop of `low_free_n` over the `n` pages from `i` on; `none` is the panic.
unfoldable pub release : ℕ → ℕ → Low → Option Low
release zero i s = some s
release (suc n) i s =
    let rest = release n (i + 1) (record s { used = update s.used i false }) in
    if ltb i s.first || leb 1024 i || not (s.used i) then none else rest

unfoldable pub low_free_n : ℕ → ℕ → Low → Option Low
unfolding release
low_free_n pa n s = release n (pa / 4096) s

unfoldable pub low_free : ℕ → Low → Option Low
unfolding low_free_n
low_free pa s = low_free_n pa 1 s
