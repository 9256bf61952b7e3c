-- ===== src/Mem/Bytes.antt =====
-- The little-endian loads and stores of 1, 2 and 4 bytes of src/cpu.c.
use tortoise.Base.{ℕ, ◌+◌, ◌*◌, ◌/◌, ◌%◌, ◌^◌, ◌≤◌, ◌<◌, ◌≡◌, arith, ◌⊎◌, inl, inr}
use tortoise.Mem.Phys.{load, store}

-- The sizes of an access.
abbrev pub IsSize : ℕ → Type 0
IsSize n = (n ≡ 1) ⊎ (n ≡ 2) ⊎ (n ≡ 4)

module _ (bytes : ℕ → ℕ) (p v : ℕ) where
  store_one : store bytes p v 1 p ≡ v % 256
  unfolding store
  store_one = ground arith

  store_two : (store bytes p v 2 p ≡ v % 256) × (store bytes p v 2 (p + 1) ≡ v / 256 % 256)
  unfolding store
  store_two = ground arith

  store_four :
      (store bytes p v 4 p ≡ v % 256)
      × (store bytes p v 4 (p + 1) ≡ v / 256 % 256)
      × (store bytes p v 4 (p + 2) ≡ v / 65536 % 256)
      × (store bytes p v 4 (p + 3) ≡ v / 16777216 % 256)
  unfolding store
  store_four = ground arith

  -- A load of 1, 2 or 4 bytes gets back what a store of the same size wrote there, cut to that
  -- size.
  pub load-store : (n : ℕ) → IsSize n → load (store bytes p v n) p n ≡ v % 2 ^ (8 * n)
  unfolding load
  load-store n (inl e) = rw e (omega (arith, store_one))
  load-store n (inr (inl e)) = rw e (omega (arith, store_two))
  load-store n (inr (inr e)) = rw e (omega (arith, store_four))

  -- A store of 1, 2 or 4 bytes changes no byte outside of those.
  pub store_frame : (n j : ℕ) → IsSize n → (j < p) ⊎ (p + n ≤ j) → store bytes p v n j ≡ bytes j
  unfolding store
  store_frame n j size out = ground arith
