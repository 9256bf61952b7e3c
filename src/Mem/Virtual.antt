-- ===== src/Mem/Virtual.antt =====
-- Virtual accesses: `vm_read` and `vm_write`, which translate byte by byte where an access can
-- straddle two pages or a limit, and `mem_read` and `mem_write` with the mode of the processor.
use tortoise.Base.{
  ℕ, zero, suc, ◌+◌, ◌*◌, ◌/◌, ◌%◌, Bool, true, false, not, ◌&&◌, ◌||◌, List, [], ◌∷◌, ltb, ◌==◌,
  if◌then◌else◌, add32, offset_of, get_or,
}
use tortoise.Machine.{Mode, supervisor, user, Machine}
use tortoise.Machine.Monad.{M, Void, ok, skip, ◌>>=◌, ◌>>◌, get}
use tortoise.Mem.Phys.{ext_on, prot_on, pg_on, in_range, load, phys_read, phys_write}
use tortoise.Mem.Tlb.{Access, acc_r, acc_w, translate}

abbrev pub is_user : Mode → Bool
is_user user = true
is_user supervisor = false

-- `xl_active`.
abbrev pub xl_active : Machine → Bool
xl_active m = ext_on m && (pg_on m || prot_on m)

-- Whether an access of several bytes is translated byte by byte.
abbrev pub is_split : Machine → ℕ → ℕ → Bool → Bool
is_split m va n user_acc = ltb 1 n && (ltb 0x1000 (offset_of va + n) || not (pg_on m) && user_acc)

-- The bytes' addresses are consecutive as uint32_t, at the two ends.
abbrev pub contiguous : List ℕ → ℕ → Bool
contiguous p n =
    n == 4 && get_or p 3 0 == add32 (get_or p 0 0) 3
    || n == 2 && get_or p 1 0 == add32 (get_or p 0 0) 1

module _ (fault : ℕ → ℕ → M Void) where
  -- The addresses of the bytes from `va` on, by the rounds left.
  unfoldable pub translate_bytes : ℕ → ℕ → Access → Bool → M (List ℕ)
  translate_bytes zero va acc user_acc = get (λ _. [])
  translate_bytes (suc rounds) va acc user_acc = do
    pa ← translate fault va acc user_acc
    rest ← translate_bytes rounds (add32 va 1) acc user_acc
    get (λ _. pa ∷ rest)

  unfoldable pub read_bytes : List ℕ → M ℕ
  read_bytes [] = get (λ _. 0)
  read_bytes (pa ∷ rest) = do b ← phys_read fault pa 1; v ← read_bytes rest; get (λ _. b + 256 * v)

  unfoldable pub write_bytes : List ℕ → ℕ → M Void
  write_bytes [] v = skip
  write_bytes (pa ∷ rest) v = do phys_write fault pa (v % 256) 1; write_bytes rest (v / 256)

  unfoldable pub vm_read : ℕ → ℕ → Bool → M ℕ
  unfolding translate_bytes read_bytes
  vm_read va n user_acc m =
      if not (xl_active m)
      then phys_read fault va n m
      else if is_split m va n user_acc
      then (do
        p ← translate_bytes n va acc_r user_acc
        if contiguous p n then phys_read fault (get_or p 0 0) n else read_bytes p)
          m
      else (do pa ← translate fault va acc_r user_acc; phys_read fault pa n) m

  unfoldable pub vm_write : ℕ → ℕ → ℕ → Bool → M Void
  unfolding translate_bytes write_bytes
  vm_write va v n user_acc m =
      if not (xl_active m)
      then phys_write fault va v n m
      else if is_split m va n user_acc
      then (do
        p ← translate_bytes n va acc_w user_acc
        if contiguous p n then phys_write fault (get_or p 0 0) v n else write_bytes p v)
          m
      else (do pa ← translate fault va acc_w user_acc; phys_write fault pa v n) m

  -- With the fast path of legacy mode.
  unfoldable pub mem_read_by : ℕ → ℕ → M ℕ
  unfolding vm_read load
  mem_read_by va n m =
      if not (ext_on m) && in_range va m.ram_size n
      then ok (load m.memory va n) m
      else vm_read va n (is_user m.mode) m

  unfoldable pub mem_write_by : ℕ → ℕ → ℕ → M Void
  unfolding vm_write
  mem_write_by va v n m = vm_write va v n (is_user m.mode) m
