-- ===== src/Mem/Tlb.antt =====
-- Address translation: the TLB with its generations, the walk of the two-level page table with
-- its accessed and dirty bits, and base and limit protection. The TLB is indexed by the page
-- number; a directory that was never allocated is a table of entries of generation 0.
pub mod Flush
pub mod Permissions
use tortoise.Base.{
  ℕ, ◌+◌, ◌*◌, ◌/◌, ◌%◌, ◌^◌, bit_or, Bool, true, false, not, ◌&&◌, ◌||◌, leb, ◌==◌, ◌!=◌,
  if◌then◌else◌, has_bit, bit_of, add32, u32, page_of, offset_of, update,
}
use tortoise.Machine.{TlbEnt, Machine}
use tortoise.Machine.Monad.{M, Void, ok, ◌>>=◌, ◌>>◌, when, get, modify, set_cr}
use tortoise.Mem.Phys.{ext_on, prot_on, pg_on, phys_read, phys_write}

-- ACC_R, ACC_W and ACC_X.
pub data Access : Type 0 where
  acc_r acc_w acc_x : Access

abbrev pub is_write : Access → Bool
is_write acc_w = true
is_write acc = false

abbrev pub is_exec : Access → Bool
is_exec acc_x = true
is_exec acc = false

-- `fetch_inval`: no page has the tag 1.
abbrev pub fetch_inval : Machine → Machine
fetch_inval m = record m { f_tag = 1 }

abbrev pub empty_entry : TlbEnt
empty_entry = record { gen = 0; pte = 0; pte_pa = 0 }

-- A flush starts a new generation; when the 32-bit counter wraps, all entries are cleared.
unfoldable pub flush_tlb : Machine → Machine
flush_tlb m =
    let gen = u32 (m.tlb_gen + 1) in
    fetch_inval (
      if gen == 0
      then record m { tlb = λ _. empty_entry; tlb_gen = 1 }
      else record m { tlb_gen = gen })

unfoldable pub cpu_flush_tlb : M Void
unfolding flush_tlb
cpu_flush_tlb = modify flush_tlb

unfoldable pub cpu_invlpg : ℕ → M Void
cpu_invlpg va = modify (λ m. fetch_inval (record m {
  tlb = update m.tlb (va / 4096) (let e = m.tlb (va / 4096) in record e { gen = 0 });
}))

-- The bits of PTE_P, PTE_W, PTE_U, PTE_X and PTE_D are 0, 1, 2, 3 and 5.
unfoldable pub pte_denied : ℕ → Access → Bool → Bool
pte_denied pte acc user =
    user && not (has_bit 2 pte)
    || is_write acc && not (has_bit 1 pte)
    || is_exec acc && not (has_bit 3 pte)

-- The error code of a page fault: PF_P, PF_W, PF_U and PF_I.
abbrev pub fault_code : Access → Bool → Bool → ℕ
fault_code acc user present =
    bit_of present + 2 * bit_of (is_write acc) + 4 * bit_of user + 8 * bit_of (is_exec acc)

-- `npte`: the entry with PTE_A, and PTE_D for a write.
abbrev pub touched : ℕ → Access → ℕ
touched pte acc = bit_or pte (if is_write acc then 48 else 16)

abbrev pub pde_at : Machine → ℕ → ℕ
pde_at m va = u32 (page_of (m.cr 3) + va / 2 ^ 22 * 4)

abbrev pub pte_at : ℕ → ℕ → ℕ
pte_at pde va = u32 (page_of pde + va / 4096 % 1024 * 4)

abbrev pub frame_address : ℕ → ℕ → ℕ
frame_address pte va = page_of pte + offset_of va

module _ (fault : ℕ → ℕ → M Void) where
  unfoldable pub page_fault : ℕ → Access → Bool → Bool → M Void
  page_fault va acc user present = do set_cr 2 va; fault 14 (fault_code acc user present)

  -- The walk of the page table; `page_fault` does not return.
  unfoldable pub walk : ℕ → Access → Bool → M ℕ
  unfolding page_fault
  walk va acc user = do
    pde_pa ← get (λ m. pde_at m va)
    pde ← phys_read fault pde_pa 4
    when (not (has_bit 0 pde)) (page_fault va acc user false)
    pte ← phys_read fault (pte_at pde va) 4
    when (not (has_bit 0 pte)) (page_fault va acc user false)
    when (pte_denied pte acc user) (page_fault va acc user true)
    when (touched pte acc != pte) (phys_write fault (pte_at pde va) (touched pte acc) 4)
    modify (λ m. record m {
      tlb =
          update m.tlb (va / 4096)
            (record { gen = m.tlb_gen; pte = touched pte acc; pte_pa = pte_at pde va });
    })
    get (λ _. frame_address (touched pte acc) va)

  -- The first write through a clean entry marks it and the table dirty.
  unfoldable pub mark_dirty : ℕ → TlbEnt → M Void
  mark_dirty va e = do
    modify (λ m. record m { tlb = update m.tlb (va / 4096) (record e { pte = bit_or e.pte 32 }) })
    old ← phys_read fault e.pte_pa 4
    phys_write fault e.pte_pa (bit_or old 48) 4

  -- A translation that the TLB holds.
  unfoldable pub tlb_hit : ℕ → Access → Bool → TlbEnt → M ℕ
  unfolding page_fault mark_dirty
  tlb_hit va acc user e = do
    when (pte_denied e.pte acc user) (page_fault va acc user true)
    when (is_write acc && not (has_bit 5 e.pte)) (mark_dirty va e)
    get (λ m. frame_address (m.tlb (va / 4096)).pte va)

  unfoldable pub pg_translate : ℕ → Access → Bool → M ℕ
  unfolding walk tlb_hit
  pg_translate va acc user m =
      if (m.tlb (va / 4096)).gen != m.tlb_gen
      then walk va acc user m
      else tlb_hit va acc user (m.tlb (va / 4096)) m

  unfoldable pub translate : ℕ → Access → Bool → M ℕ
  translate va acc user m =
      if not (ext_on m)
      then ok va m
      else if pg_on m
      then pg_translate va acc user m
      else if prot_on m && user
      then (do when (leb (m.cr 6) va) (do set_cr 2 va; fault 13 0); get (λ m. add32 (m.cr 5) va)) m
      else ok va m
