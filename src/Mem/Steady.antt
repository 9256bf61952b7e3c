-- ===== src/Mem/Steady.antt =====
-- How the memory accesses of src/cpu.c end, for any handler of faults.
use tortoise.Base.{inr, ◌≡◌, refl, ℕ, zero, suc, Bool, Option, none, some, List, [], ◌∷◌}
use tortoise.Machine.{TlbEnt, Machine}
use tortoise.Machine.Monad.{M, Void}
use tortoise.Machine.Steady.{
  returns, leaves, KeepsDepth, KeepsDepth-after, if-KeepsDepth, sequencing,
}
use tortoise.Dev.Bus.{dev_read, dev_write}
use tortoise.Dev.Depth.{dev_read-depth, dev_write-depth}
use tortoise.Mem.Phys.{ext_on, or_else, cpu_bus_error, bus_read, phys_read, phys_write}
use tortoise.Mem.Tlb.{Access, page_fault, walk, mark_dirty, tlb_hit, pg_translate, translate}
use tortoise.Mem.Virtual.{
  translate_bytes, read_bytes, write_bytes, vm_read, vm_write, mem_read_by, mem_write_by,
}

module _ (d : ℕ) (fault : ℕ → ℕ → M Void)
    (handler : (vec code : ℕ) (m : Machine) → m.depth ≡ d → KeepsDepth d (fault vec code m)) where
  cpu_bus_error-KeepsDepth :
      (addr : ℕ) (m : Machine) → m.depth ≡ d → KeepsDepth d (cpu_bus_error fault addr m)
  unfolding cpu_bus_error
  cpu_bus_error-KeepsDepth addr m h =
      if-KeepsDepth (ext_on m) _ _ (handler 5 0 _ h) (leaves (inr refl))

  bus_read-KeepsDepth :
      (addr : ℕ) (m : Machine) → m.depth ≡ d → KeepsDepth d (bus_read fault addr m)
  bus_read-KeepsDepth addr m h = search (sequencing, cpu_bus_error-KeepsDepth)

  or_else-KeepsDepth :
      {A : Type 0} (access : Option (M A)) (other : M A) (m : Machine)
      → ((act : M A) → access ≡ some act → KeepsDepth d (act m))
      → KeepsDepth d (other m)
      → KeepsDepth d (or_else access other m)
  or_else-KeepsDepth none other m s t = t
  or_else-KeepsDepth (some act) other m s t = s act refl

  device_read-KeepsDepth :
      (pa : ℕ) (m : Machine)
      → m.depth ≡ d
      → KeepsDepth d (or_else (dev_read pa) (bus_read fault pa) m)
  device_read-KeepsDepth pa m h =
      or_else-KeepsDepth (dev_read pa) (bus_read fault pa) m
        (λ rd e. KeepsDepth-after d _ m h (dev_read-depth m pa rd e)) (bus_read-KeepsDepth pa m h)

  device_write-KeepsDepth :
      (pa v : ℕ) (m : Machine)
      → m.depth ≡ d
      → KeepsDepth d (or_else (dev_write pa v) (cpu_bus_error fault pa) m)
  device_write-KeepsDepth pa v m h =
      or_else-KeepsDepth (dev_write pa v) (cpu_bus_error fault pa) m
        (λ wr e. KeepsDepth-after d _ m h (dev_write-depth m pa v wr e))
        (cpu_bus_error-KeepsDepth pa m h)

  pub phys_read-KeepsDepth :
      (pa n : ℕ) (m : Machine) → m.depth ≡ d → KeepsDepth d (phys_read fault pa n m)
  unfolding phys_read
  phys_read-KeepsDepth pa n m h = search (sequencing, device_read-KeepsDepth, bus_read-KeepsDepth)

  pub phys_write-KeepsDepth :
      (pa v n : ℕ) (m : Machine) → m.depth ≡ d → KeepsDepth d (phys_write fault pa v n m)
  unfolding phys_write
  phys_write-KeepsDepth pa v n m h =
      search (sequencing, device_write-KeepsDepth, cpu_bus_error-KeepsDepth)

  page_fault-KeepsDepth :
      (va : ℕ) (acc : Access) (user present : Bool) (m : Machine)
      → m.depth ≡ d
      → KeepsDepth d (page_fault fault va acc user present m)
  unfolding page_fault
  page_fault-KeepsDepth va acc user present m h = handler 14 _ _ h

  walk-KeepsDepth :
      (va : ℕ) (acc : Access) (user : Bool) (m : Machine)
      → m.depth ≡ d
      → KeepsDepth d (walk fault va acc user m)
  unfolding walk
  walk-KeepsDepth va acc user m h =
      search (sequencing, phys_read-KeepsDepth, phys_write-KeepsDepth, page_fault-KeepsDepth) depth
        40

  mark_dirty-KeepsDepth :
      (va : ℕ) (e : TlbEnt) (m : Machine) → m.depth ≡ d → KeepsDepth d (mark_dirty fault va e m)
  unfolding mark_dirty
  mark_dirty-KeepsDepth va e m h =
      search (sequencing, phys_read-KeepsDepth, phys_write-KeepsDepth) depth 10

  tlb_hit-KeepsDepth :
      (va : ℕ) (acc : Access) (user : Bool) (e : TlbEnt) (m : Machine)
      → m.depth ≡ d
      → KeepsDepth d (tlb_hit fault va acc user e m)
  unfolding tlb_hit
  tlb_hit-KeepsDepth va acc user e m h =
      search (sequencing, page_fault-KeepsDepth, mark_dirty-KeepsDepth) depth 10

  pg_translate-KeepsDepth :
      (va : ℕ) (acc : Access) (user : Bool) (m : Machine)
      → m.depth ≡ d
      → KeepsDepth d (pg_translate fault va acc user m)
  unfolding pg_translate
  pg_translate-KeepsDepth va acc user m h = search (sequencing, walk-KeepsDepth, tlb_hit-KeepsDepth)

  pub translate-KeepsDepth :
      (va : ℕ) (acc : Access) (user : Bool) (m : Machine)
      → m.depth ≡ d
      → KeepsDepth d (translate fault va acc user m)
  unfolding translate
  translate-KeepsDepth va acc user m h =
      search (sequencing, pg_translate-KeepsDepth, handler) depth 20

  translate_bytes-KeepsDepth :
      (n va : ℕ) (acc : Access) (user : Bool) (m : Machine)
      → m.depth ≡ d
      → KeepsDepth d (translate_bytes fault n va acc user m)
  unfolding translate_bytes
  translate_bytes-KeepsDepth zero va acc user m h = returns h
  translate_bytes-KeepsDepth (suc n) va acc user m h =
      search (sequencing, translate-KeepsDepth, translate_bytes-KeepsDepth n) depth 10

  read_bytes-KeepsDepth :
      (p : List ℕ) (m : Machine) → m.depth ≡ d → KeepsDepth d (read_bytes fault p m)
  unfolding read_bytes
  read_bytes-KeepsDepth [] m h = returns h
  read_bytes-KeepsDepth (pa ∷ rest) m h =
      search (sequencing, phys_read-KeepsDepth, read_bytes-KeepsDepth rest) depth 10

  write_bytes-KeepsDepth :
      (p : List ℕ) (v : ℕ) (m : Machine) → m.depth ≡ d → KeepsDepth d (write_bytes fault p v m)
  unfolding write_bytes
  write_bytes-KeepsDepth [] v m h = returns h
  write_bytes-KeepsDepth (pa ∷ rest) v m h =
      search (sequencing, phys_write-KeepsDepth, write_bytes-KeepsDepth rest) depth 10

  pub vm_read-KeepsDepth :
      (va n : ℕ) (user : Bool) (m : Machine)
      → m.depth ≡ d
      → KeepsDepth d (vm_read fault va n user m)
  unfolding vm_read
  vm_read-KeepsDepth va n user m h =
      search
        (
          sequencing, phys_read-KeepsDepth, translate-KeepsDepth, translate_bytes-KeepsDepth,
          read_bytes-KeepsDepth,
        )
        depth 20

  pub vm_write-KeepsDepth :
      (va v n : ℕ) (user : Bool) (m : Machine)
      → m.depth ≡ d
      → KeepsDepth d (vm_write fault va v n user m)
  unfolding vm_write
  vm_write-KeepsDepth va v n user m h =
      search
        (
          sequencing, phys_write-KeepsDepth, translate-KeepsDepth, translate_bytes-KeepsDepth,
          write_bytes-KeepsDepth,
        )
        depth 20

  pub mem_read_by-KeepsDepth :
      (va n : ℕ) (m : Machine) → m.depth ≡ d → KeepsDepth d (mem_read_by fault va n m)
  unfolding mem_read_by
  mem_read_by-KeepsDepth va n m h = search (sequencing, vm_read-KeepsDepth)

  pub mem_write_by-KeepsDepth :
      (va v n : ℕ) (m : Machine) → m.depth ≡ d → KeepsDepth d (mem_write_by fault va v n m)
  unfolding mem_write_by
  mem_write_by-KeepsDepth va v n m h = search (sequencing, vm_write-KeepsDepth)
