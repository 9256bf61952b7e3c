-- ===== src/Cpu/Fault/Steady.antt =====
-- How `cpu_fault`, `cpu_deliver` and the memory accesses of src/cpu.c end.
use tortoise.Base.{◌≡◌, refl, arith, ℕ, suc, ◌≤◌, ◌⊎◌, inl, inr}
use tortoise.Machine.{Machine}
use tortoise.Machine.Monad.{M, Void, Outcome, ok, abort, stuck, and_then, cpu_abort, ◌>>◌}
use tortoise.Machine.Steady.{IsSettled, KeepsDepth, returns, leaves, sequencing}
use tortoise.Mem.Steady.{
  vm_read-KeepsDepth, vm_write-KeepsDepth, mem_read_by-KeepsDepth, mem_write_by-KeepsDepth,
}
use tortoise.Cpu.Fault.{
  sup_read, sup_write, switch_stack, set_depth, enter, cpu_fault_by, cpu_fault, cpu_deliver,
  mem_read, mem_write,
}

-- The call leaves by `longjmp`, at depth 0 or with the machine stopped.
pub data Raises {A : Type 0} : Outcome A → Type 0 where
  raised : {m : Machine} → IsSettled m → Raises (abort m)

Raises-KeepsDepth : {A : Type 0} (d : ℕ) (r : Outcome A) → Raises r → KeepsDepth d r
Raises-KeepsDepth d (ok a m) e = elim e [ ]
Raises-KeepsDepth d (abort m) (raised s) = leaves s
Raises-KeepsDepth d stuck e = elim e [ ]

module _ (d : ℕ) (fault : ℕ → ℕ → M Void)
    (handler : (vec code : ℕ) (m : Machine) → m.depth ≡ d → KeepsDepth d (fault vec code m)) where
  switch_stack-KeepsDepth : (m : Machine) → m.depth ≡ d → KeepsDepth d (switch_stack fault m)
  unfolding switch_stack sup_write
  switch_stack-KeepsDepth m h = search (sequencing, vm_write-KeepsDepth d fault handler) depth 10

  enter-KeepsDepth :
      (vec savepc code : ℕ) (m : Machine)
      → m.depth ≡ d
      → KeepsDepth d (enter fault vec savepc code m)
  unfolding enter sup_read sup_write
  enter-KeepsDepth vec savepc code m h =
      search
        (
          sequencing,
          switch_stack-KeepsDepth,
          vm_read-KeepsDepth d fault handler,
          vm_write-KeepsDepth d fault handler,
        )
        depth 30

-- The end of `cpu_fault`.
abort-Raises :
    (d : ℕ) (r : Outcome Void)
    → KeepsDepth d r
    → Raises (and_then r (λ _. (set_depth 0 >> cpu_abort)))
unfolding set_depth
abort-Raises d (ok a m) e = raised (inl refl)
abort-Raises d (abort m) (leaves s) = raised s
abort-Raises d stuck e = elim e [ ]

-- The machine when `cpu_fault` delivers the exception.
abbrev nested : ℕ → Machine → Machine
nested d m = record m { cpu = record m.cpu { pc = m.inst_pc; depth = d } }

-- At depth 2 the machine stops, and below it one more nested call is enough.
triple-Raises :
    (nest vec code : ℕ) (m : Machine) → m.depth ≡ 2 → Raises (cpu_fault_by (suc nest) vec code m)
unfolding cpu_fault_by set_depth
triple-Raises nest vec code m h = rw h (raised (inl refl))

double-Raises :
    (nest vec code : ℕ) (m : Machine)
    → m.depth ≡ 1
    → Raises (cpu_fault_by (suc (suc nest)) vec code m)
unfolding cpu_fault_by set_depth
double-Raises nest vec code m h = rw h (
    abort-Raises 2 _ (
      enter-KeepsDepth 2 (cpu_fault_by (suc nest))
        (λ v c m' h'. Raises-KeepsDepth 2 _ (triple-Raises nest v c m' h')) 6 m.inst_pc 0
        (nested 2 m) refl))

single-Raises :
    (nest vec code : ℕ) (m : Machine)
    → m.depth ≡ 0
    → Raises (cpu_fault_by (suc (suc (suc nest))) vec code m)
unfolding cpu_fault_by set_depth
single-Raises nest vec code m h = rw h (
    abort-Raises 1 _ (
      enter-KeepsDepth 1 (cpu_fault_by (suc (suc nest)))
        (λ v c m' h'. Raises-KeepsDepth 1 _ (double-Raises nest v c m' h')) vec m.inst_pc code
        (nested 1 m) refl))

-- From depth 0, 1 or 2 `cpu_fault` leaves by `longjmp` for every vector and code: it is not stuck
-- on its fuel, does not return to the code that faulted, and the exception depth is 0 afterwards
-- or the machine is stopped.
pub cpu_fault-Raises : (vec code : ℕ) (m : Machine) → m.depth ≤ 2 → Raises (cpu_fault vec code m)
unfolding cpu_fault
cpu_fault-Raises vec code m h = go (omega arith)
  where
    go : (m.depth ≡ 0) ⊎ (m.depth ≡ 1) ⊎ (m.depth ≡ 2) → Raises (cpu_fault_by 3 vec code m)
    go (inl e) = single-Raises 0 vec code m e
    go (inr (inl e)) = double-Raises 1 vec code m e
    go (inr (inr e)) = triple-Raises 2 vec code m e

pub cpu_fault-KeepsDepth :
    (vec code : ℕ) (m : Machine) → m.depth ≡ 0 → KeepsDepth 0 (cpu_fault vec code m)
cpu_fault-KeepsDepth vec code m h =
    Raises-KeepsDepth 0 _ (cpu_fault-Raises vec code m (omega arith))

pub mem_read-KeepsDepth : (va n : ℕ) (m : Machine) → m.depth ≡ 0 → KeepsDepth 0 (mem_read va n m)
unfolding mem_read
mem_read-KeepsDepth = mem_read_by-KeepsDepth 0 cpu_fault cpu_fault-KeepsDepth

pub mem_write-KeepsDepth :
    (va v n : ℕ) (m : Machine) → m.depth ≡ 0 → KeepsDepth 0 (mem_write va v n m)
unfolding mem_write
mem_write-KeepsDepth = mem_write_by-KeepsDepth 0 cpu_fault cpu_fault-KeepsDepth

fault_one-KeepsDepth :
    (vec code : ℕ) (m : Machine) → m.depth ≡ 1 → KeepsDepth 1 (cpu_fault vec code m)
fault_one-KeepsDepth vec code m h =
    Raises-KeepsDepth 1 _ (cpu_fault-Raises vec code m (omega arith))

-- The end of `cpu_deliver`.
deliver-KeepsDepth :
    (r : Outcome Void) → KeepsDepth 1 r → KeepsDepth 0 (and_then r (λ _. set_depth 0))
unfolding set_depth
deliver-KeepsDepth (ok a m) e = returns refl
deliver-KeepsDepth (abort m) (leaves s) = leaves s
deliver-KeepsDepth stuck e = elim e [ ]

pub cpu_deliver-KeepsDepth :
    (vec savepc code : ℕ) (m : Machine) → m.depth ≡ 0 → KeepsDepth 0 (cpu_deliver vec savepc code m)
unfolding cpu_deliver set_depth
cpu_deliver-KeepsDepth vec savepc code m h = rw h (
    deliver-KeepsDepth _ (
      enter-KeepsDepth 1 cpu_fault fault_one-KeepsDepth vec savepc code
        (record m { cpu = record m.cpu { depth = 1 } }) refl))
