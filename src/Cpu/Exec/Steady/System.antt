-- ===== src/Cpu/Exec/Steady/System.antt =====
-- How the system instructions other than WFI of src/cpu.c end.
use tortoise.Base.{◌≡◌, Bool}
use tortoise.Machine.{Machine}
use tortoise.Machine.Steady.{KeepsDepth}
use tortoise.Cpu.Stack.Steady.{calls}
use tortoise.Cpu.Exec.System.{
  exec_set_int, exec_mfcr, exec_mtcr, exec_tlbflush, exec_invlpg, exec_cpuid, exec_pushf, exec_popf,
  exec_rdcyc, exec_halt,
}

pub exec_set_int-KeepsDepth :
    (a : Bool) (m : Machine) → m.depth ≡ 0 → KeepsDepth 0 (exec_set_int a m)
unfolding exec_set_int
exec_set_int-KeepsDepth a m h = search calls depth 30

pub exec_mfcr-KeepsDepth : (m : Machine) → m.depth ≡ 0 → KeepsDepth 0 (exec_mfcr m)
unfolding exec_mfcr
exec_mfcr-KeepsDepth m h = search calls depth 30

pub exec_mtcr-KeepsDepth : (m : Machine) → m.depth ≡ 0 → KeepsDepth 0 (exec_mtcr m)
unfolding exec_mtcr
exec_mtcr-KeepsDepth m h = search calls depth 30

pub exec_tlbflush-KeepsDepth : (m : Machine) → m.depth ≡ 0 → KeepsDepth 0 (exec_tlbflush m)
unfolding exec_tlbflush
exec_tlbflush-KeepsDepth m h = search calls depth 30

pub exec_invlpg-KeepsDepth : (m : Machine) → m.depth ≡ 0 → KeepsDepth 0 (exec_invlpg m)
unfolding exec_invlpg
exec_invlpg-KeepsDepth m h = search calls depth 30

pub exec_cpuid-KeepsDepth : (m : Machine) → m.depth ≡ 0 → KeepsDepth 0 (exec_cpuid m)
unfolding exec_cpuid
exec_cpuid-KeepsDepth m h = search calls depth 30

pub exec_pushf-KeepsDepth : (m : Machine) → m.depth ≡ 0 → KeepsDepth 0 (exec_pushf m)
unfolding exec_pushf
exec_pushf-KeepsDepth m h = search calls depth 30

pub exec_popf-KeepsDepth : (m : Machine) → m.depth ≡ 0 → KeepsDepth 0 (exec_popf m)
unfolding exec_popf
exec_popf-KeepsDepth m h = search calls depth 30

pub exec_rdcyc-KeepsDepth : (m : Machine) → m.depth ≡ 0 → KeepsDepth 0 (exec_rdcyc m)
unfolding exec_rdcyc
exec_rdcyc-KeepsDepth m h = search calls depth 30

pub exec_halt-KeepsDepth : (m : Machine) → m.depth ≡ 0 → KeepsDepth 0 (exec_halt m)
unfolding exec_halt
exec_halt-KeepsDepth m h = search calls depth 30
