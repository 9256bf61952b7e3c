-- ===== src/Cpu/Exec/Steady/Control.antt =====
-- How the jumps, calls, traps and returns of src/cpu.c end.
use tortoise.Base.{◌≡◌}
use tortoise.Machine.{Machine}
use tortoise.Machine.Steady.{KeepsDepth}
use tortoise.Cpu.Stack.Steady.{calls}
use tortoise.Alu.{Cond}
use tortoise.Cpu.Exec.Control.{
  exec_int, legacy_iret, exec_iret, legacy_syscall, exec_syscall, legacy_sysret, exec_sysret,
  exec_jmpr, exec_callr, exec_jmprel, exec_callrel, exec_branch, exec_jmp32, exec_call32,
  exec_ret32,
}

pub exec_int-KeepsDepth : (m : Machine) → m.depth ≡ 0 → KeepsDepth 0 (exec_int m)
unfolding exec_int
exec_int-KeepsDepth m h = search calls depth 30

pub legacy_iret-KeepsDepth : (m : Machine) → m.depth ≡ 0 → KeepsDepth 0 (legacy_iret m)
unfolding legacy_iret
legacy_iret-KeepsDepth m h = search calls depth 30

pub exec_iret-KeepsDepth : (m : Machine) → m.depth ≡ 0 → KeepsDepth 0 (exec_iret m)
unfolding exec_iret
exec_iret-KeepsDepth m h = search (calls, legacy_iret-KeepsDepth) depth 30

pub legacy_syscall-KeepsDepth : (m : Machine) → m.depth ≡ 0 → KeepsDepth 0 (legacy_syscall m)
unfolding legacy_syscall
legacy_syscall-KeepsDepth m h = search calls depth 30

pub exec_syscall-KeepsDepth : (m : Machine) → m.depth ≡ 0 → KeepsDepth 0 (exec_syscall m)
unfolding exec_syscall
exec_syscall-KeepsDepth m h = search (calls, legacy_syscall-KeepsDepth) depth 30

pub legacy_sysret-KeepsDepth : (m : Machine) → m.depth ≡ 0 → KeepsDepth 0 (legacy_sysret m)
unfolding legacy_sysret
legacy_sysret-KeepsDepth m h = search calls depth 30

pub exec_sysret-KeepsDepth : (m : Machine) → m.depth ≡ 0 → KeepsDepth 0 (exec_sysret m)
unfolding exec_sysret
exec_sysret-KeepsDepth m h = search (calls, legacy_sysret-KeepsDepth) depth 30

pub exec_jmpr-KeepsDepth : (m : Machine) → m.depth ≡ 0 → KeepsDepth 0 (exec_jmpr m)
unfolding exec_jmpr
exec_jmpr-KeepsDepth m h = search calls depth 30

pub exec_callr-KeepsDepth : (m : Machine) → m.depth ≡ 0 → KeepsDepth 0 (exec_callr m)
unfolding exec_callr
exec_callr-KeepsDepth m h = search calls depth 30

pub exec_jmprel-KeepsDepth : (m : Machine) → m.depth ≡ 0 → KeepsDepth 0 (exec_jmprel m)
unfolding exec_jmprel
exec_jmprel-KeepsDepth m h = search calls depth 30

pub exec_callrel-KeepsDepth : (m : Machine) → m.depth ≡ 0 → KeepsDepth 0 (exec_callrel m)
unfolding exec_callrel
exec_callrel-KeepsDepth m h = search calls depth 30

pub exec_branch-KeepsDepth : (a : Cond) (m : Machine) → m.depth ≡ 0 → KeepsDepth 0 (exec_branch a m)
unfolding exec_branch
exec_branch-KeepsDepth a m h = search calls depth 30

pub exec_jmp32-KeepsDepth : (m : Machine) → m.depth ≡ 0 → KeepsDepth 0 (exec_jmp32 m)
unfolding exec_jmp32
exec_jmp32-KeepsDepth m h = search calls depth 30

pub exec_call32-KeepsDepth : (m : Machine) → m.depth ≡ 0 → KeepsDepth 0 (exec_call32 m)
unfolding exec_call32
exec_call32-KeepsDepth m h = search calls depth 30

pub exec_ret32-KeepsDepth : (m : Machine) → m.depth ≡ 0 → KeepsDepth 0 (exec_ret32 m)
unfolding exec_ret32
exec_ret32-KeepsDepth m h = search calls depth 30
