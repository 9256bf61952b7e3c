-- ===== src/Cpu/Exec/Steady/Memory.antt =====
-- How the loads, stores and stack instructions of src/cpu.c end.
use tortoise.Base.{◌≡◌, ℕ}
use tortoise.Machine.{Machine}
use tortoise.Machine.Steady.{KeepsDepth}
use tortoise.Cpu.Stack.Steady.{calls}
use tortoise.Isa.{Opcode, op_ldb, op_ldbs, op_ldh, op_ldhs, op_ldw}
use tortoise.Cpu.Exec.Memory.{loaded}
use tortoise.Cpu.Exec.Memory.{
  exec_ld, exec_st, exec_leapc, exec_movsp, exec_setsp, exec_addsp, exec_push32, exec_pop32,
}

loaded-KeepsDepth :
    (op : Opcode) (eff : ℕ) (m : Machine) → m.depth ≡ 0 → KeepsDepth 0 (loaded op eff m)
unfolding loaded
loaded-KeepsDepth op_ldb eff m h = search calls
loaded-KeepsDepth op_ldbs eff m h = search calls
loaded-KeepsDepth op_ldh eff m h = search calls
loaded-KeepsDepth op_ldhs eff m h = search calls
loaded-KeepsDepth op_ldw eff m h = search calls
loaded-KeepsDepth _ eff m h = search calls

pub exec_ld-KeepsDepth : (a : Opcode) (m : Machine) → m.depth ≡ 0 → KeepsDepth 0 (exec_ld a m)
unfolding exec_ld
exec_ld-KeepsDepth a m h = search (calls, loaded-KeepsDepth) depth 30

pub exec_st-KeepsDepth : (a : Opcode) (m : Machine) → m.depth ≡ 0 → KeepsDepth 0 (exec_st a m)
unfolding exec_st
exec_st-KeepsDepth a m h = search calls depth 30

pub exec_leapc-KeepsDepth : (m : Machine) → m.depth ≡ 0 → KeepsDepth 0 (exec_leapc m)
unfolding exec_leapc
exec_leapc-KeepsDepth m h = search calls depth 30

pub exec_movsp-KeepsDepth : (m : Machine) → m.depth ≡ 0 → KeepsDepth 0 (exec_movsp m)
unfolding exec_movsp
exec_movsp-KeepsDepth m h = search calls depth 30

pub exec_setsp-KeepsDepth : (m : Machine) → m.depth ≡ 0 → KeepsDepth 0 (exec_setsp m)
unfolding exec_setsp
exec_setsp-KeepsDepth m h = search calls depth 30

pub exec_addsp-KeepsDepth : (m : Machine) → m.depth ≡ 0 → KeepsDepth 0 (exec_addsp m)
unfolding exec_addsp
exec_addsp-KeepsDepth m h = search calls depth 30

pub exec_push32-KeepsDepth : (m : Machine) → m.depth ≡ 0 → KeepsDepth 0 (exec_push32 m)
unfolding exec_push32
exec_push32-KeepsDepth m h = search calls depth 30

pub exec_pop32-KeepsDepth : (m : Machine) → m.depth ≡ 0 → KeepsDepth 0 (exec_pop32 m)
unfolding exec_pop32
exec_pop32-KeepsDepth m h = search calls depth 30
