-- ===== src/Cpu/Exec/Steady/Alu32.antt =====
-- How the 32-bit arithmetic instructions of src/cpu.c end.
use tortoise.Base.{◌≡◌, ℕ}
use tortoise.Machine.{Machine}
use tortoise.Machine.Steady.{KeepsDepth}
use tortoise.Cpu.Stack.Steady.{calls}
use tortoise.Isa.{Opcode}
use tortoise.Cpu.Exec.Alu32.{Arm, writes, tests, div_fails}
use tortoise.Cpu.Exec.Alu32.{finish, exec_pair, exec_neg, exec_imm}

finish-KeepsDepth :
    (dst : ℕ) (arm : Arm) (m : Machine) → m.depth ≡ 0 → KeepsDepth 0 (finish dst arm m)
unfolding finish
finish-KeepsDepth dst (writes r) m h = search calls
finish-KeepsDepth dst (tests flags) m h = search calls
finish-KeepsDepth dst div_fails m h = search calls

pub exec_pair-KeepsDepth : (a : Opcode) (m : Machine) → m.depth ≡ 0 → KeepsDepth 0 (exec_pair a m)
unfolding exec_pair
exec_pair-KeepsDepth a m h = search (calls, finish-KeepsDepth) depth 30

pub exec_neg-KeepsDepth : (m : Machine) → m.depth ≡ 0 → KeepsDepth 0 (exec_neg m)
unfolding exec_neg
exec_neg-KeepsDepth m h = search (calls, finish-KeepsDepth) depth 30

pub exec_imm-KeepsDepth : (a : Opcode) (m : Machine) → m.depth ≡ 0 → KeepsDepth 0 (exec_imm a m)
unfolding exec_imm
exec_imm-KeepsDepth a m h = search (calls, finish-KeepsDepth) depth 30
