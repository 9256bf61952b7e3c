-- ===== src/Cpu/Exec/Steady/Imm32.antt =====
-- How the 32-bit instructions with a doubleword of src/cpu.c end.
use tortoise.Base.{◌≡◌, ℕ}
use tortoise.Machine.{Machine}
use tortoise.Machine.Steady.{KeepsDepth}
use tortoise.Cpu.Stack.Steady.{calls}
use tortoise.Cpu.Exec.Imm32.{
  exec_load32, exec_store32, exec_add32, exec_sub32, exec_mul32, div32, exec_div32, exec_shl32,
  exec_shr32, exec_and32, exec_or32, exec_xor32, exec_cmp32,
}

pub exec_load32-KeepsDepth : (m : Machine) → m.depth ≡ 0 → KeepsDepth 0 (exec_load32 m)
unfolding exec_load32
exec_load32-KeepsDepth m h = search calls depth 30

pub exec_store32-KeepsDepth : (m : Machine) → m.depth ≡ 0 → KeepsDepth 0 (exec_store32 m)
unfolding exec_store32
exec_store32-KeepsDepth m h = search calls depth 30

pub exec_add32-KeepsDepth : (m : Machine) → m.depth ≡ 0 → KeepsDepth 0 (exec_add32 m)
unfolding exec_add32
exec_add32-KeepsDepth m h = search calls depth 30

pub exec_sub32-KeepsDepth : (m : Machine) → m.depth ≡ 0 → KeepsDepth 0 (exec_sub32 m)
unfolding exec_sub32
exec_sub32-KeepsDepth m h = search calls depth 30

pub exec_mul32-KeepsDepth : (m : Machine) → m.depth ≡ 0 → KeepsDepth 0 (exec_mul32 m)
unfolding exec_mul32
exec_mul32-KeepsDepth m h = search calls depth 30

pub div32-KeepsDepth : (a : ℕ) (b : ℕ) (m : Machine) → m.depth ≡ 0 → KeepsDepth 0 (div32 a b m)
unfolding div32
div32-KeepsDepth a b m h = search calls depth 30

pub exec_div32-KeepsDepth : (m : Machine) → m.depth ≡ 0 → KeepsDepth 0 (exec_div32 m)
unfolding exec_div32
exec_div32-KeepsDepth m h = search (calls, div32-KeepsDepth) depth 30

pub exec_shl32-KeepsDepth : (m : Machine) → m.depth ≡ 0 → KeepsDepth 0 (exec_shl32 m)
unfolding exec_shl32
exec_shl32-KeepsDepth m h = search calls depth 30

pub exec_shr32-KeepsDepth : (m : Machine) → m.depth ≡ 0 → KeepsDepth 0 (exec_shr32 m)
unfolding exec_shr32
exec_shr32-KeepsDepth m h = search calls depth 30

pub exec_and32-KeepsDepth : (m : Machine) → m.depth ≡ 0 → KeepsDepth 0 (exec_and32 m)
unfolding exec_and32
exec_and32-KeepsDepth m h = search calls depth 30

pub exec_or32-KeepsDepth : (m : Machine) → m.depth ≡ 0 → KeepsDepth 0 (exec_or32 m)
unfolding exec_or32
exec_or32-KeepsDepth m h = search calls depth 30

pub exec_xor32-KeepsDepth : (m : Machine) → m.depth ≡ 0 → KeepsDepth 0 (exec_xor32 m)
unfolding exec_xor32
exec_xor32-KeepsDepth m h = search calls depth 30

pub exec_cmp32-KeepsDepth : (m : Machine) → m.depth ≡ 0 → KeepsDepth 0 (exec_cmp32 m)
unfolding exec_cmp32
exec_cmp32-KeepsDepth m h = search calls depth 30
