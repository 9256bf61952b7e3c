-- ===== src/Cpu/Exec/Steady/Pair16.antt =====
-- How the 16-bit instructions on register pairs, and the indirect ones, of src/cpu.c end.
use tortoise.Base.{◌≡◌, ℕ}
use tortoise.Machine.{Machine}
use tortoise.Machine.Steady.{KeepsDepth}
use tortoise.Cpu.Stack.Steady.{calls}
use tortoise.Cpu.Exec.Steady.Imm16.{
  add16-KeepsDepth, sub16-KeepsDepth, cmp16-KeepsDepth, mul16-KeepsDepth, div16-KeepsDepth,
}
use tortoise.Cpu.Exec.Pair16.{
  exec_mov, exec_add_reg, exec_sub_reg, exec_cmp_reg, exec_and_reg, exec_or_reg, exec_xor_reg,
  exec_mul_reg, exec_div_reg, exec_push, exec_pop,
}
use tortoise.Cpu.Exec.Indirect.{exec_load_indir, exec_store_indir}

pub exec_mov-KeepsDepth : (m : Machine) → m.depth ≡ 0 → KeepsDepth 0 (exec_mov m)
unfolding exec_mov
exec_mov-KeepsDepth m h = search calls depth 30

pub exec_add_reg-KeepsDepth : (m : Machine) → m.depth ≡ 0 → KeepsDepth 0 (exec_add_reg m)
unfolding exec_add_reg
exec_add_reg-KeepsDepth m h = search (calls, add16-KeepsDepth) depth 30

pub exec_sub_reg-KeepsDepth : (m : Machine) → m.depth ≡ 0 → KeepsDepth 0 (exec_sub_reg m)
unfolding exec_sub_reg
exec_sub_reg-KeepsDepth m h = search (calls, sub16-KeepsDepth) depth 30

pub exec_cmp_reg-KeepsDepth : (m : Machine) → m.depth ≡ 0 → KeepsDepth 0 (exec_cmp_reg m)
unfolding exec_cmp_reg
exec_cmp_reg-KeepsDepth m h = search (calls, cmp16-KeepsDepth) depth 30

pub exec_and_reg-KeepsDepth : (m : Machine) → m.depth ≡ 0 → KeepsDepth 0 (exec_and_reg m)
unfolding exec_and_reg
exec_and_reg-KeepsDepth m h = search calls depth 30

pub exec_or_reg-KeepsDepth : (m : Machine) → m.depth ≡ 0 → KeepsDepth 0 (exec_or_reg m)
unfolding exec_or_reg
exec_or_reg-KeepsDepth m h = search calls depth 30

pub exec_xor_reg-KeepsDepth : (m : Machine) → m.depth ≡ 0 → KeepsDepth 0 (exec_xor_reg m)
unfolding exec_xor_reg
exec_xor_reg-KeepsDepth m h = search calls depth 30

pub exec_mul_reg-KeepsDepth : (m : Machine) → m.depth ≡ 0 → KeepsDepth 0 (exec_mul_reg m)
unfolding exec_mul_reg
exec_mul_reg-KeepsDepth m h = search (calls, mul16-KeepsDepth) depth 30

pub exec_div_reg-KeepsDepth : (m : Machine) → m.depth ≡ 0 → KeepsDepth 0 (exec_div_reg m)
unfolding exec_div_reg
exec_div_reg-KeepsDepth m h = search (calls, div16-KeepsDepth) depth 30

pub exec_push-KeepsDepth : (m : Machine) → m.depth ≡ 0 → KeepsDepth 0 (exec_push m)
unfolding exec_push
exec_push-KeepsDepth m h = search calls depth 30

pub exec_pop-KeepsDepth : (m : Machine) → m.depth ≡ 0 → KeepsDepth 0 (exec_pop m)
unfolding exec_pop
exec_pop-KeepsDepth m h = search calls depth 30

pub exec_load_indir-KeepsDepth :
    (a : ℕ) (m : Machine) → m.depth ≡ 0 → KeepsDepth 0 (exec_load_indir a m)
unfolding exec_load_indir
exec_load_indir-KeepsDepth a m h = search calls depth 30

pub exec_store_indir-KeepsDepth :
    (a : ℕ) (m : Machine) → m.depth ≡ 0 → KeepsDepth 0 (exec_store_indir a m)
unfolding exec_store_indir
exec_store_indir-KeepsDepth a m h = search calls depth 30
