-- ===== src/Cpu/Exec/Steady/Imm16.antt =====
-- How the 16-bit instructions of src/cpu.c end.
use tortoise.Base.{◌≡◌, ℕ, Bool, Option, none, some}
use tortoise.Machine.{Machine}
use tortoise.Machine.Steady.{KeepsDepth, KeepsDepth-after}
use tortoise.Cpu.Stack.Steady.{calls}
use tortoise.Dev.Events.{legacy_in, legacy_out}
use tortoise.Dev.Depth.{legacy_in-depth, legacy_out-depth}
use tortoise.Cpu.Exec.Imm16.{
  exec_load, add16, cmp16, sub16, exec_add, exec_store, exec_jmp, exec_jz, exec_and, exec_or,
  exec_xor, exec_not, exec_call, exec_ret, set_input, exec_in, out_port, exec_out, exec_sub,
  exec_cmp, exec_jump_if, shl16, shr16, exec_shl, exec_shr, mul16, div16, exec_mul, exec_div,
}

legacy_in-KeepsDepth : (port : ℕ) (m : Machine) → m.depth ≡ 0 → KeepsDepth 0 (legacy_in port m)
legacy_in-KeepsDepth port m h = KeepsDepth-after 0 _ m h (legacy_in-depth port m)

legacy_out-KeepsDepth :
    (port v : ℕ) (m : Machine) → m.depth ≡ 0 → KeepsDepth 0 (legacy_out port v m)
legacy_out-KeepsDepth port v m h = KeepsDepth-after 0 _ m h (legacy_out-depth port v m)

pub exec_load-KeepsDepth : (m : Machine) → m.depth ≡ 0 → KeepsDepth 0 (exec_load m)
unfolding exec_load
exec_load-KeepsDepth m h = search calls depth 30

pub add16-KeepsDepth : (a : ℕ) (b : ℕ) (m : Machine) → m.depth ≡ 0 → KeepsDepth 0 (add16 a b m)
unfolding add16
add16-KeepsDepth a b m h = search calls depth 30

pub cmp16-KeepsDepth : (a : ℕ) (b : ℕ) (m : Machine) → m.depth ≡ 0 → KeepsDepth 0 (cmp16 a b m)
unfolding cmp16
cmp16-KeepsDepth a b m h = search calls depth 30

pub sub16-KeepsDepth : (a : ℕ) (b : ℕ) (m : Machine) → m.depth ≡ 0 → KeepsDepth 0 (sub16 a b m)
unfolding sub16
sub16-KeepsDepth a b m h = search calls depth 30

pub exec_add-KeepsDepth : (m : Machine) → m.depth ≡ 0 → KeepsDepth 0 (exec_add m)
unfolding exec_add
exec_add-KeepsDepth m h = search (calls, add16-KeepsDepth) depth 30

pub exec_store-KeepsDepth : (m : Machine) → m.depth ≡ 0 → KeepsDepth 0 (exec_store m)
unfolding exec_store
exec_store-KeepsDepth m h = search calls depth 30

pub exec_jmp-KeepsDepth : (m : Machine) → m.depth ≡ 0 → KeepsDepth 0 (exec_jmp m)
unfolding exec_jmp
exec_jmp-KeepsDepth m h = search calls depth 30

pub exec_jz-KeepsDepth : (m : Machine) → m.depth ≡ 0 → KeepsDepth 0 (exec_jz m)
unfolding exec_jz
exec_jz-KeepsDepth m h = search calls depth 30

pub exec_and-KeepsDepth : (m : Machine) → m.depth ≡ 0 → KeepsDepth 0 (exec_and m)
unfolding exec_and
exec_and-KeepsDepth m h = search calls depth 30

pub exec_or-KeepsDepth : (m : Machine) → m.depth ≡ 0 → KeepsDepth 0 (exec_or m)
unfolding exec_or
exec_or-KeepsDepth m h = search calls depth 30

pub exec_xor-KeepsDepth : (m : Machine) → m.depth ≡ 0 → KeepsDepth 0 (exec_xor m)
unfolding exec_xor
exec_xor-KeepsDepth m h = search calls depth 30

pub exec_not-KeepsDepth : (m : Machine) → m.depth ≡ 0 → KeepsDepth 0 (exec_not m)
unfolding exec_not
exec_not-KeepsDepth m h = search calls depth 30

pub exec_call-KeepsDepth : (m : Machine) → m.depth ≡ 0 → KeepsDepth 0 (exec_call m)
unfolding exec_call
exec_call-KeepsDepth m h = search calls depth 30

pub exec_ret-KeepsDepth : (m : Machine) → m.depth ≡ 0 → KeepsDepth 0 (exec_ret m)
unfolding exec_ret
exec_ret-KeepsDepth m h = search calls depth 30

set_input-KeepsDepth :
    (reg : ℕ) (v : Option ℕ) (m : Machine) → m.depth ≡ 0 → KeepsDepth 0 (set_input reg v m)
unfolding set_input
set_input-KeepsDepth reg none m h = search calls
set_input-KeepsDepth reg (some v) m h = search calls

pub exec_in-KeepsDepth : (m : Machine) → m.depth ≡ 0 → KeepsDepth 0 (exec_in m)
unfolding exec_in
exec_in-KeepsDepth m h = search (calls, set_input-KeepsDepth, legacy_in-KeepsDepth) depth 30

pub out_port-KeepsDepth :
    (a : ℕ) (b : ℕ) (m : Machine) → m.depth ≡ 0 → KeepsDepth 0 (out_port a b m)
unfolding out_port
out_port-KeepsDepth a b m h = search (calls, legacy_out-KeepsDepth) depth 30

pub exec_out-KeepsDepth : (m : Machine) → m.depth ≡ 0 → KeepsDepth 0 (exec_out m)
unfolding exec_out
exec_out-KeepsDepth m h = search (calls, legacy_out-KeepsDepth) depth 30

pub exec_sub-KeepsDepth : (m : Machine) → m.depth ≡ 0 → KeepsDepth 0 (exec_sub m)
unfolding exec_sub
exec_sub-KeepsDepth m h = search (calls, sub16-KeepsDepth) depth 30

pub exec_cmp-KeepsDepth : (m : Machine) → m.depth ≡ 0 → KeepsDepth 0 (exec_cmp m)
unfolding exec_cmp
exec_cmp-KeepsDepth m h = search (calls, cmp16-KeepsDepth) depth 30

pub exec_jump_if-KeepsDepth :
    (a : ℕ → Bool) (m : Machine) → m.depth ≡ 0 → KeepsDepth 0 (exec_jump_if a m)
unfolding exec_jump_if
exec_jump_if-KeepsDepth a m h = search calls depth 30

pub shl16-KeepsDepth : (a : ℕ) (b : ℕ) (m : Machine) → m.depth ≡ 0 → KeepsDepth 0 (shl16 a b m)
unfolding shl16
shl16-KeepsDepth a b m h = search calls depth 30

pub shr16-KeepsDepth : (a : ℕ) (b : ℕ) (m : Machine) → m.depth ≡ 0 → KeepsDepth 0 (shr16 a b m)
unfolding shr16
shr16-KeepsDepth a b m h = search calls depth 30

pub exec_shl-KeepsDepth : (m : Machine) → m.depth ≡ 0 → KeepsDepth 0 (exec_shl m)
unfolding exec_shl
exec_shl-KeepsDepth m h = search (calls, shl16-KeepsDepth) depth 30

pub exec_shr-KeepsDepth : (m : Machine) → m.depth ≡ 0 → KeepsDepth 0 (exec_shr m)
unfolding exec_shr
exec_shr-KeepsDepth m h = search (calls, shr16-KeepsDepth) depth 30

pub mul16-KeepsDepth : (a : ℕ) (b : ℕ) (m : Machine) → m.depth ≡ 0 → KeepsDepth 0 (mul16 a b m)
unfolding mul16
mul16-KeepsDepth a b m h = search calls depth 30

pub div16-KeepsDepth : (a : ℕ) (b : ℕ) (m : Machine) → m.depth ≡ 0 → KeepsDepth 0 (div16 a b m)
unfolding div16
div16-KeepsDepth a b m h = search calls depth 30

pub exec_mul-KeepsDepth : (m : Machine) → m.depth ≡ 0 → KeepsDepth 0 (exec_mul m)
unfolding exec_mul
exec_mul-KeepsDepth m h = search (calls, mul16-KeepsDepth) depth 30

pub exec_div-KeepsDepth : (m : Machine) → m.depth ≡ 0 → KeepsDepth 0 (exec_div m)
unfolding exec_div
exec_div-KeepsDepth m h = search (calls, div16-KeepsDepth) depth 30
