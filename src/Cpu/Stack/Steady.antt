-- ===== src/Cpu/Stack/Steady.antt =====
-- How the helpers of the instructions of src/cpu.c end.
use tortoise.Base.{◌≡◌, ℕ, inr, refl, arith}
use tortoise.Mem.Phys.{ext_on}
use tortoise.Machine.{Machine}
use tortoise.Machine.Steady.{KeepsDepth, returns, leaves, if-KeepsDepth, sequencing}
use tortoise.Mem.Tlb.{cpu_flush_tlb, cpu_invlpg, flush_tlb}
use tortoise.Cpu.Fault.{cpu_set_flags}
use tortoise.Cpu.Fault.Steady.{
  cpu_fault-KeepsDepth, cpu_deliver-KeepsDepth, mem_read-KeepsDepth, mem_write-KeepsDepth,
}
use tortoise.Cpu.Stack.{
  fetch_byte, fetch_word, fetch_dword, push_word, pop_word, push32, pop32, cpu_interrupt,
  invalid_opcode, div_error, priv, trap, ext_iret, cr_write,
}

pub cpu_flush_tlb-KeepsDepth : (m : Machine) → m.depth ≡ 0 → KeepsDepth 0 (cpu_flush_tlb m)
unfolding cpu_flush_tlb flush_tlb
cpu_flush_tlb-KeepsDepth m h = returns (ground arith)

pub cpu_invlpg-KeepsDepth : (va : ℕ) (m : Machine) → m.depth ≡ 0 → KeepsDepth 0 (cpu_invlpg va m)
unfolding cpu_invlpg
cpu_invlpg-KeepsDepth va m h = returns h

pub cpu_set_flags-KeepsDepth :
    (f : ℕ) (m : Machine) → m.depth ≡ 0 → KeepsDepth 0 (cpu_set_flags f m)
unfolding cpu_set_flags
cpu_set_flags-KeepsDepth f m h = returns h

pub ruleset accesses = (
  sequencing, cpu_fault-KeepsDepth, cpu_deliver-KeepsDepth, mem_read-KeepsDepth,
  mem_write-KeepsDepth, cpu_flush_tlb-KeepsDepth, cpu_invlpg-KeepsDepth, cpu_set_flags-KeepsDepth,
)

pub fetch_byte-KeepsDepth : (m : Machine) → m.depth ≡ 0 → KeepsDepth 0 (fetch_byte m)
unfolding fetch_byte
fetch_byte-KeepsDepth m h = search accesses depth 30

pub fetch_word-KeepsDepth : (m : Machine) → m.depth ≡ 0 → KeepsDepth 0 (fetch_word m)
unfolding fetch_word
fetch_word-KeepsDepth m h = search accesses depth 30

pub fetch_dword-KeepsDepth : (m : Machine) → m.depth ≡ 0 → KeepsDepth 0 (fetch_dword m)
unfolding fetch_dword
fetch_dword-KeepsDepth m h = search accesses depth 30

pub push_word-KeepsDepth : (a : ℕ) (m : Machine) → m.depth ≡ 0 → KeepsDepth 0 (push_word a m)
unfolding push_word
push_word-KeepsDepth a m h = search accesses depth 30

pub pop_word-KeepsDepth : (m : Machine) → m.depth ≡ 0 → KeepsDepth 0 (pop_word m)
unfolding pop_word
pop_word-KeepsDepth m h = search accesses depth 30

pub push32-KeepsDepth : (a : ℕ) (m : Machine) → m.depth ≡ 0 → KeepsDepth 0 (push32 a m)
unfolding push32
push32-KeepsDepth a m h = search accesses depth 30

pub pop32-KeepsDepth : (m : Machine) → m.depth ≡ 0 → KeepsDepth 0 (pop32 m)
unfolding pop32
pop32-KeepsDepth m h = search accesses depth 30

pub cpu_interrupt-KeepsDepth :
    (a : ℕ) (m : Machine) → m.depth ≡ 0 → KeepsDepth 0 (cpu_interrupt a m)
unfolding cpu_interrupt
cpu_interrupt-KeepsDepth a m h = search (accesses, push_word-KeepsDepth) depth 30

pub invalid_opcode-KeepsDepth : (m : Machine) → m.depth ≡ 0 → KeepsDepth 0 (invalid_opcode m)
unfolding invalid_opcode
invalid_opcode-KeepsDepth m h =
    if-KeepsDepth (ext_on m) _ _ (cpu_fault-KeepsDepth 4 0 m h) (leaves (inr refl))

pub div_error-KeepsDepth : (m : Machine) → m.depth ≡ 0 → KeepsDepth 0 (div_error m)
unfolding div_error
div_error-KeepsDepth m h = search (accesses, cpu_interrupt-KeepsDepth) depth 30

pub priv-KeepsDepth : (m : Machine) → m.depth ≡ 0 → KeepsDepth 0 (priv m)
unfolding priv
priv-KeepsDepth m h = search accesses depth 30

pub trap-KeepsDepth : (a : ℕ) (m : Machine) → m.depth ≡ 0 → KeepsDepth 0 (trap a m)
unfolding trap
trap-KeepsDepth a m h = search (accesses, cpu_interrupt-KeepsDepth) depth 30

pub ext_iret-KeepsDepth : (m : Machine) → m.depth ≡ 0 → KeepsDepth 0 (ext_iret m)
unfolding ext_iret
ext_iret-KeepsDepth m h = search accesses depth 30

pub cr_write-KeepsDepth :
    (a : ℕ) (b : ℕ) (m : Machine) → m.depth ≡ 0 → KeepsDepth 0 (cr_write a b m)
unfolding cr_write
cr_write-KeepsDepth a b m h = search accesses depth 30

-- What an instruction calls.
pub ruleset calls = (
  accesses, fetch_byte-KeepsDepth, fetch_word-KeepsDepth, fetch_dword-KeepsDepth,
  push_word-KeepsDepth, pop_word-KeepsDepth, push32-KeepsDepth, pop32-KeepsDepth,
  cpu_interrupt-KeepsDepth, invalid_opcode-KeepsDepth, div_error-KeepsDepth, priv-KeepsDepth,
  trap-KeepsDepth, ext_iret-KeepsDepth, cr_write-KeepsDepth,
)
