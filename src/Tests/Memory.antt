-- ===== src/Tests/Memory.antt =====
-- The theorems on the TLB, the interrupt lines and the memory, at concrete inputs.
use tortoise.Base.{◌≡◌, ◌≢◌, refl, arith, ℕ, ◌+◌, ◌*◌, ◌%◌, ◌^◌, ◌<◌, inr, inl}
use tortoise.Machine.{Machine}
use tortoise.Machine.Monad.{ok}
use tortoise.Mem.Phys.{write_ram}
use tortoise.Mem.Tlb.{flush_tlb}
use tortoise.Mem.Tlb.Flush.{IsDated, flush_tlb-IsDated}
use tortoise.Cpu.Fault.{mem_read, mem_write}
use tortoise.Cpu.Fault.Memory.{mem_read-mem_write}
use tortoise.Cpu.Step.{lowest_line}
use tortoise.Cpu.Step.Lines.{IsLowest, lowest_line_lem}
use tortoise.Tests.Machines.{blank, add_program}

-- The generation is about to wrap.
abbrev last_generation : Machine
last_generation = record blank {
  tlb = λ _. record { gen = 0xFFFF_FFFF; pte = 7; pte_pa = 0 };
  tlb_gen = 0xFFFF_FFFF;
}

flush_tlb_example :
    ((page : ℕ) → ((flush_tlb last_generation).tlb page).gen ≢ (flush_tlb last_generation).tlb_gen)
    × IsDated (flush_tlb last_generation)
flush_tlb_example =
    flush_tlb-IsDated last_generation (record { past = λ page. omega arith; small = omega arith })

lowest_line_example : (k : ℕ) × (lowest_line 32 0x28 0 ≡ 0 + k) × (k < 32) × IsLowest 0x28 k
lowest_line_example = lowest_line_lem 32 0x28 0 (omega arith) (omega arith)

abbrev with_program : Machine
with_program = record blank { memory = add_program }

mem_read-mem_write_example :
    (mem_write 0x101 0x12345678 2 with_program ≡ ok tt (write_ram 0x101 0x12345678 2 with_program))
    × (mem_read 0x101 2 (write_ram 0x101 0x12345678 2 with_program)
        ≡ ok (0x12345678 % 2 ^ (8 * 2)) (write_ram 0x101 0x12345678 2 with_program))
unfolding tortoise.Cpu.Init.reset_cpu
mem_read-mem_write_example =
    mem_read-mem_write with_program 0x101 0x12345678 2 (inr (inl refl)) refl refl
