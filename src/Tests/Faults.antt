-- ===== src/Tests/Faults.antt =====
-- The theorems on exceptions, privilege and the network ring, at concrete inputs.
use tortoise.Base.{
  ◌-◌, ◌^◌, ℕ, ◌⊎◌, ◌≡◌, ◌<◌, refl, arith, ◌%◌, true, none, some, [], ◌∷◌, has_bit, update,
}
use tortoise.Machine.{user, Cpu, TlbEnt, null, Machine}
use tortoise.Machine.Monad.{ok}
use tortoise.Machine.Steady.{KeepsDepth}
use tortoise.Alu.{Result, alu_div}
use tortoise.Alu.Signed.{alu_div-signed}
use tortoise.Base.Int.{negsuc, ◌+ℤ◌, ◌*ℤ◌, magnitude, is_neg, signed32}
use tortoise.Isa.Decode.{opcode_at}
use tortoise.Dev.Net.{receive}
use tortoise.Dev.Net.Ring.{returns_in_ring, receive-in_ring}
use tortoise.Mem.Tlb.{fetch_inval, pte_denied}
use tortoise.Cpu.Fault.{cpu_fault, cpu_get_flags, cpu_set_flags}
use tortoise.Cpu.Fault.Steady.{Raises, cpu_fault-Raises}
use tortoise.Cpu.Fault.Privilege.{popped_flags-user}
use tortoise.Cpu.Fault.Flags.{cpu_set_flags-cpu_get_flags}
use tortoise.Cpu.Step.{next_entry}
use tortoise.Cpu.Fetch.Window.{with_window, next_entry-window}
use tortoise.Dcache.Coherence.{entry_at}
use tortoise.Cpu.Exec.System.{popped_flags}
use tortoise.Cpu.Exec.Switch.{execute_instruction}
use tortoise.Cpu.Exec.Steady.Switch.{execute_instruction-KeepsDepth}
use tortoise.Cpu.Init.{reset_cpu}
use tortoise.Tests.Machines.{blank, add_program}

-- A user program in extended mode with paging, about to execute HALT.
abbrev user_cpu : Cpu
user_cpu = record (reset_cpu 65536) {
  mode = user;
  cr = update (λ _. 0) 0 5;
  int_enabled = true;
  flags = 6;
}

abbrev user_machine : Machine
user_machine = record blank { cpu = user_cpu; ib = 0xFF ∷ [] }

-- A page that is present and writable, but not for user programs.
abbrev kernel_entry : TlbEnt
kernel_entry = record { gen = 1; pte = 0x4003; pte_pa = 0x2000 }

-- A page fault while an exception is delivered.
cpu_fault_example :
    Raises (cpu_fault 14 6 (record user_machine { cpu = record user_cpu { depth = 1 } }))
cpu_fault_example =
    cpu_fault-Raises 14 6 (record user_machine { cpu = record user_cpu { depth = 1 } })
      (omega arith)

-- The first instruction of the program, LOAD32.
abbrev at_load : Machine
at_load = record blank { memory = add_program; ib = 0x20 ∷ 0 ∷ 5 ∷ 0 ∷ 0 ∷ 0 ∷ [] }

execute_example : KeepsDepth 0 (execute_instruction at_load)
unfolding opcode_at reset_cpu
execute_example = execute_instruction-KeepsDepth at_load (ground arith) refl

popped_flags_example :
    (has_bit 4 (popped_flags 0 user_machine) ≡ user_machine.int_enabled)
    × (has_bit 5 (popped_flags 0 user_machine) ≡ true)
    × (popped_flags 0 user_machine % 16 ≡ 0 % 16)
popped_flags_example = popped_flags-user 0 user_machine refl

flags_example :
    cpu_set_flags (cpu_get_flags user_machine) user_machine ≡ ok tt (fetch_inval user_machine)
flags_example = cpu_set_flags-cpu_get_flags user_machine (omega arith)

-- A frame of 60 bytes finds the ring full.
abbrev full_ring : Machine
full_ring = record blank { net = record blank.net { ctrl = 9; qh = 63; qn = 64 } }

receive_example : returns_in_ring (receive (record { len = 60; d = λ _. 0xFF }) full_ring) ≡ true
receive_example = receive-in_ring (record { len = 60; d = λ _. 0xFF }) full_ring refl

-- The program in memory, and no window.
abbrev at_start : Machine
at_start = record blank { memory = add_program; f_tag = 1; f_ptr = null }

next_entry-window_example :
    next_entry 0x100 at_start ≡ ok (entry_at add_program 0x100) (with_window 0x100 0x100 at_start)
unfolding tortoise.Mem.Tlb.translate reset_cpu
next_entry-window_example =
    next_entry-window at_start 0x100 0x100 (omega arith) (omega arith) (λ e. omega (arith, e)) refl
      refl (omega arith)

-- -7 by 2.
alu_div-signed_example :
    ((◌≡◌ {A = ℕ} 2 0 ⊎ ((signed32 0xFFFF_FFF9 ≡ negsuc (2 ^ 31 - 1)) × (signed32 2 ≡ negsuc 0)))
      × (alu_div 0 0 0xFFFF_FFF9 2 ≡ none)
      × (alu_div 0 2 0xFFFF_FFF9 2 ≡ none))
    ⊎ ((q r : Result) × (alu_div 0 0 0xFFFF_FFF9 2 ≡ some q)
        × (alu_div 0 2 0xFFFF_FFF9 2 ≡ some r)
        × (signed32 q.value *ℤ signed32 2 +ℤ signed32 r.value ≡ signed32 0xFFFF_FFF9)
        × (magnitude (signed32 r.value) < magnitude (signed32 2))
        × ((r.value ≡ 0) ⊎ (is_neg (signed32 r.value) ≡ is_neg (signed32 0xFFFF_FFF9))))
alu_div-signed_example = alu_div-signed 0 0xFFFF_FFF9 2 (omega arith) (omega arith)
