-- ===== src/Cpu/Fault/Privilege.antt =====
-- Privilege in src/cpu.c: TLB entries that deny an access, privileged instructions, and POPF.
use tortoise.Base.{◌≡◌, arith, ℕ, ◌%◌, true, has_bit}
use tortoise.Machine.{user, Machine}
use tortoise.Isa.{Opcode, op_cli, op_sti, op_iret, op_in, op_out, op_halt, op_sysret}
use tortoise.Cpu.Fault.{cpu_get_flags}
use tortoise.Cpu.Exec.System.{popped_flags}

-- The instructions that a user program may not execute in extended mode.
pub data IsPrivileged : Opcode → Type 0 where
  cli : IsPrivileged op_cli
  sti : IsPrivileged op_sti
  iret : IsPrivileged op_iret
  in_port : IsPrivileged op_in
  out_port : IsPrivileged op_out
  halt : IsPrivileged op_halt
  sysret : IsPrivileged op_sysret

-- The flags that POPF loads in user mode keep the interrupt flag and the user flag as they are,
-- and take the four flags of the arithmetic from the stack.
pub popped_flags-user :
    (val : ℕ) (m : Machine)
    → m.mode ≡ user
    → (has_bit 4 (popped_flags val m) ≡ m.int_enabled)
      × (has_bit 5 (popped_flags val m) ≡ true)
      × (popped_flags val m % 16 ≡ val % 16)
unfolding cpu_get_flags
popped_flags-user val m e = rw e (ground arith)
