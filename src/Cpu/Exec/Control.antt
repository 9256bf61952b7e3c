-- ===== src/Cpu/Exec/Control.antt =====
-- The cases of the switch that transfer control: INT, IRET, SYSCALL, SYSRET, and the 32-bit jumps,
-- calls, branches and returns.
use tortoise.Base.{ℕ, ◌/◌, ◌%◌, true, ◌&&◌, ◌||◌, ltb, leb, ◌!=◌, if◌then◌else◌, add32}
use tortoise.Machine.{supervisor, user}
use tortoise.Machine.Monad.{M, Void, ◌>>=◌, ◌>>◌, when, get, modify_cpu, set_pc, reg_of}
use tortoise.Alu.{Cond, cond}
use tortoise.Mem.Phys.{ext_on}
use tortoise.Mem.Virtual.{is_user}
use tortoise.Cpu.Fault.{cpu_fault, cpu_deliver, mem_read}
use tortoise.Cpu.Stack.{
  fetch_byte, fetch_dword, pop_word, push32, pop32, cpu_interrupt, invalid_opcode, ext_iret,
}

-- A program may raise the vectors 48 to 63 only.
unfoldable pub exec_int : M Void
exec_int = do
  val ← fetch_byte
  ext ← get ext_on
  if ext
      then (do
        from_user ← get (λ m. is_user m.mode)
        when (leb 64 val || from_user && ltb val 48) (cpu_fault 13 0)
        pc ← get (λ m. m.pc)
        cpu_deliver val pc 0)
      else cpu_interrupt val

unfoldable pub legacy_iret : M Void
legacy_iret = do
  addr ← pop_word
  flags ← pop_word
  modify_cpu (λ c. record c { flags = flags % 256; int_enabled = true; pc = addr })

unfoldable pub exec_iret : M Void
unfolding legacy_iret
exec_iret = do ext ← get ext_on; if ext then ext_iret else legacy_iret

unfoldable pub legacy_syscall : M Void
legacy_syscall = do
  modify_cpu (λ c. record c { mode = supervisor; syscall_pc = c.pc })
  addr ← mem_read 0x0180 2
  set_pc addr

unfoldable pub exec_syscall : M Void
unfolding legacy_syscall
exec_syscall m = if ext_on m then cpu_deliver 48 m.pc 0 m else legacy_syscall m

unfoldable pub legacy_sysret : M Void
legacy_sysret = modify_cpu (λ c. record c {
  mode = user;
  pc = (if c.syscall_pc != 0 then c.syscall_pc else c.pc);
  syscall_pc = 0;
})

unfoldable pub exec_sysret : M Void
unfolding legacy_sysret
exec_sysret = do ext ← get ext_on; if ext then ext_iret else legacy_sysret

-- `src = pair & 15; if (src > 7) invalid_opcode(opcode);`, which does not return.
abbrev pub source_reg : M ℕ
source_reg = do pair ← fetch_byte; when (ltb 7 (pair % 16)) invalid_opcode; get (λ _. pair % 16)

abbrev pub dest_reg : M ℕ
dest_reg = do pair ← fetch_byte; when (ltb 7 (pair / 16)) invalid_opcode; get (λ _. pair / 16)

unfoldable pub exec_jmpr : M Void
exec_jmpr = do src ← source_reg; v ← reg_of src; set_pc v

unfoldable pub exec_callr : M Void
exec_callr = do src ← source_reg; v ← reg_of src; pc ← get (λ m. m.pc); push32 pc; set_pc v

-- A byte that is not read, and the doubleword operand.
abbrev far_operand : M ℕ
far_operand = do unused ← fetch_byte; fetch_dword

abbrev jump_by : ℕ → M Void
jump_by rel = modify_cpu (λ c. record c { pc = add32 c.pc rel })

unfoldable pub exec_jmprel : M Void
exec_jmprel = do rel ← far_operand; jump_by rel

unfoldable pub exec_callrel : M Void
exec_callrel = do rel ← far_operand; pc ← get (λ m. m.pc); push32 pc; jump_by rel

unfoldable pub exec_branch : Cond → M Void
exec_branch op = do
  rel ← far_operand
  flags ← get (λ m. m.flags)
  when (cond flags op) (jump_by rel)

unfoldable pub exec_jmp32 : M Void
exec_jmp32 = do addr ← far_operand; set_pc addr

unfoldable pub exec_call32 : M Void
exec_call32 = do addr ← far_operand; pc ← get (λ m. m.pc); push32 pc; set_pc addr

unfoldable pub exec_ret32 : M Void
exec_ret32 = do v ← pop32; set_pc v
