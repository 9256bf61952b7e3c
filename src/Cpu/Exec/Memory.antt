-- ===== src/Cpu/Exec/Memory.antt =====
-- The cases LDB to ADDSP of the switch: memory operands with a 32-bit displacement from a register
-- or the stack pointer, and the instructions on the stack pointer.
use tortoise.Base.{ℕ, ◌/◌, ◌%◌, ◌||◌, ltb, ◌==◌, if◌then◌else◌, add32, sext8, sext16}
use tortoise.Machine.Monad.{
  M, Void, ok, ◌>>=◌, ◌>>◌, when, get, modify_cpu, set_sp, set_reg, reg_of,
}
use tortoise.Isa.{Opcode, op_ldb, op_ldbs, op_ldh, op_ldhs, op_ldw, op_stb, op_sth}
use tortoise.Cpu.Fault.{mem_read, mem_write}
use tortoise.Cpu.Stack.{fetch_byte, fetch_dword, push32, pop32, invalid_opcode}
use tortoise.Cpu.Exec.Control.{source_reg, dest_reg}

-- Register 8 of a memory operand is the stack pointer.
abbrev pub base_of : ℕ → M ℕ
base_of r m = ok (if r == 8 then m.sp else m.registers r) m

-- What the inner switch over LDB to LEA loads from `eff`; its `default` is LEA.
unfoldable pub loaded : Opcode → ℕ → M ℕ
loaded op_ldb eff = mem_read eff 1
loaded op_ldbs eff = do v ← mem_read eff 1; get (λ _. sext8 v)
loaded op_ldh eff = mem_read eff 2
loaded op_ldhs eff = do v ← mem_read eff 2; get (λ _. sext16 v)
loaded op_ldw eff = mem_read eff 4
loaded _ eff = get (λ _. eff)

unfoldable pub exec_ld : Opcode → M Void
unfolding loaded
exec_ld op = do
  pair ← fetch_byte
  val32 ← fetch_dword
  when (ltb 7 (pair / 16) || ltb 8 (pair % 16)) invalid_opcode
  base ← base_of (pair % 16)
  val ← loaded op (add32 base val32)
  set_reg (pair / 16) val

abbrev pub store_size : Opcode → ℕ
store_size op_stb = 1
store_size op_sth = 2
store_size _ = 4

unfoldable pub exec_st : Opcode → M Void
exec_st op = do
  pair ← fetch_byte
  val32 ← fetch_dword
  when (ltb 7 (pair / 16) || ltb 8 (pair % 16)) invalid_opcode
  base ← base_of (pair % 16)
  v ← reg_of (pair / 16)
  mem_write (add32 base val32) v (store_size op)

unfoldable pub exec_leapc : M Void
exec_leapc = do
  pair ← fetch_byte
  val32 ← fetch_dword
  when (ltb 7 (pair / 16)) invalid_opcode
  pc ← get (λ m. m.pc)
  set_reg (pair / 16) (add32 pc val32)

unfoldable pub exec_movsp : M Void
exec_movsp = do dst ← dest_reg; sp ← get (λ m. m.sp); set_reg dst sp

unfoldable pub exec_setsp : M Void
exec_setsp = do src ← source_reg; v ← reg_of src; set_sp v

unfoldable pub exec_addsp : M Void
exec_addsp = do
  unused ← fetch_byte
  val32 ← fetch_dword
  modify_cpu (λ c. record c { sp = add32 c.sp val32 })

unfoldable pub exec_push32 : M Void
exec_push32 = do src ← source_reg; v ← reg_of src; push32 v

unfoldable pub exec_pop32 : M Void
exec_pop32 = do dst ← dest_reg; v ← pop32; set_reg dst v
