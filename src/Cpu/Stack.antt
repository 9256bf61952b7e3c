-- ===== src/Cpu/Stack.antt =====
-- The instruction buffer, the two stacks, traps and the control registers of src/cpu.c, over the
-- memory with `cpu_fault`.
pub mod Steady
use tortoise.Base.{
  ℕ, ◌+◌, ◌*◌, ◌%◌, ◌^◌, false, ◌&&◌, ◌||◌, ◌==◌, if◌then◌else◌, has_bit, u16, add32, sub32, get_or,
}
use tortoise.Machine.{supervisor}
use tortoise.Machine.Monad.{
  M, Void, ok, skip, ◌>>=◌, ◌>>◌, when, get, modify_cpu, set_pc, set_sp, set_cr, cpu_stop,
  cpu_abort,
}
use tortoise.Mem.Phys.{ext_on}
use tortoise.Mem.Tlb.{cpu_flush_tlb}
use tortoise.Mem.Virtual.{is_user}
use tortoise.Cpu.Fault.{cpu_fault, cpu_deliver, cpu_set_flags, mem_read, mem_write}

-- `ib[ipos++]`, and the little-endian operands of two and four bytes.
unfoldable pub fetch_byte : M ℕ
fetch_byte m = ok (get_or m.ib m.ipos 0) (record m { ipos = m.ipos + 1 })

unfoldable pub fetch_word : M ℕ
fetch_word m =
    ok (get_or m.ib m.ipos 0 + get_or m.ib (m.ipos + 1) 0 * 2 ^ 8) (record m { ipos = m.ipos + 2 })

unfoldable pub fetch_dword : M ℕ
fetch_dword m =
    ok
      (get_or m.ib m.ipos 0
        + get_or m.ib (m.ipos + 1) 0 * 2 ^ 8
        + get_or m.ib (m.ipos + 2) 0 * 2 ^ 16
        + get_or m.ib (m.ipos + 3) 0 * 2 ^ 24)
      (record m { ipos = m.ipos + 4 })

unfoldable pub push_word : ℕ → M Void
push_word val = do sp ← get (λ m. sub32 m.sp 2); mem_write sp val 2; set_sp sp

unfoldable pub pop_word : M ℕ
pop_word = do
  sp ← get (λ m. m.sp)
  val ← mem_read sp 2
  modify_cpu (λ c. record c { sp = add32 c.sp 2 })
  get (λ _. u16 val)

unfoldable pub push32 : ℕ → M Void
push32 v = do sp ← get (λ m. sub32 m.sp 4); mem_write sp v 4; set_sp sp

unfoldable pub pop32 : M ℕ
pop32 = do
  sp ← get (λ m. m.sp)
  v ← mem_read sp 4
  modify_cpu (λ c. record c { sp = add32 c.sp 4 })
  get (λ _. v)

-- The legacy interrupt: a frame of two words, and a vector of two bytes from IVT_BASE on.
unfoldable pub cpu_interrupt : ℕ → M Void
unfolding push_word
cpu_interrupt vector = do
  flags ← get (λ m. m.flags)
  push_word flags
  pc ← get (λ m. u16 m.pc)
  push_word pc
  modify_cpu (λ c. record c { int_enabled = false; mode = supervisor })
  target ← mem_read (0x0100 + vector * 2) 2
  set_pc target

-- Neither path returns to the instruction.
unfoldable pub invalid_opcode : M Void
invalid_opcode m = if ext_on m then cpu_fault 4 0 m else (do cpu_stop 2; cpu_abort) m

unfoldable pub div_error : M Void
unfolding cpu_interrupt
div_error = do ext ← get ext_on; when ext (cpu_fault 0 0); cpu_interrupt 0

unfoldable pub priv : M Void
priv m = when (ext_on m && is_user m.mode) (cpu_fault 13 0) m

unfoldable pub trap : ℕ → M Void
unfolding cpu_interrupt
trap vec m = if ext_on m then cpu_deliver vec m.pc 0 m else cpu_interrupt (vec % 256) m

unfoldable pub ext_iret : M Void
ext_iret = do
  sp ← get (λ m. m.sp)
  pc ← mem_read sp 4
  fl ← mem_read (add32 sp 4) 4
  sp' ← if has_bit 5 fl then mem_read (add32 sp 8) 4 else get (λ _. add32 sp 8)
  set_pc pc
  cpu_set_flags fl
  set_sp sp'

-- CR_RAMSIZE cannot be written; a write that changes the address space flushes the TLB.
unfoldable pub cr_write : ℕ → ℕ → M Void
cr_write n v = if n == 8 then skip else (do
  set_cr n v
  when (n == 0 || n == 3) cpu_flush_tlb
  when (n == 5 || n == 6) cpu_flush_tlb)
