-- ===== src/Cpu/Exec/System.antt =====
-- The cases of the switch for the system: control registers, TLB, idle, flags, counters.
use tortoise.Base.{ℕ, ◌+◌, ◌*◌, ◌/◌, ◌%◌, Bool, true, ◌||◌, ltb, leb, if◌then◌else◌, u32}
use tortoise.Machine.{Machine}
use tortoise.Machine.Monad.{M, Void, ◌>>=◌, ◌>>◌, when, get, modify_cpu, set_reg, reg_of}
use tortoise.Dev.Events.{dev_wfi}
use tortoise.Mem.Tlb.{cpu_flush_tlb, cpu_invlpg}
use tortoise.Mem.Virtual.{is_user}
use tortoise.Cpu.Fault.{cpu_get_flags, cpu_set_flags}
use tortoise.Cpu.Stack.{fetch_byte, push32, pop32, invalid_opcode, priv, cr_write}
use tortoise.Cpu.Exec.Control.{source_reg, dest_reg}

-- CLI and STI.
unfoldable pub exec_set_int : Bool → M Void
exec_set_int on = modify_cpu (λ c. record c { int_enabled = on })

-- NUM_CR is 9.
unfoldable pub exec_mfcr : M Void
exec_mfcr = do
  pair ← fetch_byte
  when (ltb 7 (pair / 16) || leb 9 (pair % 16)) invalid_opcode
  priv
  v ← get (λ m. m.cr (pair % 16))
  set_reg (pair / 16) v

unfoldable pub exec_mtcr : M Void
exec_mtcr = do
  pair ← fetch_byte
  when (ltb 7 (pair % 16) || leb 9 (pair / 16)) invalid_opcode
  priv
  v ← reg_of (pair % 16)
  cr_write (pair / 16) v

unfoldable pub exec_tlbflush : M Void
exec_tlbflush = do priv; cpu_flush_tlb

unfoldable pub exec_invlpg : M Void
exec_invlpg = do src ← source_reg; priv; va ← reg_of src; cpu_invlpg va

unfoldable pub exec_wfi : M Void
exec_wfi = do priv; dev_wfi

unfoldable pub exec_cpuid : M Void
exec_cpuid = do dst ← dest_reg; set_reg dst 2

unfoldable pub exec_pushf : M Void
exec_pushf = do f ← get cpu_get_flags; push32 f

-- A user program cannot change FLAG_I and FLAG_U, bits 4 and 5.
abbrev pub popped_flags : ℕ → Machine → ℕ
popped_flags val m =
    if is_user m.mode then val / 64 * 64 + cpu_get_flags m / 16 % 4 * 16 + val % 16 else val

unfoldable pub exec_popf : M Void
exec_popf = do val ← pop32; f ← get (popped_flags val); cpu_set_flags f

unfoldable pub exec_rdcyc : M Void
exec_rdcyc = do dst ← dest_reg; n ← get (λ m. u32 m.icount); set_reg dst n

unfoldable pub exec_halt : M Void
exec_halt = modify_cpu (λ c. record c { halted = true })
