-- ===== src/Cpu/Exec/Imm16.antt =====
-- The cases LOAD to DIV of the switch: 16-bit instructions with a register byte and a word. A
-- register number above 7 makes them do nothing.
use tortoise.Base.{
  ℕ, ◌+◌, ◌-◌, ◌*◌, ◌/◌, ◌%◌, ◌^◌, bit_and, bit_or, bit_xor, Bool, true, false, ◌&&◌, Option, none,
  some, ltb, leb, ◌==◌, if◌then◌else◌, has_bit, u16, u32, sub32, not32,
}
use tortoise.Machine.Monad.{
  M, Void, skip, ◌>>=◌, ◌>>◌, when, get, modify_cpu, set_pc, set_reg, reg_of,
}
use tortoise.Alu.{flag_bits, set_flags}
use tortoise.Dev.Events.{legacy_in, legacy_out}
use tortoise.Cpu.Fault.{mem_write}
use tortoise.Cpu.Stack.{fetch_byte, fetch_word, push_word, pop_word, cpu_interrupt, trap}

abbrev pub set_cflags : ℕ → M Void
set_cflags f = modify_cpu (λ c. record c { flags = f })

-- The operands of most cases: `if (reg < 8) body`.
abbrev reg_word : (ℕ → ℕ → M Void) → M Void
reg_word body = do reg ← fetch_byte; val ← fetch_word; when (ltb reg 8) (body reg val)

unfoldable pub exec_load : M Void
exec_load = reg_word (λ reg val. set_reg reg val)

-- `registers[r] op b` with the flags of `set_flags`, shared by the register pairs.
unfoldable pub add16 : ℕ → ℕ → M Void
add16 r b = do a ← reg_of r; set_cflags (set_flags a b (u32 (a + b)) false); set_reg r (u16 (a + b))

unfoldable pub cmp16 : ℕ → ℕ → M Void
cmp16 r b = do a ← reg_of r; set_cflags (set_flags a b (u16 (sub32 a b)) true)

unfoldable pub sub16 : ℕ → ℕ → M Void
sub16 r b = do
  a ← reg_of r
  set_cflags (set_flags a b (u16 (sub32 a b)) true)
  set_reg r (u16 (sub32 a b))

unfoldable pub exec_add : M Void
unfolding add16
exec_add = reg_word add16

unfoldable pub exec_store : M Void
exec_store = reg_word (λ reg addr. do v ← reg_of reg; mem_write addr v 2)

unfoldable pub exec_jmp : M Void
exec_jmp = do addr ← fetch_word; set_pc addr

unfoldable pub exec_jz : M Void
exec_jz = do
  reg ← fetch_byte
  addr ← fetch_word
  v ← reg_of reg
  when (ltb reg 8 && v == 0) (set_pc addr)

-- `registers[reg] = f registers[reg] val`, for the logical instructions.
abbrev pub combine : (ℕ → ℕ → ℕ) → ℕ → ℕ → M Void
combine f r b = do a ← reg_of r; set_reg r (f a b)

unfoldable pub exec_and : M Void
exec_and = reg_word (combine bit_and)

unfoldable pub exec_or : M Void
exec_or = reg_word (combine bit_or)

unfoldable pub exec_xor : M Void
exec_xor = reg_word (combine bit_xor)

unfoldable pub exec_not : M Void
exec_not = do reg ← fetch_byte; a ← reg_of reg; when (ltb reg 8) (set_reg reg (u16 (not32 a)))

unfoldable pub exec_call : M Void
exec_call = do addr ← fetch_word; pc ← get (λ m. u16 m.pc); push_word pc; set_pc addr

unfoldable pub exec_ret : M Void
exec_ret = do addr ← pop_word; set_pc addr

unfoldable pub set_input : ℕ → Option ℕ → M Void
set_input reg none = skip
set_input reg (some v) = set_reg reg v

unfoldable pub exec_in : M Void
unfolding set_input
exec_in = reg_word (λ reg addr. do v ← legacy_in addr; set_input reg v)

-- The timer port raises interrupt 1 at once if interrupts are on, and IO_SYS halts.
unfoldable pub out_port : ℕ → ℕ → M Void
out_port reg addr m =
    if addr == 0xFF02
    then when m.int_enabled (trap 1) m
    else if addr == 0xFF04
    then modify_cpu (λ c. record c { halted = true }) m
    else legacy_out addr (m.registers reg) m

unfoldable pub exec_out : M Void
unfolding out_port
exec_out = reg_word out_port

unfoldable pub exec_sub : M Void
unfolding sub16
exec_sub = reg_word sub16

unfoldable pub exec_cmp : M Void
unfolding cmp16
exec_cmp = reg_word cmp16

-- JC, JN and JO test a flag, JNZ tests that Z is clear.
unfoldable pub exec_jump_if : (ℕ → Bool) → M Void
exec_jump_if test = do
  addr ← fetch_word
  flags ← get (λ m. m.flags)
  when (test flags) (set_pc addr)

-- The carry of a shift is the last bit shifted out, for a count from 1 to 16.
unfoldable pub shl16 : ℕ → ℕ → M Void
shl16 reg val = do
  a ← reg_of reg
  let res = u16 (u32 (a * 2 ^ (val % 32)))
  set_cflags (
      flag_bits (res == 0) (ltb 0 val && leb val 16 && has_bit 15 (u32 (a * 2 ^ ((val - 1) % 32))))
        (has_bit 15 res) false)
  set_reg reg res

unfoldable pub shr16 : ℕ → ℕ → M Void
shr16 reg val = do
  a ← reg_of reg
  let res = u16 (a / 2 ^ (val % 32))
  set_cflags (
      flag_bits (res == 0) (ltb 0 val && leb val 16 && has_bit 0 (a / 2 ^ ((val - 1) % 32)))
        (has_bit 15 res) false)
  set_reg reg res

unfoldable pub exec_shl : M Void
unfolding shl16
exec_shl = reg_word shl16

unfoldable pub exec_shr : M Void
unfolding shr16
exec_shr = reg_word shr16

unfoldable pub mul16 : ℕ → ℕ → M Void
mul16 reg b = do
  a ← reg_of reg
  let prod = u32 (a * b)
  let res = u16 prod
  let big = ltb 0xFFFF prod
  set_cflags (flag_bits (res == 0) big (has_bit 15 res) big)
  set_reg reg res

-- A zero divisor is interrupt 0, in both modes.
unfoldable pub div16 : ℕ → ℕ → M Void
div16 reg b m =
    let res = u16 (m.registers reg / b) in
    if b == 0
    then cpu_interrupt 0 m
    else (do set_cflags (flag_bits (res == 0) false (has_bit 15 res) false); set_reg reg res) m

unfoldable pub exec_mul : M Void
unfolding mul16
exec_mul = reg_word mul16

unfoldable pub exec_div : M Void
unfolding div16
exec_div = reg_word div16
