-- ===== src/Cpu/Exec/Imm32.antt =====
-- The cases LOAD32 to CMP32 of the switch: 32-bit instructions with a register byte and a
-- doubleword. They clear all flags that they do not set.
use tortoise.Base.{
  ℕ, ◌+◌, ◌-◌, ◌*◌, ◌/◌, ◌%◌, ◌^◌, bit_and, bit_or, bit_xor, false, ◌&&◌, ltb, leb, ◌==◌,
  if◌then◌else◌, has_bit, u32, sub32,
}
use tortoise.Machine.Monad.{M, Void, ◌>>=◌, ◌>>◌, when, set_reg, reg_of}
use tortoise.Alu.{flag_bits}
use tortoise.Cpu.Fault.{mem_write}
use tortoise.Cpu.Stack.{fetch_byte, fetch_dword, cpu_interrupt}
use tortoise.Cpu.Exec.Imm16.{set_cflags, combine}

abbrev reg_dword : (ℕ → ℕ → M Void) → M Void
reg_dword body = do reg ← fetch_byte; val ← fetch_dword; when (ltb reg 8) (body reg val)

unfoldable pub exec_load32 : M Void
exec_load32 = reg_dword (λ reg val. set_reg reg val)

unfoldable pub exec_store32 : M Void
exec_store32 = reg_dword (λ reg addr. do v ← reg_of reg; mem_write addr v 4)

unfoldable pub add32_flags : ℕ → ℕ → ℕ
add32_flags a b = flag_bits (u32 (a + b) == 0) (ltb 0xFFFF_FFFF (a + b)) (has_bit 31 (a + b)) false

unfoldable pub exec_add32 : M Void
unfolding add32_flags
exec_add32 =
    reg_dword
      (λ reg val. do a ← reg_of reg; set_cflags (add32_flags a val); set_reg reg (u32 (a + val)))

-- The flags of SUB32 and CMP32: V is not set.
unfoldable pub sub32_flags : ℕ → ℕ → ℕ
sub32_flags a b = let diff = sub32 a b in flag_bits (diff == 0) (ltb a b) (has_bit 31 diff) false

unfoldable pub exec_sub32 : M Void
unfolding sub32_flags
exec_sub32 =
    reg_dword
      (λ reg val. do a ← reg_of reg; set_cflags (sub32_flags a val); set_reg reg (sub32 a val))

unfoldable pub exec_mul32 : M Void
exec_mul32 = reg_dword (λ reg val. do
  a ← reg_of reg
  let prod = a * val
  let big = ltb 0xFFFF_FFFF prod
  set_cflags (flag_bits (u32 prod == 0) big (has_bit 31 prod) big)
  set_reg reg (u32 prod))

unfoldable pub div32 : ℕ → ℕ → M Void
div32 reg b m =
    let quot = m.registers reg / b in
    if b == 0
    then cpu_interrupt 0 m
    else (do set_cflags (flag_bits (quot == 0) false (has_bit 31 quot) false); set_reg reg quot) m

unfoldable pub exec_div32 : M Void
unfolding div32
exec_div32 = reg_dword div32

-- The count is taken modulo 32; the carry is the last bit shifted out, for a count from 1 to 32.
unfoldable pub shl32_flags : ℕ → ℕ → ℕ
shl32_flags a val =
    let res = u32 (a * 2 ^ (val % 32)) in
    flag_bits (res == 0) (ltb 0 val && leb val 32 && has_bit 31 (u32 (a * 2 ^ ((val - 1) % 32))))
      (has_bit 31 res) false

unfoldable pub exec_shl32 : M Void
unfolding shl32_flags
exec_shl32 = reg_dword (λ reg val. do
  a ← reg_of reg
  set_cflags (shl32_flags a val)
  set_reg reg (u32 (a * 2 ^ (val % 32))))

unfoldable pub shr32_flags : ℕ → ℕ → ℕ
shr32_flags a val =
    let res = a / 2 ^ (val % 32) in
    flag_bits (res == 0) (ltb 0 val && leb val 32 && has_bit 0 (a / 2 ^ ((val - 1) % 32)))
      (has_bit 31 res) false

unfoldable pub exec_shr32 : M Void
unfolding shr32_flags
exec_shr32 =
    reg_dword (λ reg val. do
      a ← reg_of reg
      set_cflags (shr32_flags a val)
      set_reg reg (a / 2 ^ (val % 32)))

unfoldable pub exec_and32 : M Void
exec_and32 = reg_dword (combine bit_and)

unfoldable pub exec_or32 : M Void
exec_or32 = reg_dword (combine bit_or)

unfoldable pub exec_xor32 : M Void
exec_xor32 = reg_dword (combine bit_xor)

unfoldable pub exec_cmp32 : M Void
unfolding sub32_flags
exec_cmp32 = reg_dword (λ reg val. do a ← reg_of reg; set_cflags (sub32_flags a val))
