-- ===== src/Cpu/Exec/Alu32.antt =====
-- The cases ADC to DIV32R, NEG, and SAR to TESTI of the switch: 32-bit arithmetic on a register
-- and a register or a doubleword. The inner switches are functions of the opcode.
use tortoise.Base.{
  ℕ, ◌/◌, ◌%◌, bit_and, true, false, ◌||◌, Option, none, some, ltb, bit_of, has_bit,
}
use tortoise.Machine.Monad.{M, Void, ◌>>=◌, ◌>>◌, when, get, set_reg, reg_of}
use tortoise.Alu.{Result, setzscv, alu_add, alu_sub, alu_shift, alu_imul, alu_mulh, mul32r, alu_div}
use tortoise.Isa.{
  Opcode, op_adc, op_sbb, op_sarv, op_shlv, op_shrv, op_rolv, op_rorv, op_imul, op_idiv, op_umod,
  op_imod, op_div32r, op_test, op_mulhu, op_mulhs, op_add32r, op_sub32r, op_cmp32r, op_sar, op_rol,
  op_ror, op_adci, op_sbbi, op_imuli, op_idivi, op_umodi, op_imodi,
}
use tortoise.Cpu.Stack.{fetch_byte, fetch_dword, invalid_opcode, div_error}
use tortoise.Cpu.Exec.Imm16.{set_cflags}
use tortoise.Cpu.Exec.Control.{dest_reg}

-- How an arm of an inner switch ends: with a result for the register, with flags only (`return`
-- in C), or with a division error.
pub data Arm : Type 0 where
  writes : Result → Arm
  tests : ℕ → Arm
  div_fails : Arm

abbrev divided_or : Option Result → Arm
divided_or none = div_fails
divided_or (some r) = writes r

abbrev carry : ℕ → ℕ
carry flags = bit_of (has_bit 1 flags)

-- The switch over register pairs; its `default` is MUL32R.
unfoldable pub pair_arm : Opcode → ℕ → ℕ → ℕ → Arm
pair_arm op_adc flags a b = writes (alu_add flags a b (carry flags))
pair_arm op_sbb flags a b = writes (alu_sub flags a b (carry flags))
pair_arm op_sarv flags a b = writes (alu_shift flags 2 a b)
pair_arm op_shlv flags a b = writes (alu_shift flags 0 a b)
pair_arm op_shrv flags a b = writes (alu_shift flags 1 a b)
pair_arm op_rolv flags a b = writes (alu_shift flags 3 a b)
pair_arm op_rorv flags a b = writes (alu_shift flags 4 a b)
pair_arm op_imul flags a b = writes (alu_imul flags a b)
pair_arm op_idiv flags a b = divided_or (alu_div flags 0 a b)
pair_arm op_umod flags a b = divided_or (alu_div flags 1 a b)
pair_arm op_imod flags a b = divided_or (alu_div flags 2 a b)
pair_arm op_div32r flags a b = divided_or (alu_div flags 3 a b)
pair_arm op_test flags a b = tests (setzscv flags (bit_and a b) false false)
pair_arm op_mulhu flags a b = writes (alu_mulh flags a b false)
pair_arm op_mulhs flags a b = writes (alu_mulh flags a b true)
pair_arm op_add32r flags a b = writes (alu_add flags a b 0)
pair_arm op_sub32r flags a b = writes (alu_sub flags a b 0)
pair_arm op_cmp32r flags a b = tests (alu_sub flags a b 0).flags
pair_arm _ flags a b = writes (mul32r flags a b)

-- The switch over immediate operands; its `default` is TESTI.
unfoldable pub imm_arm : Opcode → ℕ → ℕ → ℕ → Arm
imm_arm op_sar flags a v = writes (alu_shift flags 2 a v)
imm_arm op_rol flags a v = writes (alu_shift flags 3 a v)
imm_arm op_ror flags a v = writes (alu_shift flags 4 a v)
imm_arm op_adci flags a v = writes (alu_add flags a v (carry flags))
imm_arm op_sbbi flags a v = writes (alu_sub flags a v (carry flags))
imm_arm op_imuli flags a v = writes (alu_imul flags a v)
imm_arm op_idivi flags a v = divided_or (alu_div flags 0 a v)
imm_arm op_umodi flags a v = divided_or (alu_div flags 1 a v)
imm_arm op_imodi flags a v = divided_or (alu_div flags 2 a v)
imm_arm _ flags a v = tests (setzscv flags (bit_and a v) false false)

unfoldable pub finish : ℕ → Arm → M Void
finish dst (writes r) = do set_cflags (r.flags); set_reg dst (r.value)
finish dst (tests flags) = set_cflags flags
finish dst div_fails = div_error

unfoldable pub exec_pair : Opcode → M Void
unfolding pair_arm finish
exec_pair op = do
  pair ← fetch_byte
  when (ltb 7 (pair / 16) || ltb 7 (pair % 16)) invalid_opcode
  a ← reg_of (pair / 16)
  b ← reg_of (pair % 16)
  flags ← get (λ m. m.flags)
  finish (pair / 16) (pair_arm op flags a b)

unfoldable pub exec_neg : M Void
unfolding finish
exec_neg = do
  dst ← dest_reg
  a ← reg_of dst
  flags ← get (λ m. m.flags)
  finish dst (writes (alu_sub flags 0 a 0))

unfoldable pub exec_imm : Opcode → M Void
unfolding imm_arm finish
exec_imm op = do
  pair ← fetch_byte
  val ← fetch_dword
  when (ltb 7 (pair / 16)) invalid_opcode
  a ← reg_of (pair / 16)
  flags ← get (λ m. m.flags)
  finish (pair / 16) (imm_arm op flags a val)
