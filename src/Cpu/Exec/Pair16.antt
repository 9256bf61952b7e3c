-- ===== src/Cpu/Exec/Pair16.antt =====
-- The cases MOV to POP of the switch: 16-bit instructions on a pair of registers, packed in one
-- byte, destination high.
use tortoise.Base.{ℕ, ◌/◌, ◌%◌, bit_and, bit_or, bit_xor, ◌&&◌, ltb, u16}
use tortoise.Machine.Monad.{M, Void, ◌>>=◌, when, set_reg, reg_of}
use tortoise.Cpu.Stack.{fetch_byte, push_word, pop_word}
use tortoise.Cpu.Exec.Imm16.{add16, sub16, cmp16, mul16, div16, combine}

-- `dst = (pair >> 4) & 0x0F`, `src = pair & 0x0F`, `if (dst < 8 && src < 8) body`.
abbrev reg_pair : (ℕ → ℕ → M Void) → M Void
reg_pair body = do
  pair ← fetch_byte
  when (ltb (pair / 16 % 16) 8 && ltb (pair % 16) 8) (body (pair / 16 % 16) (pair % 16))

-- The source register's value as the second operand.
abbrev with_source : (ℕ → ℕ → M Void) → M Void
with_source body = reg_pair (λ dst src. do b ← reg_of src; body dst b)

unfoldable pub exec_mov : M Void
exec_mov = with_source set_reg

unfoldable pub exec_add_reg : M Void
exec_add_reg = with_source add16

unfoldable pub exec_sub_reg : M Void
exec_sub_reg = with_source sub16

unfoldable pub exec_cmp_reg : M Void
exec_cmp_reg = with_source cmp16

unfoldable pub exec_and_reg : M Void
exec_and_reg = with_source (combine bit_and)

unfoldable pub exec_or_reg : M Void
exec_or_reg = with_source (combine bit_or)

unfoldable pub exec_xor_reg : M Void
exec_xor_reg = with_source (combine bit_xor)

unfoldable pub exec_mul_reg : M Void
exec_mul_reg = with_source mul16

unfoldable pub exec_div_reg : M Void
exec_div_reg = with_source div16

unfoldable pub exec_push : M Void
exec_push = do reg ← fetch_byte; v ← reg_of reg; when (ltb reg 8) (push_word (u16 v))

unfoldable pub exec_pop : M Void
exec_pop = do reg ← fetch_byte; when (ltb reg 8) (do v ← pop_word; set_reg reg v)
