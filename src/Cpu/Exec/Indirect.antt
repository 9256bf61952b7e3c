-- ===== src/Cpu/Exec/Indirect.antt =====
-- The cases LOAD_INDIR to STORE32_INDIR of the switch: memory operands with a signed 16-bit
-- offset.
use tortoise.Base.{ℕ, ◌/◌, ◌%◌, ◌&&◌, ltb, add32, sext16}
use tortoise.Machine.Monad.{M, Void, ◌>>=◌, when, set_reg, reg_of}
use tortoise.Cpu.Fault.{mem_read, mem_write}
use tortoise.Cpu.Stack.{fetch_byte, fetch_word}

-- The pair, and the effective address from the register `base` of the pair.
abbrev indirect : (ℕ → ℕ) → (ℕ → ℕ → M Void) → M Void
indirect base body = do
  pair ← fetch_byte
  off ← fetch_word
  at ← reg_of (base pair)
  when (ltb (pair / 16 % 16) 8 && ltb (pair % 16) 8) (body pair (add32 at (sext16 off)))

unfoldable pub exec_load_indir : ℕ → M Void
exec_load_indir n =
    indirect (λ pair. pair % 16) (λ pair eff. do v ← mem_read eff n; set_reg (pair / 16 % 16) v)

unfoldable pub exec_store_indir : ℕ → M Void
exec_store_indir n =
    indirect (λ pair. pair / 16 % 16) (λ pair eff. do v ← reg_of (pair % 16); mem_write eff v n)
