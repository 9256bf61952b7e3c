-- ===== src/Dev/Pic.antt =====
-- The interrupt controller: `pic_raise`, `pic_rd` and `pic_wr` of src/dev.c.
use tortoise.Base.{
  ℕ, zero, suc, ◌+◌, ◌%◌, ◌^◌, bit_and, bit_or, ◌==◌, if◌then◌else◌, has_bit, not32,
}
use tortoise.Machine.Monad.{M, Void, ok, skip, modify_dev}

unfoldable pub pic_raise : ℕ → M Void
pic_raise line = modify_dev (λ d. record d { pic_pending = bit_or d.pic_pending (2 ^ line) })

-- `for (n = 0; n < 8; n++) if (p & (1u << n)) return n`, from `n` on.
unfoldable pub first_line : ℕ → ℕ → ℕ → ℕ
first_line zero n p = 0xFFFF_FFFF
first_line (suc rounds) n p = if has_bit n p then n else first_line rounds (n + 1) p

unfoldable pub pic_rd : ℕ → M ℕ
unfolding first_line
pic_rd off m =
    if off == 0x00
    then ok m.dev.pic_pending m
    else if off == 0x04
    then ok m.dev.pic_mask m
    else if off == 0x0C
    then ok (first_line 8 0 (bit_and m.dev.pic_pending m.dev.pic_mask)) m
    else ok 0 m

unfoldable pub pic_wr : ℕ → ℕ → M Void
pic_wr off v =
    if off == 0x04
    then modify_dev (λ d. record d { pic_mask = v % 256 })
    else if off == 0x08
    then modify_dev (λ d. record d { pic_pending = bit_and d.pic_pending (not32 v) })
    else skip
