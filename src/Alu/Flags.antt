-- ===== src/Alu/Flags.antt =====
-- Reading back the four flags that `setzscv` packs, and the overflow bit of the adders.
use tortoise.Base.{
  ℕ, zero, suc, ◌-◌, ◌/◌, ◌%◌, ◌^◌, ◌<◌, ◌≡◌, refl, arith, bit_and, bit_xor, Bool, ◌&&◌, ◌==◌, ◌!=◌,
  not32, has_bit,
}
use tortoise.Base.Bits.{bit_xor-shift, bit_and-shift, bit_xor-lt}
use tortoise.Alu.{setzscv}

module _ (flags r : ℕ) (c v : Bool) where
  pub zero_flag : has_bit 0 (setzscv flags r c v) ≡ (r == 0)
  unfolding setzscv
  zero_flag = ground arith

  pub carry_flag : has_bit 1 (setzscv flags r c v) ≡ c
  unfolding setzscv
  carry_flag = ground arith

  pub sign_flag : has_bit 2 (setzscv flags r c v) ≡ has_bit 31 r
  unfolding setzscv
  sign_flag = ground arith

  pub overflow_flag : has_bit 3 (setzscv flags r c v) ≡ v
  unfolding setzscv
  overflow_flag = ground arith

-- The two exclusive-or formulas of the C, at one bit.
add_bit :
    (a b r : ℕ)
    → a < 2
    → b < 2
    → r < 2
    → (bit_and (1 - bit_xor a b) (bit_xor a r) % 2 != 0) ≡ (a == b && r != a)
add_bit zero zero zero p q s = refl
add_bit zero zero (suc zero) p q s = refl
add_bit zero (suc zero) zero p q s = refl
add_bit zero (suc zero) (suc zero) p q s = refl
add_bit (suc zero) zero zero p q s = refl
add_bit (suc zero) zero (suc zero) p q s = refl
add_bit (suc zero) (suc zero) zero p q s = refl
add_bit (suc zero) (suc zero) (suc zero) p q s = refl
add_bit (suc (suc a)) b r p q s = absurd (omega arith)
add_bit _ (suc (suc b)) r p q s = absurd (omega arith)
add_bit _ _ (suc (suc r)) p q s = absurd (omega arith)

sub_bit :
    (a b r : ℕ)
    → a < 2
    → b < 2
    → r < 2
    → (bit_and (bit_xor a b) (bit_xor a r) % 2 != 0) ≡ (a != b && r != a)
sub_bit zero zero zero p q s = refl
sub_bit zero zero (suc zero) p q s = refl
sub_bit zero (suc zero) zero p q s = refl
sub_bit zero (suc zero) (suc zero) p q s = refl
sub_bit (suc zero) zero zero p q s = refl
sub_bit (suc zero) zero (suc zero) p q s = refl
sub_bit (suc zero) (suc zero) zero p q s = refl
sub_bit (suc zero) (suc zero) (suc zero) p q s = refl
sub_bit (suc (suc a)) b r p q s = absurd (omega arith)
sub_bit _ (suc (suc b)) r p q s = absurd (omega arith)
sub_bit _ _ (suc (suc r)) p q s = absurd (omega arith)

module _ (a b r : ℕ) (ha : a < 2 ^ 32) (hb : b < 2 ^ 32) (hr : r < 2 ^ 32) where
  abbrev top : ℕ → ℕ
  top x = x / 2147483648

  top_xor : bit_xor a b / 2147483648 ≡ bit_xor (top a) (top b)
  top_xor = bit_xor-shift 31 a b

  top_not : not32 (bit_xor a b) / 2147483648 ≡ 1 - bit_xor (top a) (top b)
  top_not = omega (arith, top_xor, bit_xor-lt 32 a b ha hb)

  -- The V formula of `alu_add`: the operands agree in sign and the result does not.
  pub add_overflow_bit :
      (bit_and (not32 (bit_xor a b)) (bit_xor a r) / 2 ^ 31 % 2 != 0)
      ≡ (top a == top b && top r != top a)
  add_overflow_bit =
      rw (bit_and-shift 31 (not32 (bit_xor a b)) (bit_xor a r), top_not, bit_xor-shift 31 a r)
        (add_bit (top a) (top b) (top r) (omega arith) (omega arith) (omega arith))

  -- The V formula of `alu_sub`: the operands differ in sign and the result differs from the first.
  pub sub_overflow_bit :
      (bit_and (bit_xor a b) (bit_xor a r) / 2 ^ 31 % 2 != 0) ≡ (top a != top b && top r != top a)
  sub_overflow_bit =
      rw (bit_and-shift 31 (bit_xor a b) (bit_xor a r), top_xor, bit_xor-shift 31 a r)
        (sub_bit (top a) (top b) (top r) (omega arith) (omega arith) (omega arith))
