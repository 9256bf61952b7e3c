-- ===== src/Alu/Add.antt =====
-- `alu_add` and `alu_sub` of src/cpu.c with their four flags.
use tortoise.Base.{
  ℕ, ◌+◌, ◌/◌, ◌^◌, ◌<◌, ◌≡◌, refl, arith, Bool, not, ◌&&◌, ◌==◌, ◌!=◌, ltb, has_bit, sub32, u32,
  ◌⊎◌, inl, inr,
}
use tortoise.Base.Int.{pos, ◌+ℤ◌, ◌-ℤ◌, eq_ℤ, signed32}
use tortoise.Alu.{alu_add, alu_sub}
use tortoise.Alu.Flags.{
  zero_flag, carry_flag, sign_flag, overflow_flag, add_overflow_bit, sub_overflow_bit,
}

-- The four flags of `flags`, as truth values.
pub record FlagsAre (flags : ℕ) (z c s v : Bool) : Type 0 where
  pub z_is : has_bit 0 flags ≡ z
  pub c_is : has_bit 1 flags ≡ c
  pub s_is : has_bit 2 flags ≡ s
  pub v_is : has_bit 3 flags ≡ v

module _ (flags a b c : ℕ) (ha : a < 2 ^ 32) (hb : b < 2 ^ 32) (hc : c < 2) where
  -- Of two words and a carry of 0 or 1: the sum wraps to 32 bits; Z and S describe it, C says that the unsigned sum does not fit, and
  -- V that the sum of the operands read as signed numbers is not the result read so.
  pub alu_add_lem :
      let r = u32 (a + b + c) in
      let s = alu_add flags a b c in
      (s.value ≡ r)
      × FlagsAre s.flags
          (r == 0)
          (ltb 0xFFFF_FFFF (a + b + c))
          (has_bit 31 r)
          (not (eq_ℤ (signed32 a +ℤ signed32 b +ℤ pos c) (signed32 r)))
  unfolding alu_add ◌+ℤ◌
  alu_add_lem = (
    refl,
    record {
      z_is = zero_flag flags _ _ _;
      c_is = rw carry_flag (ground arith);
      s_is = sign_flag flags _ _ _;
      v_is =
          rw (overflow_flag, add_overflow_bit a b (u32 (a + b + c)) ha hb (omega arith))
            (ground arith);
    },
  )

-- A 32-bit difference, by what it is congruent to.
abbrev pub IsDifference : ℕ → ℕ → ℕ → ℕ → Type 0
IsDifference a b c r = (r + b + c ≡ a) ⊎ (r + b + c ≡ a + 4294967296)

-- Over words: the signs show whether the signed difference fits.
module _ (a b c r : ℕ) (ha : a < 2 ^ 32) (hb : b < 2 ^ 32) (hc : c < 2) (hr : r < 2 ^ 32) where
  fits_exactly :
      r + b + c ≡ a
      → (a / 2147483648 != b / 2147483648 && r / 2147483648 != a / 2147483648)
        ≡ not (eq_ℤ (signed32 a -ℤ signed32 b -ℤ pos c) (signed32 r))
  unfolding ◌-ℤ◌
  fits_exactly h = ground arith

  fits_wrapped :
      r + b + c ≡ a + 4294967296
      → (a / 2147483648 != b / 2147483648 && r / 2147483648 != a / 2147483648)
        ≡ not (eq_ℤ (signed32 a -ℤ signed32 b -ℤ pos c) (signed32 r))
  unfolding ◌-ℤ◌
  fits_wrapped h = ground arith

  pub fits :
      IsDifference a b c r
      → (a / 2147483648 != b / 2147483648 && r / 2147483648 != a / 2147483648)
        ≡ not (eq_ℤ (signed32 a -ℤ signed32 b -ℤ pos c) (signed32 r))
  fits (inl h) = fits_exactly h
  fits (inr h) = fits_wrapped h

module _ (flags a b c : ℕ) (ha : a < 2 ^ 32) (hb : b < 2 ^ 32) (hc : c < 2) where
  -- Of two words and a borrow of 0 or 1: the difference wraps to 32 bits; Z and S describe it, C says that it borrows, and V that the
  -- difference of the operands read as signed numbers is not the result read so.
  pub alu_sub_lem :
      let s = alu_sub flags a b c in
      let r = s.value in
      (r < 2 ^ 32)
      × IsDifference a b c r
      × FlagsAre s.flags
          (r == 0)
          (ltb a (b + c))
          (has_bit 31 r)
          (not (eq_ℤ (signed32 a -ℤ signed32 b -ℤ pos c) (signed32 r)))
  unfolding alu_sub
  alu_sub_lem =
      let r = sub32 (sub32 a b) c in
      let small : r < 2 ^ 32 = omega arith in
      let diff : IsDifference a b c r = omega arith in
      (
        small,
        diff,
        record {
          z_is = zero_flag flags _ _ _;
          c_is = carry_flag flags _ _ _;
          s_is = sign_flag flags _ _ _;
          v_is =
              rw (overflow_flag, sub_overflow_bit a b r ha hb small)
                (fits a b c r ha hb hc small diff);
        },
      )
