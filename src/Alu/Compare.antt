-- ===== src/Alu/Compare.antt =====
-- The branches of src/cpu.c after a comparison of two words by `alu_sub`.
use tortoise.Base.{
  ℕ, ◌+◌, ◌/◌, ◌^◌, ◌<◌, ◌≡◌, refl, arith, Bool, true, false, not, ◌||◌, ◌&&◌, ◌==◌, ◌!=◌, ltb, leb,
  has_bit, sub32, differs, inl, inr,
}
use native.Mathlib.Nat.{add-zero}
use tortoise.Base.Int.{ℤ, pos, ◌-ℤ◌, ltb_ℤ, eq_ℤ, signed32}
use tortoise.Alu.{
  Cond, beq, bne, blt, bge, ble, bgt, blo, bhs, bls, bhi, bmi, bpl, bvs, bvc, cond, alu_sub,
}
use tortoise.Alu.Add.{IsDifference, fits, alu_sub_lem}

-- What a branch asks of the operands of the comparison before it.
abbrev pub relation : Cond → ℕ → ℕ → Bool
relation beq a b = a == b
relation bne a b = a != b
relation blt a b = ltb_ℤ (signed32 a) (signed32 b)
relation bge a b = not (ltb_ℤ (signed32 a) (signed32 b))
relation ble a b = not (ltb_ℤ (signed32 b) (signed32 a))
relation bgt a b = ltb_ℤ (signed32 b) (signed32 a)
relation blo a b = ltb a b
relation bhs a b = leb b a
relation bls a b = leb a b
relation bhi a b = ltb b a
relation bmi a b = has_bit 31 (sub32 a b)
relation bpl a b = not (has_bit 31 (sub32 a b))
relation bvs a b = not (eq_ℤ (signed32 a -ℤ signed32 b) (signed32 (sub32 a b)))
relation bvc a b = eq_ℤ (signed32 a -ℤ signed32 b) (signed32 (sub32 a b))

-- The sign of the difference, corrected by the overflow, is the signed order.
module _ (a b r : ℕ) (ha : a < 2 ^ 32) (hb : b < 2 ^ 32) (hr : r < 2 ^ 32) where
  abbrev overflows : Bool
  overflows = a / 2147483648 != b / 2147483648 && r / 2147483648 != a / 2147483648

  below_exactly : r + b ≡ a → differs (has_bit 31 r) overflows ≡ ltb_ℤ (signed32 a) (signed32 b)
  below_exactly h = ground arith

  below_wrapped :
      r + b ≡ a + 4294967296 → differs (has_bit 31 r) overflows ≡ ltb_ℤ (signed32 a) (signed32 b)
  below_wrapped h = ground arith

  below :
      IsDifference a b 0 r
      → differs (has_bit 31 r) (not (eq_ℤ (signed32 a -ℤ signed32 b -ℤ pos 0) (signed32 r)))
        ≡ ltb_ℤ (signed32 a) (signed32 b)
  below (inl h) = rw (← fits a b 0 r ha hb (omega arith) hr (inl h)) (below_exactly (omega arith))
  below (inr h) = rw (← fits a b 0 r ha hb (omega arith) hr (inr h)) (below_wrapped (omega arith))

-ℤ-zero : (x : ℤ) → x -ℤ pos 0 ≡ x
unfolding ◌-ℤ◌
-ℤ-zero x = ground arith

difference-zero :
    (a b r : ℕ) → a < 2 ^ 32 → b < 2 ^ 32 → r < 2 ^ 32 → IsDifference a b 0 r → (r == 0) ≡ (a == b)
difference-zero a b r ha hb hr h = ground arith

not-not : (t : Bool) → not (not t) ≡ t
not-not true = refl
not-not false = refl

module _ (a b : ℕ) (ha : a < 2 ^ 32) (hb : b < 2 ^ 32) where
  le_of_parts : (a == b || ltb_ℤ (signed32 a) (signed32 b)) ≡ not (ltb_ℤ (signed32 b) (signed32 a))
  le_of_parts = ground arith

  gt_of_parts :
      (not (a == b) && not (ltb_ℤ (signed32 a) (signed32 b))) ≡ ltb_ℤ (signed32 b) (signed32 a)
  gt_of_parts = ground arith

-- The equations of the flags after the comparison, and the order that they give.
module _ (f a b : ℕ) (ha : a < 2 ^ 32) (hb : b < 2 ^ 32) (z : has_bit 0 f ≡ (a == b))
    (c : has_bit 1 f ≡ ltb a b) (s : has_bit 2 f ≡ has_bit 31 (sub32 a b))
    (v : has_bit 3 f ≡ not (eq_ℤ (signed32 a -ℤ signed32 b) (signed32 (sub32 a b))))
    (order : differs (has_bit 2 f) (has_bit 3 f) ≡ ltb_ℤ (signed32 a) (signed32 b)) where
  pub cond_of_flags : (op : Cond) → cond f op ≡ relation op a b
  unfolding cond
  cond_of_flags beq = z
  cond_of_flags bne = rw z (ground arith)
  cond_of_flags blt = order
  cond_of_flags bge = rw order
  cond_of_flags ble = rw (z, order) (le_of_parts a b ha hb)
  cond_of_flags bgt = rw (z, order) (gt_of_parts a b ha hb)
  cond_of_flags blo = c
  cond_of_flags bhs = rw c (ground arith)
  cond_of_flags bls = rw (c, z) (ground arith)
  cond_of_flags bhi = rw (c, z) (ground arith)
  cond_of_flags bmi = s
  cond_of_flags bpl = rw s
  cond_of_flags bvs = v
  cond_of_flags bvc = rw v (not-not _)

-- After the comparison of two words each of the fourteen branches is taken exactly when its
-- relation holds: equality, the signed and unsigned orders, the sign of the difference, and
-- whether the signed difference overflows.
pub cond-alu_sub :
    (flags a b : ℕ) (op : Cond)
    → a < 2 ^ 32
    → b < 2 ^ 32
    → cond (alu_sub flags a b 0).flags op ≡ relation op a b
cond-alu_sub flags a b op ha hb =
    let (small, diff, after) = alu_sub_lem flags a b 0 ha hb (omega arith) in
    let value : sub32 a b ≡ (alu_sub flags a b 0).value = omega arith in
    cond_of_flags (alu_sub flags a b 0).flags a b ha hb
      (rw (after.z_is) (difference-zero a b _ ha hb small diff)) (rw (after.c_is, add-zero))
      (rw value after.s_is) (rw (value, ← -ℤ-zero (signed32 a -ℤ signed32 b)) after.v_is)
      (rw (after.s_is, after.v_is) (below a b _ ha hb small diff)) op
