-- ===== src/Alu/Divide.antt =====
-- `alu_div` of src/cpu.c.
use tortoise.Base.{
  ◌⊎◌, inl, inr, refl, false, Bool-cases, ==_iff, ◌≡◌, arith, ℕ, ◌+◌, ◌*◌, ◌/◌, ◌%◌, ◌<◌, none,
  some, ◌&&◌, ◌!=◌, ◌==◌,
}
use native.Mathlib.Nat.{div-add-mod', mod-lt}
use tortoise.Alu.{Result, setzscv, alu_div, divided}

-- The value where a division of words as numbers does not fail.
alu_div-defined :
    (flags kind a b : ℕ)
    → (kind != 1 && kind != 3) ≡ false
    → (b == 0) ≡ false
    → alu_div flags kind a b
      ≡ some (record {
        flags = setzscv flags (divided kind a b) false false;
        value = divided kind a b;
      })
unfolding alu_div
alu_div-defined flags kind a b unsigned nonzero = rw (nonzero, unsigned) refl

-- DIV32 and UMOD of words fail by 0; by any other word both succeed, with the quotient and the
-- remainder below the divisor that make up the dividend.
pub alu_div-unsigned :
    (flags a b : ℕ)
    → ((b ≡ 0) × (alu_div flags 3 a b ≡ none) × (alu_div flags 1 a b ≡ none))
      ⊎ ((q r : Result) × (alu_div flags 3 a b ≡ some q)
          × (alu_div flags 1 a b ≡ some r)
          × (q.value * b + r.value ≡ a)
          × (r.value < b))
unfolding alu_div divided
alu_div-unsigned flags a b = elim (Bool-cases (b == 0)) [
  | inl by_zero ↦ inl ((==_iff b 0).0 by_zero, rw by_zero refl, rw by_zero refl)
  | inr other ↦ inr (
    record { flags = setzscv flags (a / b) false false; value = a / b },
    record { flags = setzscv flags (a % b) false false; value = a % b },
    alu_div-defined flags 3 a b refl other,
    alu_div-defined flags 1 a b refl other,
    div-add-mod' a b,
    mod-lt a (ground arith),
  )
]
