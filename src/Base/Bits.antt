-- ===== src/Base/Bits.antt =====
-- The bit operations digit by digit. The machine's overflow flags read bit 31 of an exclusive or,
-- and its ranges need that `&`, `|` and `^` of two words are words.
use Prim.Native.Nat.{
  ℕ, zero, suc, ◌+◌, ◌*◌, ◌/◌, ◌%◌, ◌^◌, ◌≤◌, ◌<◌, min, max, differ, bit_and, bit_or, bit_xor,
  bitwise, digits, bit_and-bitwise, bit_or-bitwise, bit_xor-bitwise,
}
use mathlib.Core.Path.{◌≡◌, refl, ◌∙◌}
use native.Mathlib.Nat.{pow-suc, two-pow-succ, mul_comm, div-div-eq-div-mul, div-one}
use native.Mathlib.Omega.{arith}

-- Any count of digits that covers the first number gives the same result.
module _ (rest : ℕ → ℕ) (digit : ℕ → ℕ → ℕ) where
  digits-eq : (a k l b : ℕ) → a ≤ k → a ≤ l → digits rest digit k a b ≡ digits rest digit l a b
  digits-eq a zero zero b hk hl = refl
  digits-eq zero zero (suc l) b hk hl = refl
  digits-eq zero (suc k) zero b hk hl = refl
  digits-eq zero (suc k) (suc l) b hk hl = refl
  digits-eq (suc a) (suc k) (suc l) b hk hl =
      let tails = digits-eq (suc a / 2) k l (b / 2) (omega arith) (omega arith) in omega arith
  digits-eq (suc a) zero (suc l) b hk hl = absurd (omega arith)
  digits-eq (suc a) (suc k) zero b hk hl = absurd (omega arith)

  lowest_digit :
      (a b : ℕ)
      → bitwise rest digit (suc a) b
        ≡ bitwise rest digit (suc a / 2) (b / 2) * 2 + digit (suc a % 2) (b % 2)
  lowest_digit a b =
      let tails = digits-eq (suc a / 2) a (suc a / 2) (b / 2) (omega arith) (omega arith) in
      omega arith

-- What a bit operation does to the quotients by two.
pub bit_and-half : (a b : ℕ) → bit_and a b / 2 ≡ bit_and (a / 2) (b / 2)
bit_and-half zero b = simp bit_and-bitwise (omega arith)
bit_and-half (suc a) b = simp bit_and-bitwise (omega (arith, lowest_digit (λ y. 0) min a b))

pub bit_or-half : (a b : ℕ) → bit_or a b / 2 ≡ bit_or (a / 2) (b / 2)
bit_or-half zero b = simp bit_or-bitwise (omega arith)
bit_or-half (suc a) b = simp bit_or-bitwise (omega (arith, lowest_digit (λ y. y) max a b))

differ-lt : (x y : ℕ) → x < 2 → y < 2 → differ x y < 2
differ-lt zero y p q = q
differ-lt (suc zero) zero p q = p
differ-lt (suc zero) (suc zero) p q = omega arith
differ-lt (suc zero) (suc (suc y)) p q = absurd (omega arith)
differ-lt (suc (suc x)) y p q = absurd (omega arith)

pub bit_xor-half : (a b : ℕ) → bit_xor a b / 2 ≡ bit_xor (a / 2) (b / 2)
bit_xor-half zero b = simp bit_xor-bitwise (omega arith)
bit_xor-half (suc a) b = simp bit_xor-bitwise (
    omega (
      arith,
      lowest_digit (λ y. y) differ a b,
      differ-lt (suc a % 2) (b % 2) (omega arith) (omega arith),
    ))

div-pow-suc : (a k : ℕ) → a / 2 ^ suc k ≡ a / 2 / 2 ^ k
div-pow-suc a k = rw (div-div-eq-div-mul a 2 (2 ^ k), pow-suc, mul_comm 2 (2 ^ k))

-- An operation that commutes with halving commutes with every right shift.
module _ (op : ℕ → ℕ → ℕ) (halves : (a b : ℕ) → op a b / 2 ≡ op (a / 2) (b / 2)) where
  shifts : (k a b : ℕ) → op a b / 2 ^ k ≡ op (a / 2 ^ k) (b / 2 ^ k)
  shifts zero a b = simp div-one
  shifts (suc k) a b =
      div-pow-suc (op a b) k
      ∙ rw (halves a b, div-pow-suc a k, div-pow-suc b k) (shifts k (a / 2) (b / 2))

pub bit_xor-shift : (k a b : ℕ) → bit_xor a b / 2 ^ k ≡ bit_xor (a / 2 ^ k) (b / 2 ^ k)
bit_xor-shift = shifts bit_xor bit_xor-half

pub bit_and-shift : (k a b : ℕ) → bit_and a b / 2 ^ k ≡ bit_and (a / 2 ^ k) (b / 2 ^ k)
bit_and-shift = shifts bit_and bit_and-half

-- An operation that takes 0 and 0 to 0 and commutes with halving keeps every width.
module _ (op : ℕ → ℕ → ℕ) (zeros : op 0 0 ≡ 0)
    (halves : (a b : ℕ) → op a b / 2 ≡ op (a / 2) (b / 2)) where
  keeps_width : (k a b : ℕ) → a < 2 ^ k → b < 2 ^ k → op a b < 2 ^ k
  keeps_width zero zero zero p q = omega (arith, zeros)
  keeps_width zero zero (suc b) p q = absurd (omega arith)
  keeps_width zero (suc a) b p q = absurd (omega arith)
  keeps_width (suc k) a b p q =
      let twice = two-pow-succ k in
      let half = keeps_width k (a / 2) (b / 2) (omega arith) (omega arith) in
      omega (arith, halves a b)

pub bit_and-lt : (k a b : ℕ) → a < 2 ^ k → b < 2 ^ k → bit_and a b < 2 ^ k
bit_and-lt = keeps_width bit_and refl bit_and-half

pub bit_or-lt : (k a b : ℕ) → a < 2 ^ k → b < 2 ^ k → bit_or a b < 2 ^ k
bit_or-lt = keeps_width bit_or refl bit_or-half

pub bit_xor-lt : (k a b : ℕ) → a < 2 ^ k → b < 2 ^ k → bit_xor a b < 2 ^ k
bit_xor-lt = keeps_width bit_xor refl bit_xor-half
