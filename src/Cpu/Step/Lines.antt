-- ===== src/Cpu/Step/Lines.antt =====
-- The choice of the interrupt line in `step_one` of src/cpu.c.
use tortoise.Base.{
  ◌≡◌, ◌≢◌, sym, ap, ◌∙◌, arith, ℕ, zero, suc, ◌+◌, ◌/◌, ◌%◌, ◌^◌, ◌<◌, inl, inr, true, false, ◌==◌,
  has_bit, Bool-cases,
}
use native.Mathlib.Nat.{div-div-eq-div-mul, pow-succ'}
use tortoise.Cpu.Step.{lowest_line}

-- The line `k` is pending, and no line before it.
pub record IsLowest (p k : ℕ) : Type 0 where
  pub pending : has_bit k p ≡ true
  pub none_before : (j : ℕ) → j < k → has_bit j p ≡ false

has_bit-suc : (k p : ℕ) → has_bit (suc k) p ≡ has_bit k (p / 2)
has_bit-suc k p =
    ap (λ d. d % 2 == 1) (ap (λ e. p / e) (pow-succ' 2 k) ∙ sym (div-div-eq-div-mul p 2 (2 ^ k)))

IsLowest-zero : (p : ℕ) → has_bit 0 p ≡ true → IsLowest p 0
IsLowest-zero p h = record { pending = h; none_before = λ j lt. absurd (omega arith) }

IsLowest-suc : (p k : ℕ) → has_bit 0 p ≡ false → IsLowest (p / 2) k → IsLowest p (suc k)
IsLowest-suc p k h l = record { pending = has_bit-suc k p ∙ l.pending; none_before = before }
  where
    before : (j : ℕ) → j < suc k → has_bit j p ≡ false
    before zero lt = h
    before (suc j) lt = has_bit-suc j p ∙ l.none_before j (omega arith)

even_half : (p : ℕ) → p ≢ 0 → has_bit 0 p ≡ false → p / 2 ≢ 0
even_half p nonzero h = ground arith

half_small : (rounds p : ℕ) → p < 2 ^ suc rounds → p / 2 < 2 ^ rounds
half_small rounds p h = omega (arith, pow-succ' 2 rounds)

-- For pending lines that are not 0 and fit the rounds, the loop ends at the lowest pending line:
-- its result is the start value and the number of that line, which is pending while none before
-- it is.
pub lowest_line_lem :
    (rounds p n : ℕ)
    → p ≢ 0
    → p < 2 ^ rounds
    → (k : ℕ) × (lowest_line rounds p n ≡ n + k) × (k < rounds) × IsLowest p k
unfolding lowest_line
lowest_line_lem zero p n nonzero small = absurd (omega arith)
lowest_line_lem (suc rounds) p n nonzero small = elim (Bool-cases (has_bit 0 p)) [
  | inl here ↦ (0, rw here (omega arith), omega arith, IsLowest-zero p here)
  | inr later ↦
      let (k, ends, within, lowest) =
        lowest_line_lem rounds (p / 2) (n + 1) (even_half p nonzero later)
          (half_small rounds p small) in
      (suc k, rw later (ends ∙ omega arith), omega arith, IsLowest-suc p k later lowest)
]
