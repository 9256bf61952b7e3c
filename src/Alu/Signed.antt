-- ===== src/Alu/Signed.antt =====
-- The signed divisions of `alu_div` of src/cpu.c.
use tortoise.Base.{
  ◌≡◌, refl, sym, ap, ◌∙◌, arith, ℕ, zero, suc, ==_iff, ◌+◌, ◌-◌, ◌*◌, ◌/◌, ◌%◌, ◌^◌, ◌≤◌, ◌<◌,
  none, some, ◌⊎◌, inl, inr, Bool, true, false, ◌&&◌, ◌==◌, Bool-cases,
}
use tortoise.Base.Int.{
  ℤ, pos, negsuc, ◌+ℤ◌, ◌*ℤ◌, pos_part, neg_part, magnitude, is_neg, with_sign, tdiv, tmod,
  signed32, wrap32,
}
use native.Mathlib.Nat.{div-add-mod', mod-lt, div-le_self, div-mul-le_self}
use tortoise.Alu.{Result, setzscv, alu_div, divided}

signed32-wrap32-pos :
    (n : ℕ) → n < 2 ^ 31 → signed32 (wrap32 (with_sign false n)) ≡ with_sign false n
signed32-wrap32-pos n h = ground arith

signed32-wrap32-neg : (n : ℕ) → n ≤ 2 ^ 31 → signed32 (wrap32 (with_sign true n)) ≡ with_sign true n
signed32-wrap32-neg n h = ground arith

pos_part-below : (n : ℕ) → pos_part (with_sign true n) ≡ 0
pos_part-below n = ground arith

neg_part-below : (n : ℕ) → neg_part (with_sign true n) ≡ n
neg_part-below n = ground arith

abbrev differ : Bool → Bool → Bool
differ true true = false
differ true false = true
differ false true = true
differ false false = false

-- A division of magnitudes, with the signs of C.
with_signs :
    (s t : Bool) (d n q r : ℕ)
    → q * n + r ≡ d
    → with_sign (differ s t) q *ℤ with_sign t n +ℤ with_sign s r ≡ with_sign s d
unfolding ◌+ℤ◌ ◌*ℤ◌
with_signs false false d n q r h = ground arith
with_signs false true d n q r h =
    rw (pos_part-below n, neg_part-below n, pos_part-below q, neg_part-below q) (ground arith)
with_signs true false d n q r h =
    rw (pos_part-below r, neg_part-below r, pos_part-below q, neg_part-below q) (ground arith)
with_signs true true d n q r h =
    rw (pos_part-below r, neg_part-below r, pos_part-below n, neg_part-below n) (ground arith)

-- An integer is its sign and its magnitude.
with_sign-parts : (a : ℤ) → with_sign (is_neg a) (magnitude a) ≡ a
with_sign-parts (pos n) = ground arith
with_sign-parts (negsuc n) = ground arith

magnitude-with_sign : (s : Bool) (n : ℕ) → magnitude (with_sign s n) ≡ n
magnitude-with_sign true n = ground arith
magnitude-with_sign false n = ground arith

is_neg-with_sign : (s : Bool) (n : ℕ) → (n ≡ 0) ⊎ (is_neg (with_sign s n) ≡ s)
is_neg-with_sign true n = ground arith
is_neg-with_sign false n = inr refl

wraps :
    (s : Bool) (n : ℕ)
    → n ≤ 2 ^ 31
    → (s ≡ true) ⊎ (n < 2 ^ 31)
    → signed32 (wrap32 (with_sign s n)) ≡ with_sign s n
wraps true n h either = signed32-wrap32-neg n h
wraps false n h (inl e) = absurd cc
wraps false n h (inr lt) = signed32-wrap32-pos n lt

magnitude-bound : (a : ℕ) → a < 2 ^ 32 → magnitude (signed32 a) ≤ 2 ^ 31
magnitude-bound a h = ground arith

positive-bound :
    (a : ℕ) → a < 2 ^ 32 → is_neg (signed32 a) ≡ false → magnitude (signed32 a) < 2 ^ 31
positive-bound a h e = ground arith

magnitude-zero : (b : ℕ) → b < 2 ^ 32 → (b == 0) ≡ false → 0 < magnitude (signed32 b)
magnitude-zero b h e = ground arith

tdiv-differ :
    (a b : ℤ) → tdiv a b ≡ with_sign (differ (is_neg a) (is_neg b)) (magnitude a / magnitude b)
unfolding tdiv
tdiv-differ (pos a) (pos b) = refl
tdiv-differ (pos a) (negsuc b) = refl
tdiv-differ (negsuc a) (pos b) = refl
tdiv-differ (negsuc a) (negsuc b) = refl

-- C's division of integers is one of their magnitudes.
tdiv-tmod : (a b : ℤ) → tdiv a b *ℤ b +ℤ tmod a b ≡ a
unfolding tmod
tdiv-tmod a b = rw (tdiv-differ a b) (
    ap
      (λ z.
        with_sign (differ (is_neg a) (is_neg b)) (magnitude a / magnitude b) *ℤ z
        +ℤ with_sign (is_neg a) (magnitude a % magnitude b))
      (sym (with_sign-parts b))
    ∙ with_signs (is_neg a) (is_neg b) (magnitude a) (magnitude b) _ _
        (div-add-mod' (magnitude a) (magnitude b))
    ∙ with_sign-parts a)

twice : (q n : ℕ) → 1 < n → q * 2 ≤ q * n
twice q zero h = absurd (omega arith)
twice q (suc zero) h = absurd (omega arith)
twice q (suc (suc n)) h = omega arith

quotient-small : (m n : ℕ) → m ≤ 2 ^ 31 → (m < 2 ^ 31) ⊎ (1 < n) → m / n < 2 ^ 31
quotient-small m n h (inl less) = omega (arith, div-le_self m n)
quotient-small m n h (inr more) = omega (arith, div-mul-le_self m n, twice (m / n) n more)

quotient-fits :
    (a b : ℕ)
    → a < 2 ^ 32
    → b < 2 ^ 32
    → (b == 0) ≡ false
    → (a == 0x8000_0000 && b == 0xFFFF_FFFF) ≡ false
    → (differ (is_neg (signed32 a)) (is_neg (signed32 b)) ≡ true)
      ⊎ ((magnitude (signed32 a) < 2 ^ 31) ⊎ (1 < magnitude (signed32 b)))
quotient-fits a b ha hb nonzero allowed = ground arith

-- The quotient and the remainder are 32-bit integers.
quotient-wraps :
    (a b : ℕ)
    → a < 2 ^ 32
    → b < 2 ^ 32
    → (b == 0) ≡ false
    → (a == 0x8000_0000 && b == 0xFFFF_FFFF) ≡ false
    → signed32 (wrap32 (tdiv (signed32 a) (signed32 b))) ≡ tdiv (signed32 a) (signed32 b)
quotient-wraps a b ha hb nonzero allowed =
    let m = magnitude (signed32 a) in
    let n = magnitude (signed32 b) in
    let most : m / n ≤ 2 ^ 31 = omega (arith, div-le_self m n, magnitude-bound a ha) in
    let fits : (differ (is_neg (signed32 a)) (is_neg (signed32 b)) ≡ true) ⊎ (m / n < 2 ^ 31) =
      elim (quotient-fits a b ha hb nonzero allowed) [
        | inl negative ↦ inl negative
        | inr small ↦ inr (quotient-small m n (magnitude-bound a ha) small)
      ] in
    ap (λ z. signed32 (wrap32 z)) (tdiv-differ (signed32 a) (signed32 b))
    ∙ wraps (differ (is_neg (signed32 a)) (is_neg (signed32 b))) (m / n) most fits
    ∙ sym (tdiv-differ (signed32 a) (signed32 b))

remainder-wraps :
    (a b : ℕ)
    → a < 2 ^ 32
    → b < 2 ^ 32
    → (b == 0) ≡ false
    → signed32 (wrap32 (tmod (signed32 a) (signed32 b))) ≡ tmod (signed32 a) (signed32 b)
unfolding tmod
remainder-wraps a b ha hb nonzero =
    let m = magnitude (signed32 a) in
    let n = magnitude (signed32 b) in
    let less : m % n < n = mod-lt m (magnitude-zero b hb nonzero) in
    let small : m % n < 2 ^ 31 = omega (arith, less, magnitude-bound b hb) in
    wraps (is_neg (signed32 a)) (m % n) (omega arith) (inr small)

zero-with_sign : (s : Bool) (n : ℕ) → n ≡ 0 → wrap32 (with_sign s n) ≡ 0
zero-with_sign true n e = ground arith
zero-with_sign false n e = ground arith

remainder-sign :
    (a b : ℕ)
    → a < 2 ^ 32
    → b < 2 ^ 32
    → (b == 0) ≡ false
    → (magnitude (signed32 (wrap32 (tmod (signed32 a) (signed32 b)))) < magnitude (signed32 b))
      × ((wrap32 (tmod (signed32 a) (signed32 b)) ≡ 0)
          ⊎ (is_neg (signed32 (wrap32 (tmod (signed32 a) (signed32 b)))) ≡ is_neg (signed32 a)))
unfolding tmod
remainder-sign a b ha hb nonzero =
    let m = magnitude (signed32 a) in
    let n = magnitude (signed32 b) in
    let s = is_neg (signed32 a) in
    let same = remainder-wraps a b ha hb nonzero in
    let size : magnitude (signed32 (wrap32 (tmod (signed32 a) (signed32 b)))) ≡ m % n =
      ap magnitude same ∙ magnitude-with_sign s (m % n) in
    let less : m % n < n = mod-lt m (magnitude-zero b hb nonzero) in
    (
      omega (arith, size, less),
      elim (is_neg-with_sign s (m % n)) [
        | inl nothing ↦ inl (zero-with_sign s (m % n) nothing)
        | inr sign ↦ inr (ap is_neg same ∙ sign)
      ],
    )

least_by_minus_one :
    (a b : ℕ)
    → (a == 0x8000_0000 && b == 0xFFFF_FFFF) ≡ true
    → (signed32 a ≡ negsuc (2 ^ 31 - 1)) × (signed32 b ≡ negsuc 0)
least_by_minus_one a b h = ground arith

-- IDIV and IMOD of words fail by 0 and where the least integer is divided by -1, whose quotient is
-- no 32-bit integer; otherwise both succeed, and as 32-bit integers the dividend is the quotient
-- times the divisor plus the remainder, which is nearer to 0 than the divisor and 0 or of the sign
-- of the dividend.
pub alu_div-signed :
    (flags a b : ℕ)
    → a < 2 ^ 32
    → b < 2 ^ 32
    → (((b ≡ 0) ⊎ ((signed32 a ≡ negsuc (2 ^ 31 - 1)) × (signed32 b ≡ negsuc 0)))
        × (alu_div flags 0 a b ≡ none)
        × (alu_div flags 2 a b ≡ none))
      ⊎ ((q r : Result) × (alu_div flags 0 a b ≡ some q)
          × (alu_div flags 2 a b ≡ some r)
          × (signed32 q.value *ℤ signed32 b +ℤ signed32 r.value ≡ signed32 a)
          × (magnitude (signed32 r.value) < magnitude (signed32 b))
          × ((r.value ≡ 0) ⊎ (is_neg (signed32 r.value) ≡ is_neg (signed32 a))))
unfolding alu_div divided
alu_div-signed flags a b ha hb = elim (Bool-cases (b == 0)) [
  | inl by_zero ↦ inl (inl ((==_iff b 0).0 by_zero), rw by_zero refl, rw by_zero refl)
  | inr nonzero ↦ elim (Bool-cases (a == 0x8000_0000 && b == 0xFFFF_FFFF)) [
    | inl least ↦
        inl (inr (least_by_minus_one a b least), rw (nonzero, least) refl, rw (nonzero, least) refl)
    | inr allowed ↦
        let (nearer, sign) = remainder-sign a b ha hb nonzero in
        inr (
          record { flags = setzscv flags (divided 0 a b) false false; value = divided 0 a b },
          record { flags = setzscv flags (divided 2 a b) false false; value = divided 2 a b },
          rw (nonzero, allowed) refl,
          rw (nonzero, allowed) refl,
          ap (λ z. z *ℤ signed32 b +ℤ signed32 (wrap32 (tmod (signed32 a) (signed32 b))))
                (quotient-wraps a b ha hb nonzero allowed)
              ∙ ap (λ z. tdiv (signed32 a) (signed32 b) *ℤ signed32 b +ℤ z)
                  (remainder-wraps a b ha hb nonzero)
              ∙ tdiv-tmod (signed32 a) (signed32 b),
          nearer,
          sign,
        )
  ]
]
