-- ===== src/Base/Word.antt =====
-- Fixed-width unsigned arithmetic: a C word is a number below 2 ^ w, and every operation that
-- can leave the range wraps explicitly. Masks with `2 ^ k - 1` are remainders and shifts are
-- products and quotients by `2 ^ k`.
use Prim.Native.Nat.{ℕ, zero, suc, ◌+◌, ◌-◌, ◌*◌, ◌/◌, ◌%◌, ◌^◌}
use mathlib.Core.Bool.{Bool, true, false}
use mathlib.Core.List.{List, [], ◌∷◌}
use mathlib.Core.Path.{◌≡◌, fun_ext}
use mathlib.Core.Logic.{◌⊎◌, inl, inr, ◌≢◌}
use native.Mathlib.Omega.{arith}
use tortoise.Base.Tests.{◌==◌, if◌then◌else◌, Bool-cases, ==_iff}

abbrev pub u8 : ℕ → ℕ
u8 n = n % 2 ^ 8

abbrev pub u16 : ℕ → ℕ
u16 n = n % 2 ^ 16

abbrev pub u32 : ℕ → ℕ
u32 n = n % 2 ^ 32

abbrev pub u64 : ℕ → ℕ
u64 n = n % 2 ^ 64

-- uint32_t `a + b`, `a - b`, `~a`; the subtrahend is below 2 ^ 32.
abbrev pub add32 : ℕ → ℕ → ℕ
add32 a b = (a + b) % 2 ^ 32

abbrev pub sub32 : ℕ → ℕ → ℕ
sub32 a b = (a + 2 ^ 32 - b) % 2 ^ 32

abbrev pub not32 : ℕ → ℕ
not32 a = 2 ^ 32 - 1 - a

abbrev pub bit_of : Bool → ℕ
bit_of true = 1
bit_of false = 0

-- `x & (1 << k)` as a truth value.
abbrev pub has_bit : ℕ → ℕ → Bool
has_bit k x = x / 2 ^ k % 2 == 1

-- `x & ~0xFFF` and `x & 0xFFF`.
abbrev pub page_of : ℕ → ℕ
page_of x = x / 4096 * 4096

abbrev pub offset_of : ℕ → ℕ
offset_of x = x % 4096

-- (uint32_t)(int32_t)(int8_t)x and (uint32_t)(int32_t)(int16_t)x.
abbrev pub sext8 : ℕ → ℕ
sext8 x = if has_bit 7 x then x % 256 + (2 ^ 32 - 256) else x % 256

abbrev pub sext16 : ℕ → ℕ
sext16 x = if has_bit 15 x then x % 65536 + (2 ^ 32 - 65536) else x % 65536

-- Write one index of an array, or of any table that is a function of its index.
abbrev pub update {ℓ} : {A : Type ℓ} → (ℕ → A) → ℕ → A → ℕ → A
update f i v j = if j == i then v else f j

-- An updated table at an index: the index that was written, or another.
pub update_cases {ℓ} :
    {A : Type ℓ} (f : ℕ → A) (i : ℕ) (v : A) (j : ℕ)
    → ((j ≡ i) × (update f i v j ≡ v)) ⊎ ((j ≢ i) × (update f i v j ≡ f j))
update_cases f i v j = elim (Bool-cases (j == i)) [
  | inl e ↦ inl ((==_iff j i).0 e, rw e)
  | inr e ↦ inr (λ same. ground arith, rw e)
]

-- A second write of an index replaces the first.
pub update-update {ℓ} :
    {A : Type ℓ} (f : ℕ → A) (i : ℕ) (v w : A) → update (update f i v) i w ≡ update f i w
update-update f i v w = fun_ext λ j. elim (Bool-cases (j == i)) [ inl e ↦ rw e | inr e ↦ rw e ]

abbrev pub get_or {ℓ} : {A : Type ℓ} → List A → ℕ → A → A
get_or [] i d = d
get_or (x ∷ xs) zero d = x
get_or (x ∷ xs) (suc i) d = get_or xs i d
