-- ===== src/Alu.antt =====
-- The arithmetic of src/cpu.c: `set_flags` of the 16-bit instructions, `setzscv` and the `alu_*`
-- routines of the 32-bit ones, and the branch conditions. In C they set `cpu.flags` and touch no
-- other field: here each takes the old flags and returns the new ones with its result. Flags are
-- Z = 1, C = 2, S = 4, V = 8.
pub mod Flags
pub mod Add
pub mod Compare
pub mod Divide
pub mod Signed
use tortoise.Base.{
  ℕ, zero, suc, ◌+◌, ◌-◌, ◌*◌, ◌/◌, ◌%◌, ◌^◌, bit_and, bit_or, bit_xor, Bool, false, not, ◌&&◌,
  ◌||◌, differs, Option, none, some, ltb, ◌==◌, ◌!=◌, if◌then◌else◌, u32, sub32, not32, bit_of,
  has_bit,
}
use tortoise.Base.Int.{◌*ℤ◌, tdiv, tmod, eq_ℤ, signed32, wrap32, wrap64}

-- The new `cpu.flags` and the value that the routine returns.
pub record Result : Type 0 where
  pub flags : ℕ
  pub value : ℕ

abbrev pub flag_bits : Bool → Bool → Bool → Bool → ℕ
flag_bits z c s v = bit_of z + 2 * bit_of c + 4 * bit_of s + 8 * bit_of v

-- The flags of a 16-bit addition or subtraction, from the operands and the unmasked result.
unfoldable pub set_flags : ℕ → ℕ → ℕ → Bool → ℕ
set_flags a b result is_sub =
    let r16 = result % 65536 in
    let sa = a / 2 ^ 15 % 2 in
    let sb = b / 2 ^ 15 % 2 in
    let sr = r16 / 2 ^ 15 % 2 in
    flag_bits (r16 == 0) (if is_sub then ltb a b else ltb 0xFFFF result) (has_bit 15 r16)
      (if is_sub then sa != sb && sr != sa else sa == sb && sr != sa)

unfoldable pub setzscv : ℕ → ℕ → Bool → Bool → ℕ
setzscv flags r c v = flags / 16 * 16 + flag_bits (r == 0) c (has_bit 31 r) v

-- Z and S are set from `r`; C, V and the high half stay.
unfoldable pub setzs : ℕ → ℕ → ℕ
setzs flags r =
    flags / 16 * 16 + flag_bits (r == 0) (has_bit 1 flags) (has_bit 31 r) (has_bit 3 flags)

unfoldable pub alu_add : ℕ → ℕ → ℕ → ℕ → Result
alu_add flags a b c =
    let s = a + b + c in
    let r = u32 s in
    let v = bit_and (not32 (bit_xor a b)) (bit_xor a r) / 2 ^ 31 % 2 in
    record { flags = setzscv flags r (s / 2 ^ 32 != 0) (v != 0); value = r }

unfoldable pub alu_sub : ℕ → ℕ → ℕ → ℕ → Result
alu_sub flags a b c =
    let r = sub32 (sub32 a b) c in
    let v = bit_and (bit_xor a b) (bit_xor a r) / 2 ^ 31 % 2 in
    record { flags = setzscv flags r (ltb a (b + c)) (v != 0); value = r }

-- The five kinds of shift: 0 left, 1 right, 2 arithmetic right, 3 rotate left, 4 rotate right.
-- `shifted kind a n` is `r` and the carry `c` of the switch, for a count from 1 to 31.
unfoldable pub shifted : ℕ → ℕ → ℕ → ℕ × Bool
shifted zero a n = (u32 (a * 2 ^ n), a / 2 ^ (32 - n) % 2 != 0)
shifted (suc zero) a n = (a / 2 ^ n, a / 2 ^ (n - 1) % 2 != 0)
shifted (suc (suc zero)) a n = (
  if has_bit 31 a then a / 2 ^ n + (2 ^ 32 - 2 ^ (32 - n)) else a / 2 ^ n,
  a / 2 ^ (n - 1) % 2 != 0,
)
shifted (suc (suc (suc zero))) a n =
    let r = bit_or (u32 (a * 2 ^ n)) (a / 2 ^ (32 - n)) in (r, r % 2 != 0)
shifted (suc (suc (suc (suc k)))) a n =
    let r = bit_or (a / 2 ^ n) (u32 (a * 2 ^ (32 - n))) in (r, r / 2 ^ 31 != 0)

unfoldable pub alu_shift : ℕ → ℕ → ℕ → ℕ → Result
alu_shift flags kind a count =
    let n = count % 32 in
    let (r, c) = shifted kind a n in
    if n == 0
    then record { flags = setzs flags a; value = a }
    else record { flags = setzscv flags r c false; value = r }

unfoldable pub alu_imul : ℕ → ℕ → ℕ → Result
alu_imul flags a b =
    let p = signed32 a *ℤ signed32 b in
    let r = wrap32 p in
    let ov = not (eq_ℤ p (signed32 r)) in record { flags = setzscv flags r ov ov; value = r }

unfoldable pub alu_mulh : ℕ → ℕ → ℕ → Bool → Result
alu_mulh flags a b sgn =
    let r = if sgn then wrap64 (signed32 a *ℤ signed32 b) / 2 ^ 32 else a * b / 2 ^ 32 in
    record { flags = setzscv flags r false false; value = r }

-- The `default` of the switch over register pairs: MUL32 of two registers.
unfoldable pub mul32r : ℕ → ℕ → ℕ → Result
mul32r flags a b =
    let p = a * b in
    let r = u32 p in
    record { flags = setzscv flags r (p / 2 ^ 32 != 0) (p / 2 ^ 32 != 0); value = r }

-- The quotients and remainders of `alu_div`: 0 signed quotient, 1 unsigned remainder, 2 signed
-- remainder, 3 unsigned quotient.
unfoldable pub divided : ℕ → ℕ → ℕ → ℕ
divided zero a b = wrap32 (tdiv (signed32 a) (signed32 b))
divided (suc zero) a b = a % b
divided (suc (suc zero)) a b = wrap32 (tmod (signed32 a) (signed32 b))
divided (suc (suc (suc k))) a b = a / b

-- `none` where C calls `div_error` and returns 0.
unfoldable pub alu_div : ℕ → ℕ → ℕ → ℕ → Option Result
alu_div flags kind a b =
    if b == 0 || (kind != 1 && kind != 3 && a == 0x8000_0000 && b == 0xFFFF_FFFF)
    then none
    else (let r = divided kind a b in
        some (record { flags = setzscv flags r false false; value = r }))

-- The conditions of BEQ to BVC, by the branch's place among the opcodes from 0x45 on.
pub data Cond : Type 0 where
  beq bne blt bge ble bgt blo bhs bls bhi bmi bpl bvs bvc : Cond

unfoldable pub cond : ℕ → Cond → Bool
cond flags beq = has_bit 0 flags
cond flags bne = not (has_bit 0 flags)
cond flags blt = differs (has_bit 2 flags) (has_bit 3 flags)
cond flags bge = not (differs (has_bit 2 flags) (has_bit 3 flags))
cond flags ble = has_bit 0 flags || differs (has_bit 2 flags) (has_bit 3 flags)
cond flags bgt = not (has_bit 0 flags) && not (differs (has_bit 2 flags) (has_bit 3 flags))
cond flags blo = has_bit 1 flags
cond flags bhs = not (has_bit 1 flags)
cond flags bls = has_bit 1 flags || has_bit 0 flags
cond flags bhi = not (has_bit 1 flags) && not (has_bit 0 flags)
cond flags bmi = has_bit 2 flags
cond flags bpl = not (has_bit 2 flags)
cond flags bvs = has_bit 3 flags
cond flags bvc = not (has_bit 3 flags)
