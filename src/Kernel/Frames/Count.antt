-- ===== src/Kernel/Frames/Count.antt =====
-- Counting the free frames of os/kernel/mm.c.
use tortoise.Base.{
  ◌≡◌, refl, arith, ℕ, zero, suc, ◌+◌, ◌≤◌, ◌<◌, inl, inr, Bool, true, false, ◌==◌, if◌then◌else◌,
  Bool-cases, update,
}

-- How many of the first `n` frames have a clear bit.
abbrev pub clear_below : ℕ → (ℕ → Bool) → ℕ
clear_below zero bits = 0
clear_below (suc n) bits = (if bits n then 0 else 1) + clear_below n bits

clear-update_above :
    (n i : ℕ) (v : Bool) (bits : ℕ → Bool)
    → n ≤ i
    → clear_below n (update bits i v) ≡ clear_below n bits
clear-update_above zero i v bits h = refl
clear-update_above (suc n) i v bits h =
    let other : (n == i) ≡ false = ground arith in
    rw (other, clear-update_above n i v bits (omega arith)) refl

-- Setting a clear bit makes one frame fewer free, and clearing a set bit one more.
pub clear-set :
    (n i : ℕ) (bits : ℕ → Bool)
    → i < n
    → bits i ≡ false
    → suc (clear_below n (update bits i true)) ≡ clear_below n bits
clear-set zero i bits h free = absurd (omega arith)
clear-set (suc n) i bits h free = elim (Bool-cases (n == i)) [
  | inl e ↦
      let same : n ≡ i = ground arith in
      let above = clear-update_above n i true bits (omega arith) in
      let here : bits n ≡ false = rw same free in rw (e, here) (omega (arith, above))
  | inr e ↦ let rest = clear-set n i bits (ground arith) free in rw e (omega (arith, rest))
]

pub clear-reset :
    (n i : ℕ) (bits : ℕ → Bool)
    → i < n
    → bits i ≡ true
    → clear_below n (update bits i false) ≡ suc (clear_below n bits)
clear-reset zero i bits h busy = absurd (omega arith)
clear-reset (suc n) i bits h busy = elim (Bool-cases (n == i)) [
  | inl e ↦
      let same : n ≡ i = ground arith in
      let above = clear-update_above n i false bits (omega arith) in
      let here : bits n ≡ true = rw same busy in rw (e, here) (omega (arith, above))
  | inr e ↦ let rest = clear-reset n i bits (ground arith) busy in rw e (omega (arith, rest))
]

pub clear_below-le : (n : ℕ) (bits : ℕ → Bool) → clear_below n bits ≤ n
clear_below-le zero bits = omega arith
clear_below-le (suc n) bits = let rest = clear_below-le n bits in ground arith

-- When every bit is set, no frame is free.
pub clear-none :
    (n : ℕ) (bits : ℕ → Bool) → ((i : ℕ) → i < n → bits i ≡ true) → clear_below n bits ≡ 0
clear-none zero bits h = refl
clear-none (suc n) bits h =
    let rest = clear-none n bits (λ i lt. h i (omega arith)) in
    rw (h n (omega arith)) (omega (arith, rest))
