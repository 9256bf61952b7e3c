-- ===== src/Kernel/Ring.antt =====
-- A ring of 512 bytes between two 32-bit counters that only go up, as the pipes of os/kernel/file.c
-- and the terminals of os/kernel/tty.c have: the bytes from one counter on.
use tortoise.Base.{
  ◌≡◌, refl, ap, ◌∙◌, arith, ℕ, zero, suc, ◌+◌, ◌-◌, ◌%◌, ◌^◌, ◌≤◌, ◌<◌, true, false, List, [], ◌∷◌,
  ◌++◌, ◌==◌, update, u32, length,
}

-- The `n` bytes from the counter `r` on.
unfoldable pub contents : (ℕ → ℕ) → ℕ → ℕ → List ℕ
contents buf r zero = []
contents buf r (suc n) = buf (r % 512) ∷ contents buf (u32 (r + 1)) n

-- A write `k` places behind the counter leaves the `n` bytes before it.
pub contents-update :
    (n r k c : ℕ) (buf : ℕ → ℕ)
    → n ≤ k
    → k < 512
    → contents (update buf (u32 (r + k) % 512) c) r n ≡ contents buf r n
unfolding contents
contents-update zero r k c buf h short = refl
contents-update (suc n) r k c buf h short =
    let away : (r % 512 == u32 (r + k) % 512) ≡ false = places_differ r k (omega arith) short in
    let place : u32 (r + k) ≡ u32 (u32 (r + 1) + (k - 1)) = omega arith in
    let rest =
      ap (λ p. contents (update buf (p % 512) c) (u32 (r + 1)) n) place
      ∙ contents-update n (u32 (r + 1)) (k - 1) c buf (omega arith) (omega arith) in
    rw away (ap (λ l. buf (r % 512) ∷ l) rest)
  where
    places_differ : (r k : ℕ) → 0 < k → k < 512 → (r % 512 == u32 (r + k) % 512) ≡ false
    places_differ r k some_way short = ground arith

pub contents-last :
    (n r : ℕ) (buf : ℕ → ℕ)
    → contents buf r (suc n) ≡ contents buf r n ++ buf (u32 (r + n) % 512) ∷ []
unfolding contents
contents-last zero r buf = let place : u32 (r + 0) % 512 ≡ r % 512 = omega arith in rw place refl
contents-last (suc n) r buf =
    let place : u32 (r + suc n) % 512 ≡ u32 (u32 (r + 1) + n) % 512 = omega arith in
    rw place (ap (λ l. buf (r % 512) ∷ l) (contents-last n (u32 (r + 1)) buf))

-- A byte behind the others.
pub contents-push :
    (n r c : ℕ) (buf : ℕ → ℕ)
    → n < 512
    → contents (update buf (u32 (r + n) % 512) c) r (suc n) ≡ contents buf r n ++ c ∷ []
contents-push n r c buf h =
    let here : (u32 (r + n) % 512 == u32 (r + n) % 512) ≡ true = ground arith in
    contents-last n r (update buf (u32 (r + n) % 512) c)
    ∙ rw (here, contents-update n r n c buf (omega arith) h) refl

pub length-contents : (n r : ℕ) (buf : ℕ → ℕ) → length (contents buf r n) ≡ n
unfolding contents
length-contents zero r buf = refl
length-contents (suc n) r buf = ap suc (length-contents n (u32 (r + 1)) buf)

-- The bytes up to one counter and those from there on.
pub contents-append :
    (m n r : ℕ) (buf : ℕ → ℕ)
    → r < 2 ^ 32
    → contents buf r (m + n) ≡ contents buf r m ++ contents buf (u32 (r + m)) n
unfolding contents
contents-append zero n r buf h =
    let place : u32 (r + 0) ≡ r = omega arith in
    let sum : 0 + n ≡ n = omega arith in rw (place, sum) refl
contents-append (suc m) n r buf h =
    let place : u32 (r + suc m) ≡ u32 (u32 (r + 1) + m) = omega arith in
    let sum : suc m + n ≡ suc (m + n) = omega arith in
    rw (place, sum)
      (ap (λ l. buf (r % 512) ∷ l) (contents-append m n (u32 (r + 1)) buf (omega arith)))
