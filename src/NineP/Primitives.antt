-- ===== src/NineP/Primitives.antt =====
-- What the primitives of lib/9pconv.c read back of what they wrote.
use tortoise.Base.{
  ◌≡◌, ◌≢◌, refl, ap, arith, ℕ, suc, ◌+◌, ◌*◌, ◌/◌, ◌^◌, ◌≤◌, ◌<◌, false, List, [], ◌∷◌, ◌++◌, some,
  le→ltb, ◌==◌, u8, length, take-append, drop-append, length-append, All,
}
use tortoise.NineP.{Qid, p8, p16, p32, pstr, pqid, g8, g16, g32, gn, gstr, gqid, until_nul}

-- A string that a message can carry: bytes, none of them NUL, fewer than 65536.
pub record IsString (s : List ℕ) : Type 0 where
  pub no_nul : All (λ c. c ≢ 0) s
  pub short : length s < 2 ^ 16

-- The ranges of the fields of a qid.
pub record IsQid (q : Qid) : Type 0 where
  pub qtype_range : q.qtype < 2 ^ 8
  pub vers_range : q.vers < 2 ^ 32
  pub path_range : q.path < 2 ^ 32
  pub pathhi_range : q.pathhi < 2 ^ 32

pub gn-enough : {p : List ℕ} {k : ℕ} → k ≤ length p → gn p k ≡ some p
unfolding gn
gn-enough {p} {k} h = rw (le→ltb (length p) k h) refl

bytes16 : (v : ℕ) → v < 2 ^ 16 → u8 v + u8 (v / 2 ^ 8) * 2 ^ 8 ≡ v
bytes16 v h = omega arith

bytes32 :
    (v : ℕ)
    → v < 2 ^ 32
    → u8 v + u8 (v / 2 ^ 8) * 2 ^ 8 + u8 (v / 2 ^ 16) * 2 ^ 16 + u8 (v / 2 ^ 24) * 2 ^ 24 ≡ v
bytes32 v h = omega arith

pub g8-p8 : (v : ℕ) (r : List ℕ) → v < 2 ^ 8 → g8 (p8 v ++ r) ≡ v
unfolding g8 p8
g8-p8 v r h = omega arith

pub g16-p16 : (v : ℕ) (r : List ℕ) → v < 2 ^ 16 → g16 (p16 v ++ r) ≡ v
unfolding g16 p16
g16-p16 v r h = bytes16 v h

pub g32-p32 : (v : ℕ) (r : List ℕ) → v < 2 ^ 32 → g32 (p32 v ++ r) ≡ v
unfolding g32 p32
g32-p32 v r h = bytes32 v h

until_nul-id : (s : List ℕ) → All (λ c. c ≢ 0) s → until_nul s ≡ s
unfolding until_nul
until_nul-id [] h = refl
until_nul-id (c ∷ cs) (h, hs) =
    let more : (c == 0) ≡ false = ground arith in rw more (ap (λ l. c ∷ l) (until_nul-id cs hs))

pub gstr-pstr : {s r : List ℕ} → IsString s → gstr (pstr s ++ r) ≡ some (s, r)
unfolding gstr pstr p16
gstr-pstr {s} {r} h =
    let n : g16 (u8 (length s) ∷ u8 (length s / 2 ^ 8) ∷ s ++ r) ≡ length s =
      g16-p16 (length s) (s ++ r) h.short in
    let long = length-append s r in
    rw
      (
        n,
        le→ltb (suc (suc (length (s ++ r)))) 2 (omega arith),
        le→ltb (suc (suc (length (s ++ r)))) (2 + length s) (omega (arith, long)),
        take-append s r,
        drop-append s r,
        until_nul-id s h.no_nul,
      )
      refl

pub gqid-pqid : {q : Qid} {r : List ℕ} → IsQid q → gqid (pqid q ++ r) ≡ some (q, r)
unfolding gqid pqid p8 p32
gqid-pqid {q} {r} h =
    rw
      (
        le→ltb (length (pqid q ++ r)) 13 (omega arith),
        g8-p8 q.qtype _ h.qtype_range,
        g32-p32 q.vers _ h.vers_range,
        g32-p32 q.path _ h.path_range,
        g32-p32 q.pathhi r h.pathhi_range,
      )
      refl
