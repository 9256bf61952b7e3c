-- ===== src/NineP.antt =====
-- The messages of the file protocol, lib/9pconv.c: the primitives that put and get numbers, strings
-- and qids. A pointer into a buffer is the list of the bytes from it to the end, so that `p + k > end`
-- is a test of the length; the null pointer is `none`. A string is its bytes before the NUL.
pub mod Message
pub mod Encode
pub mod Decode
pub mod Primitives
pub mod Carried
pub mod Pieces
pub mod Fields
pub mod Size
pub mod RoundTrip
pub mod Stat
pub mod StatRoundTrip
use tortoise.Base.{
  ℕ, ◌+◌, ◌*◌, ◌/◌, ◌%◌, ◌^◌, List, [], ◌∷◌, ◌++◌, Option, none, some, ltb, ◌==◌, if◌then◌else◌, u8,
  u16, get_or, length, take, drop,
}

-- A step of a conversion that can give up.
infixl 5 ◌>>=◌
abbrev pub ◌>>=◌ {ℓ κ} : {A : Type ℓ} {B : Type κ} → Option A → (A → Option B) → Option B
none >>= f = none
some a >>= f = f a

-- `Qid`; the name of its type field in the source is `type`.
pub record Qid : Type 0 where
  pub qtype : ℕ
  pub vers : ℕ
  pub path : ℕ
  pub pathhi : ℕ

unfoldable pub p8 : ℕ → List ℕ
p8 v = u8 v ∷ []

unfoldable pub p16 : ℕ → List ℕ
p16 v = u8 v ∷ u8 (v / 2 ^ 8) ∷ []

unfoldable pub p32 : ℕ → List ℕ
p32 v = u8 v ∷ u8 (v / 2 ^ 8) ∷ u8 (v / 2 ^ 16) ∷ u8 (v / 2 ^ 24) ∷ []

unfoldable pub pstr : List ℕ → List ℕ
unfolding p16
pstr s = p16 (length s) ++ s

unfoldable pub pqid : Qid → List ℕ
unfolding p8 p32
pqid q = p8 q.qtype ++ p32 q.vers ++ p32 q.path ++ p32 q.pathhi

-- Bytes do not overlap, so `|` of their shifts is their sum.
unfoldable pub g8 : List ℕ → ℕ
g8 p = get_or p 0 0

unfoldable pub g16 : List ℕ → ℕ
g16 p = get_or p 0 0 + get_or p 1 0 * 2 ^ 8

unfoldable pub g32 : List ℕ → ℕ
g32 p = get_or p 0 0 + get_or p 1 0 * 2 ^ 8 + get_or p 2 0 * 2 ^ 16 + get_or p 3 0 * 2 ^ 24

unfoldable pub gn : List ℕ → ℕ → Option (List ℕ)
gn p k = if ltb (length p) k then none else some p

-- The string in some bytes: those before the first NUL.
unfoldable pub until_nul : List ℕ → List ℕ
until_nul [] = []
until_nul (c ∷ cs) = if c == 0 then [] else c ∷ until_nul cs

-- The string, and the pointer behind it.
unfoldable pub gstr : List ℕ → Option (List ℕ × List ℕ)
unfolding g16 until_nul
gstr p =
    if ltb (length p) 2
    then none
    else if ltb (length p) (2 + g16 p)
    then none
    else some (until_nul (take (g16 p) (drop 2 p)), drop (g16 p) (drop 2 p))

unfoldable pub gqid : List ℕ → Option (Qid × List ℕ)
unfolding g8 g32
gqid p =
    if ltb (length p) 13
    then none
    else some (
      record {
        qtype = g8 p;
        vers = g32 (drop 1 p);
        path = g32 (drop 5 p);
        pathhi = g32 (drop 9 p);
      },
      drop 13 p,
    )
