-- ===== src/Libc/Malloc/Partition.antt =====
-- What the blocks of lib/stdlib.c's allocator are made of.
use tortoise.Base.{
  ◌≡◌, refl, ap, ◌∙◌, arith, ℕ, ◌+◌, ◌-◌, ◌≤◌, inl, inr, true, ◌&&◌, List, [], ◌∷◌, none, some, ltb,
  leb, leb→le, ◌==◌, if◌then◌else◌, Bool-cases, Option-cases, ==_iff,
}
use mathlib.Core.Path.{subst}
use tortoise.Libc.Malloc.{Block, take_fit, Heap, before, behind, join, link, free}

-- 1 for an address in the block, and how many of some blocks an address is in.
abbrev pub holds : ℕ → Block → ℕ
holds x b = if leb b.addr x && ltb x (b.addr + b.size) then 1 else 0

abbrev pub owners : ℕ → List Block → ℕ
owners x [] = 0
owners x (b ∷ bs) = holds x b + owners x bs

pub holds-split :
    (x a m n : ℕ)
    → holds x (record { addr = a; size = m + n })
      ≡ holds x (record { addr = a; size = m }) + holds x (record { addr = a + m; size = n })
holds-split x a m n = ground arith

none_ne_some : {A : Type 0} (a : A) → none ≡ some a → ⊥
none_ne_some a h = cc

some-injective : {A : Type 0} {a b : A} → some a ≡ some b → a ≡ b
some-injective h = cc

abbrev pub Taken : ℕ → ℕ → List Block → Block × List Block → Type 0
Taken x need bs r = (owners x bs ≡ holds x r.0 + owners x r.1) × (need ≤ r.0.size)

Taken-later :
    (x need : ℕ) (c : Block) (cs : List Block) (r : Block × List Block)
    → Taken x need cs r
    → Taken x need (c ∷ cs) (r.0, c ∷ r.1)
Taken-later x need c cs r (e, h) = (omega (arith, e), h)

Taken-split :
    (x need : ℕ) (c : Block) (cs : List Block)
    → leb need c.size ≡ true
    → Taken x need
        (c ∷ cs)
        (record c { size = need }, record { addr = c.addr + need; size = c.size - need } ∷ cs)
Taken-split x need c cs fits = (
  omega (
    arith,
    holds-split x c.addr need (c.size - need),
    ap (λ n. holds x (record c { size = n })) (whole c.size (leb→le _ _ fits)),
  ),
  omega arith,
)
  where
    whole : (n : ℕ) → need ≤ n → need + (n - need) ≡ n
    whole n h = omega arith

pub take_fit-Taken :
    (x need : ℕ) (bs : List Block) (r : Block × List Block)
    → take_fit need bs ≡ some r
    → Taken x need bs r
unfolding take_fit
take_fit-Taken x need [] r e = absurd (none_ne_some r e)
take_fit-Taken x need (c ∷ cs) r e = elim (Bool-cases (leb need c.size)) [
  | inl fits ↦ elim (Bool-cases (leb 32 (c.size - need))) [
    | inl rest ↦
        subst (Taken x need (c ∷ cs)) (some-injective (rw (fits, rest) at e))
          (Taken-split x need c cs fits)
    | inr whole ↦
        subst (Taken x need (c ∷ cs)) (some-injective (rw (fits, whole) at e))
          (refl, leb→le _ _ fits)
  ]
  | inr short ↦ elim (Option-cases (take_fit need cs)) [
    | inl nothing ↦ absurd (none_ne_some r (rw (short, nothing) at e))
    | inr (r', found) ↦
        subst (Taken x need (c ∷ cs)) (some-injective (rw (short, found) at e))
          (Taken-later x need c cs r' (take_fit-Taken x need cs r' found))
  ]
]

owners-join : (x : ℕ) (b : Block) (bs : List Block) → owners x (join b bs) ≡ holds x b + owners x bs
unfolding join
owners-join x b [] = refl
owners-join x b (c ∷ cs) = elim (Bool-cases (b.addr + b.size == c.addr)) [
  | inl e ↦ rw e (
      omega (
        arith,
        holds-split x b.addr b.size c.size,
        ap (λ a. holds x (record c { addr = a })) ((==_iff _ _).0 e),
      ))
  | inr e ↦ rw e refl
]

owners-link : (x : ℕ) (ps l : List Block) → owners x (link ps l) ≡ owners x ps + owners x l
unfolding link
owners-link x [] l = omega arith
owners-link x (p ∷ []) l = owners-join x p l ∙ omega arith
owners-link x (p ∷ q ∷ ps) l = omega (arith, owners-link x (q ∷ ps) l)

owners-before :
    (x a : ℕ) (bs : List Block) → owners x (before a bs) + owners x (behind a bs) ≡ owners x bs
unfolding before behind
owners-before x a [] = refl
owners-before x a (b ∷ bs) = elim (Bool-cases (ltb b.addr a)) [
  | inl e ↦ rw e (omega (arith, owners-before x a bs))
  | inr e ↦ rw e (omega arith)
]

pub owners-free :
    (x : ℕ) (b : Block) (h : Heap)
    → owners x (free b h).free_list ≡ holds x b + owners x h.free_list
unfolding free
owners-free x b h = omega (
  arith,
  owners-link x (before b.addr h.free_list) (join b (behind b.addr h.free_list)),
  owners-join x b (behind b.addr h.free_list),
  owners-before x b.addr h.free_list,
)
