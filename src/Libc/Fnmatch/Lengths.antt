-- ===== src/Libc/Fnmatch/Lengths.antt =====
-- The rest of a pattern of lib/fnmatch.c behind a bracket or stars is not longer.
use tortoise.Base.{
  ◌≡◌, arith, ℕ, ◌≤◌, inl, inr, Bool, true, false, ◌&&◌, ◌||◌, List, [], ◌∷◌, Option, none, some,
  leb, ◌==◌, ◌!=◌, if◌then◌else◌, Bool-cases, length,
}
use mathlib.Core.Path.{subst}
use tortoise.Libc.Fnmatch.{bracket_items, bracket_set, bracket, skip_stars}

-- The rest of a result is at most so long.
abbrev AtMost : ℕ → Option (Bool × List ℕ) → Type 0
AtMost n none = Unit
AtMost n (some (ok, q)) = length q ≤ n

AtMost-weaken : (m n : ℕ) (o : Option (Bool × List ℕ)) → m ≤ n → AtMost m o → AtMost n o
AtMost-weaken m n none le h = tt
AtMost-weaken m n (some (ok, q)) le h = omega (arith, le, h)

AtMost-if :
    (n : ℕ) (b : Bool) (o o' : Option (Bool × List ℕ))
    → AtMost n o
    → AtMost n o'
    → AtMost n (if b then o else o')
AtMost-if n true o o' h h' = h
AtMost-if n false o o' h h' = h'

bracket_items-AtMost :
    (neg : Bool) (c : ℕ) (hit : Bool) (p : List ℕ) → AtMost (length p) (bracket_items neg c hit p)
unfolding bracket_items
bracket_items-AtMost neg c hit [] = tt
bracket_items-AtMost neg c hit (a ∷ []) = AtMost-if _ (a == 93) _ none (omega arith) tt
bracket_items-AtMost neg c hit (a ∷ b ∷ []) = AtMost-if _ (a == 93) _ _ (omega arith) (
    AtMost-weaken 1 2 (bracket_items neg c (hit || c == a) (b ∷ [])) (omega arith)
      (bracket_items-AtMost neg c (hit || c == a) (b ∷ [])))
bracket_items-AtMost neg c hit (a ∷ b ∷ d ∷ p) = AtMost-if _ (a == 93) _ _ (omega arith) (
    AtMost-if _ (b == 45 && d != 93) _ _
      (AtMost-weaken (length p) _ _ (omega arith)
        (bracket_items-AtMost neg c (hit || (leb a c && leb c d)) p))
      (AtMost-weaken (length (b ∷ d ∷ p)) _ _ (omega arith)
        (bracket_items-AtMost neg c (hit || c == a) (b ∷ d ∷ p))))

bracket_set-AtMost : (neg : Bool) (c : ℕ) (p : List ℕ) → AtMost (length p) (bracket_set neg c p)
unfolding bracket_set
bracket_set-AtMost neg c [] = tt
bracket_set-AtMost neg c (a ∷ p) =
    AtMost-if _ (a == 93) _ _
      (AtMost-weaken (length p) _ _ (omega arith) (bracket_items-AtMost neg c (c == 93) p))
      (bracket_items-AtMost neg c false (a ∷ p))

bracket-AtMost : (c : ℕ) (p : List ℕ) → AtMost (length p) (bracket c p)
unfolding bracket
bracket-AtMost c [] = tt
bracket-AtMost c (a ∷ p) =
    AtMost-if _ (a == 33 || a == 94) _ _
      (AtMost-weaken (length p) _ _ (omega arith) (bracket_set-AtMost true c p))
      (bracket_set-AtMost false c (a ∷ p))

pub bracket-shorter :
    (c : ℕ) (p : List ℕ) (ok : Bool) (q : List ℕ) → bracket c p ≡ some (ok, q) → length q ≤ length p
bracket-shorter c p ok q e = subst (AtMost (length p)) e (bracket-AtMost c p)

pub skip_stars-shorter : (p : List ℕ) → length (skip_stars p) ≤ length p
unfolding skip_stars
skip_stars-shorter [] = omega arith
skip_stars-shorter (a ∷ p) = elim (Bool-cases (a == 42)) [
  | inl star ↦ rw star (omega (arith, skip_stars-shorter p))
  | inr other ↦ rw other (omega arith)
]
