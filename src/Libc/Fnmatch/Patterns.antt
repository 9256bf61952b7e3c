-- ===== src/Libc/Fnmatch/Patterns.antt =====
-- What a pattern of lib/fnmatch.c matches, as rules.
use tortoise.Base.{
  ◌≡◌, ℕ, Bool, true, false, not, ◌&&◌, ◌||◌, List, [], ◌∷◌, ◌++◌, none, some, ◌==◌,
}
use tortoise.Libc.Fnmatch.{Flags, bracket, skip_stars, separates, hides, is_end}

-- A byte of a pattern that stands for itself, given what follows it.
abbrev pub is_plain : Flags → ℕ → List ℕ → Bool
is_plain f a p =
    not (a == 42) && not (a == 63) && not (a == 91) && (not (a == 92) || f.no_escape || is_end p)

-- The string has no byte that a star does not match.
abbrev pub NoneSeparates : Flags → List ℕ → Type 0
NoneSeparates f [] = Unit
NoneSeparates f (c ∷ s) = (separates f c ≡ false) × NoneSeparates f s

-- Any byte, any bytes, a byte of a set, a bracket without an end, an escaped byte and a plain byte.
-- After a slash that FNM_PATHNAME sets apart, a period must be shown again.
pub data Matches (f : Flags) : List ℕ → List ℕ → Type 0 where
  ends : Matches f [] []
  any_byte :
      {p s : List ℕ} (c : ℕ) → separates f c ≡ false → Matches f p s → Matches f (63 ∷ p) (c ∷ s)
  any_bytes :
      {p s : List ℕ} (l : List ℕ)
      → NoneSeparates f l
      → Matches f (skip_stars p) s
      → Matches f (42 ∷ p) (l ++ s)
  in_set :
      {p q s : List ℕ} (c : ℕ)
      → separates f c ≡ false
      → bracket c p ≡ some (true, q)
      → Matches f q s
      → Matches f (91 ∷ p) (c ∷ s)
  no_set : {p s : List ℕ} → bracket 91 p ≡ none → Matches f p s → Matches f (91 ∷ p) (91 ∷ s)
  escaped :
      {p s : List ℕ} (c : ℕ)
      → f.no_escape ≡ false
      → hides f (separates f c) p s ≡ false
      → Matches f p s
      → Matches f (92 ∷ c ∷ p) (c ∷ s)
  plain_byte :
      {p s : List ℕ} (c : ℕ)
      → is_plain f c p ≡ true
      → hides f (separates f c) p s ≡ false
      → Matches f p s
      → Matches f (c ∷ p) (c ∷ s)
