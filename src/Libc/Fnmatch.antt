-- ===== src/Libc/Fnmatch.antt =====
-- `fnmatch` of lib/fnmatch.c. A string is the list of its bytes up to the terminating 0.
pub mod Patterns
pub mod Sound
pub mod Complete
pub mod Lengths
use tortoise.Base.{
  ℕ, zero, suc, Bool, true, false, not, ◌&&◌, ◌||◌, List, [], ◌∷◌, Option, none, some, leb, ◌==◌,
  ◌!=◌, if◌then◌else◌, length,
}

-- FNM_NOESCAPE, FNM_PATHNAME and FNM_PERIOD.
pub record Flags : Type 0 where
  pub no_escape : Bool
  pub pathname : Bool
  pub period : Bool

-- Whether the string starts with the byte.
abbrev pub starts : ℕ → List ℕ → Bool
starts c [] = false
starts c (x ∷ xs) = x == c

abbrev pub is_end : List ℕ → Bool
is_end [] = true
is_end (x ∷ xs) = false

-- The loop of `bracket` and what follows it: what was hit so far, and `none` for a null pointer.
unfoldable pub bracket_items : Bool → ℕ → Bool → List ℕ → Option (Bool × List ℕ)
bracket_items neg c hit [] = none
bracket_items neg c hit (a ∷ []) = if a == 93 then some (if neg then not hit else hit, []) else none
bracket_items neg c hit (a ∷ b ∷ []) =
    let one = bracket_items neg c (hit || c == a) (b ∷ []) in
    if a == 93 then some (if neg then not hit else hit, b ∷ []) else one
bracket_items neg c hit (a ∷ b ∷ d ∷ p) =
    let range = bracket_items neg c (hit || (leb a c && leb c d)) p in
    let one = bracket_items neg c (hit || c == a) (b ∷ d ∷ p) in
    if a == 93
    then some (if neg then not hit else hit, b ∷ d ∷ p)
    else if b == 45 && d != 93
    then range
    else one

-- `bracket` after the sign.
unfoldable pub bracket_set : Bool → ℕ → List ℕ → Option (Bool × List ℕ)
unfolding bracket_items
bracket_set neg c [] = none
bracket_set neg c (a ∷ p) =
    if a == 93 then bracket_items neg c (c == 93) p else bracket_items neg c false (a ∷ p)

unfoldable pub bracket : ℕ → List ℕ → Option (Bool × List ℕ)
unfolding bracket_set
bracket c [] = none
bracket c (a ∷ p) = if a == 33 || a == 94 then bracket_set true c p else bracket_set false c (a ∷ p)

-- `while (*p == '*') p++`.
unfoldable pub skip_stars : List ℕ → List ℕ
skip_stars [] = []
skip_stars (a ∷ p) = let rest = skip_stars p in if a == 42 then rest else a ∷ p

-- A slash with FNM_PATHNAME.
abbrev pub separates : Flags → ℕ → Bool
separates f c = f.pathname && c == 47

unfoldable pub has_slash : List ℕ → Bool
has_slash [] = false
has_slash (c ∷ s) = c == 47 || has_slash s

-- What one round of `match` does: it returns, goes on with the rest of both strings and `start`, or
-- tries the rest of the pattern at one end of the string after another.
pub data Round : Type 0 where
  returns : Bool → Round
  goes_on : List ℕ → List ℕ → Bool → Round
  tries : List ℕ → Round

-- The bytes are equal and both strings go on, or the strings do not match.
abbrev pub plain : Flags → ℕ → List ℕ → ℕ → List ℕ → Round
plain f a p c s = if c == a then goes_on p s (separates f c) else returns false

unfoldable pub set_round : Flags → List ℕ → ℕ → List ℕ → Round
unfolding bracket
set_round f p c s = if separates f c then returns false else elim (bracket c p) [
  | none ↦ if c == 91 then goes_on p s false else returns false
  | some (ok, q) ↦ if ok then goes_on q s false else returns false
]

unfoldable pub escape_round : Flags → List ℕ → ℕ → List ℕ → Round
escape_round f [] c s = plain f 92 [] c s
escape_round f (a ∷ p) c s = if f.no_escape then plain f 92 (a ∷ p) c s else plain f a p c s

unfoldable pub star_round : Flags → List ℕ → List ℕ → Round
unfolding skip_stars has_slash
star_round f p s =
    if is_end (skip_stars p)
    then returns (not (f.pathname && has_slash s))
    else tries (skip_stars p)

-- The `switch` of `match`, for success as `true`.
unfoldable pub match_round : Flags → List ℕ → List ℕ → Round
unfolding set_round escape_round star_round
match_round f [] s = returns (is_end s)
match_round f (a ∷ p) [] = if a == 42 then star_round f p [] else returns false
match_round f (a ∷ p) (c ∷ s) =
    if a == 42
    then star_round f p (c ∷ s)
    else if a == 63
    then if separates f c then returns false else goes_on p s false
    else if a == 91
    then set_round f p c s
    else if a == 92
    then escape_round f p c s
    else plain f a p c s

-- The loop over the ends of the string in the case of a star.
unfoldable pub try_ends : Flags → (List ℕ → Bool) → List ℕ → Bool
try_ends f m [] = m []
try_ends f m (c ∷ s) =
    let later = try_ends f m s in if m (c ∷ s) then true else if separates f c then false else later

-- A period at the start that the pattern does not show.
abbrev pub hides : Flags → Bool → List ℕ → List ℕ → Bool
hides f start p s = f.period && start && starts 46 s && not (starts 46 p)

-- What `match` gives after a round, if `m` matches the rest.
unfoldable pub after : Flags → (List ℕ → List ℕ → Bool → Bool) → List ℕ → Round → Bool
unfolding try_ends
after f m s (returns b) = b
after f m s (goes_on p' s' start) = m p' s' start
after f m s (tries p') = try_ends f (λ s'. m p' s' false) s

-- `match` with as many rounds as the fuel.
unfoldable pub match_by : Flags → ℕ → List ℕ → List ℕ → Bool → Bool
unfolding match_round after
match_by f zero p s start = false
match_by f (suc k) p s start =
    if hides f start p s then false else after f (match_by f k) s (match_round f p s)

unfoldable pub fnmatch : List ℕ → List ℕ → Flags → Bool
unfolding match_by
fnmatch pattern s f = match_by f (suc (length pattern)) pattern s true
