-- ===== src/Libc/Fnmatch/Complete.antt =====
-- What follows the rules, `match` of lib/fnmatch.c finds.
use tortoise.Base.{
  ◌↔◌, ◌⊎◌, append-nil, ◌≡◌, refl, ap, ◌∙◌, arith, ℕ, zero, suc, ◌<◌, inl, inr, Bool, true, false,
  not, ◌&&◌, ◌||◌, List, [], ◌∷◌, ◌++◌, ◌==◌, Bool-cases, length,
}
use mathlib.Core.Path.{subst}
use tortoise.Libc.Fnmatch.{
  Flags, skip_stars, separates, has_slash, hides, is_end, starts, set_round, escape_round,
  star_round, match_round, goes_on, try_ends, after, match_by, fnmatch,
}
use tortoise.Libc.Fnmatch.Patterns.{
  is_plain, NoneSeparates, Matches, ends, any_byte, any_bytes, in_set, no_set, escaped, plain_byte,
}
use tortoise.Libc.Fnmatch.Lengths.{bracket-shorter, skip_stars-shorter}
use tortoise.Libc.Fnmatch.Sound.{match_by-IsSound, is_end-nothing}

same_byte : (c : ℕ) → (c == c) ≡ true
same_byte c = ground arith

and_false : (b : Bool) → (b && false) ≡ false
and_false true = refl
and_false false = refl

shown_inside : (f : Flags) (p s : List ℕ) → hides f false p s ≡ false
shown_inside f p s = go f.period (starts 46 s) (not (starts 46 p))
  where
    go : (a b c : Bool) → (a && false && b && c) ≡ false
    go true b c = refl
    go false b c = refl

four_parts :
    (w x y z v u : Bool)
    → (not w && not x && not y && (not z || v || u)) ≡ true
    → (w ≡ false) × (x ≡ false) × (y ≡ false) × ((z ≡ false) ⊎ ((v || u) ≡ true))
four_parts true x y z v u h = absurd cc
four_parts false true y z v u h = absurd cc
four_parts false false true z v u h = absurd cc
four_parts false false false false v u h = (refl, refl, refl, inl refl)
four_parts false false false true v u h = (refl, refl, refl, inr h)

escape-plain :
    (f : Flags) (p : List ℕ) (c : ℕ) (s : List ℕ)
    → (f.no_escape || is_end p) ≡ true
    → (c == 92) ≡ true
    → escape_round f p c s ≡ goes_on p s (separates f c)
unfolding escape_round
escape-plain f [] c s h same = rw same refl
escape-plain f (a ∷ p) c s h same = elim (Bool-cases f.no_escape) [
  | inl off ↦ rw (off, same) refl
  | inr on ↦ absurd cc
]

plain-round :
    (f : Flags) (c : ℕ) (p s : List ℕ)
    → is_plain f c p ≡ true
    → match_round f (c ∷ p) (c ∷ s) ≡ goes_on p s (separates f c)
unfolding match_round
plain-round f c p s h =
    let (e1, e2, e3, e4) =
      four_parts (c == 42) (c == 63) (c == 91) (c == 92) f.no_escape (is_end p) h in
    elim e4 [
      | inl other ↦ rw (e1, e2, e3, other, same_byte c) refl
      | inr alone ↦ elim (Bool-cases (c == 92)) [
        | inl same ↦ rw (e1, e2, e3, same) (escape-plain f p c s alone same)
        | inr other ↦ rw (e1, e2, e3, other, same_byte c) refl
      ]
    ]

try_ends-tried :
    (f : Flags) (m : List ℕ → Bool) (l r : List ℕ)
    → NoneSeparates f l
    → m r ≡ true
    → try_ends f m (l ++ r) ≡ true
unfolding try_ends
try_ends-tried f m [] [] apart h = h
try_ends-tried f m [] (c ∷ r) apart h = rw h refl
try_ends-tried f m (c ∷ l) r (inside, apart) h = elim (Bool-cases (m (c ∷ (l ++ r)))) [
  | inl now ↦ rw now refl
  | inr later ↦ rw (later, inside) (try_ends-tried f m l r apart h)
]

NoneSeparates-has_slash :
    (f : Flags) (s : List ℕ) → NoneSeparates f s → not (f.pathname && has_slash s) ≡ true
unfolding has_slash
NoneSeparates-has_slash f [] h = ap not (and_false f.pathname)
NoneSeparates-has_slash f (c ∷ s) (here, there) =
    neither f.pathname (c == 47) (has_slash s) here (NoneSeparates-has_slash f s there)
  where
    neither : (a b c : Bool) → (a && b) ≡ false → not (a && c) ≡ true → not (a && (b || c)) ≡ true
    neither false b c h k = refl
    neither true true c h k = absurd cc
    neither true false c h k = k

-- A way to match the rest of a pattern shorter than `n` that finds all that follows the rules.
abbrev IsComplete : Flags → ℕ → (List ℕ → List ℕ → Bool → Bool) → Type 0
IsComplete f n m =
    (p s : List ℕ) (start : Bool)
    → length p < n
    → hides f start p s ≡ false
    → Matches f p s
    → m p s start ≡ true

star-round : (f : Flags) (p s : List ℕ) → match_round f (42 ∷ p) s ≡ star_round f p s
unfolding match_round
star-round f p [] = refl
star-round f p (c ∷ s) = refl

only_nothing : (f : Flags) (s : List ℕ) → Matches f [] s → s ≡ []
only_nothing f _ ends = refl

after-star :
    (f : Flags) (k : ℕ) (m : List ℕ → List ℕ → Bool → Bool)
    → IsComplete f k m
    → (p s l : List ℕ) → length p < k
    → NoneSeparates f l
    → Matches f (skip_stars p) s
    → after f m (l ++ s) (star_round f p (l ++ s)) ≡ true
unfolding after star_round
after-star f k m complete p s l short apart h = elim (Bool-cases (is_end (skip_stars p))) [
  | inl last ↦
      let nothing : s ≡ [] =
        only_nothing f s (subst (λ q. Matches f q s) (is_end-nothing (skip_stars p) last) h) in
      rw last (
        ap (λ x. not (f.pathname && has_slash (l ++ x))) nothing
        ∙ ap (λ x. not (f.pathname && has_slash x)) (append-nil l)
        ∙ NoneSeparates-has_slash f l apart)
  | inr more ↦ rw more (
      try_ends-tried f (λ s'. m (skip_stars p) s' false) l s apart
        (complete (skip_stars p) s false (omega (arith, skip_stars-shorter p))
          (shown_inside f (skip_stars p) s) h))
]

after-round :
    (f : Flags) (k : ℕ) (m : List ℕ → List ℕ → Bool → Bool)
    → IsComplete f k m
    → (p s : List ℕ) → length p < suc k
    → Matches f p s
    → after f m s (match_round f p s) ≡ true
unfolding after match_round set_round escape_round
after-round f k m complete _ _ short ends = refl
after-round f k m complete _ _ short (any_byte {p} {s} c inside h) =
    rw inside (complete p s false (omega arith) (shown_inside f p s) h)
after-round f k m complete _ _ short (any_bytes {p} {s} l apart h) =
    ap (after f m (l ++ s)) (star-round f p (l ++ s))
    ∙ after-star f k m complete p s l (omega arith) apart h
after-round f k m complete _ _ short (in_set {p} {q} {s} c inside found h) =
    rw (inside, found)
      (complete q s false (omega (arith, bracket-shorter c p true q found)) (shown_inside f q s) h)
after-round f k m complete _ _ short (no_set {p} {s} found h) =
    rw (and_false f.pathname, found) (complete p s false (omega arith) (shown_inside f p s) h)
after-round f k m complete _ _ short (escaped {p} {s} c on shown h) =
    rw (on, same_byte c) (complete p s (separates f c) (omega arith) shown h)
after-round f k m complete _ _ short (plain_byte {p} {s} c ok shown h) =
    ap (after f m (c ∷ s)) (plain-round f c p s ok)
    ∙ complete p s (separates f c) (omega arith) shown h

match_by-IsComplete : (f : Flags) (k : ℕ) → IsComplete f k (match_by f k)
unfolding match_by
match_by-IsComplete f zero p s start short shown h = absurd (omega arith)
match_by-IsComplete f (suc k) p s start short shown h =
    rw shown (after-round f k (match_by f k) (match_by-IsComplete f k) p s short h)

-- `fnmatch` succeeds just when the pattern does not hide a period at the start and the string
-- follows its rules: stars, single bytes, sets, escapes and plain bytes, with any of the flags.
pub fnmatch-Matches :
    (pattern s : List ℕ) (f : Flags)
    → (fnmatch pattern s f ≡ true) ↔ ((hides f true pattern s ≡ false) × Matches f pattern s)
unfolding fnmatch
fnmatch-Matches pattern s f = (
  λ h. match_by-IsSound f (suc (length pattern)) pattern s true h,
  λ r. match_by-IsComplete f (suc (length pattern)) pattern s true (omega arith) r.0 r.1,
)
