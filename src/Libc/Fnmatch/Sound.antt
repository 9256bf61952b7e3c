-- ===== src/Libc/Fnmatch/Sound.antt =====
-- The rounds of `match` of lib/fnmatch.c follow the rules.
use tortoise.Base.{
  append-nil, ◌≡◌, refl, sym, ap, ◌∙◌, arith, ℕ, zero, suc, inl, inr, Bool, true, false, not, ◌&&◌,
  ◌||◌, List, [], ◌∷◌, ◌++◌, ◌==◌, if◌then◌else◌, Bool-cases, Option-cases, ==_iff,
}
use mathlib.Core.Path.{subst}
use tortoise.Libc.Fnmatch.{
  Flags, bracket, skip_stars, separates, has_slash, hides, is_end, plain, set_round, escape_round,
  star_round, match_round, Round, returns, goes_on, tries, try_ends, after, match_by,
}
use tortoise.Libc.Fnmatch.Patterns.{
  is_plain, NoneSeparates, Matches, ends, any_byte, any_bytes, in_set, no_set, escaped, plain_byte,
}

-- What a round must have for its outcome to be a match.
abbrev Follows : Flags → List ℕ → List ℕ → Round → Type 0
Follows f p s (returns b) = b ≡ true → Matches f p s
Follows f p s (goes_on p' s' start) = hides f start p' s' ≡ false → Matches f p' s' → Matches f p s
Follows f p s (tries p') =
    (l r : List ℕ) → l ++ r ≡ s → NoneSeparates f l → Matches f p' r → Matches f p s

not_false : {A : Type 0} → false ≡ true → A
not_false h = absurd cc

plain-Follows :
    (f : Flags) (a : ℕ) (p : List ℕ) (c : ℕ) (s : List ℕ)
    → is_plain f a p ≡ true
    → Follows f (a ∷ p) (c ∷ s) (plain f a p c s)
plain-Follows f a p c s ok = elim (Bool-cases (c == a)) [
  | inl same ↦
      let e : c ≡ a = (==_iff c a).0 same in
      rw same (λ shown m.
        subst (λ x. Matches f (x ∷ p) (c ∷ s)) e
          (plain_byte c (ap (λ x. is_plain f x p) e ∙ ok) shown m))
  | inr other ↦ rw other not_false
]

escaped-Follows :
    (f : Flags) (a : ℕ) (p : List ℕ) (c : ℕ) (s : List ℕ)
    → f.no_escape ≡ false
    → Follows f (92 ∷ a ∷ p) (c ∷ s) (plain f a p c s)
escaped-Follows f a p c s on = elim (Bool-cases (c == a)) [
  | inl same ↦
      let e : c ≡ a = (==_iff c a).0 same in
      rw same (λ shown m. subst (λ x. Matches f (92 ∷ x ∷ p) (c ∷ s)) e (escaped c on shown m))
  | inr other ↦ rw other not_false
]

or_true : (b : Bool) → (b || true) ≡ true
or_true true = refl
or_true false = refl

escape_or-Follows :
    (f : Flags) (a : ℕ) (p : List ℕ) (c : ℕ) (s : List ℕ) (b : Bool)
    → f.no_escape ≡ b
    → Follows f (92 ∷ a ∷ p) (c ∷ s) (if b then plain f 92 (a ∷ p) c s else plain f a p c s)
escape_or-Follows f a p c s true off = plain-Follows f 92 (a ∷ p) c s (ap (λ b. b || false) off)
escape_or-Follows f a p c s false on = escaped-Follows f a p c s on

escape_round-Follows :
    (f : Flags) (p : List ℕ) (c : ℕ) (s : List ℕ)
    → Follows f (92 ∷ p) (c ∷ s) (escape_round f p c s)
unfolding escape_round
escape_round-Follows f [] c s = plain-Follows f 92 [] c s (or_true f.no_escape)
escape_round-Follows f (a ∷ p) c s = escape_or-Follows f a p c s f.no_escape refl

set_round-Follows :
    (f : Flags) (p : List ℕ) (c : ℕ) (s : List ℕ) → Follows f (91 ∷ p) (c ∷ s) (set_round f p c s)
unfolding set_round
set_round-Follows f p c s = elim (Bool-cases (separates f c)) [
  | inl slash ↦ rw slash not_false
  | inr inside ↦ elim (Option-cases (bracket c p)) [
    | inl unclosed ↦ elim (Bool-cases (c == 91)) [
      | inl same ↦
          let e : c ≡ 91 = (==_iff c 91).0 same in
          rw (inside, unclosed, same)
            (λ shown m.
              subst (λ x. Matches f (91 ∷ p) (x ∷ s)) (sym e)
                (no_set (ap (λ x. bracket x p) (sym e) ∙ unclosed) m))
      | inr other ↦ rw (inside, unclosed, other) not_false
    ]
    | inr ((true, q), closed) ↦ rw (inside, closed) (λ shown m. in_set c inside closed m)
    | inr ((false, q), closed) ↦ rw (inside, closed) not_false
  ]
]

not_either :
    (a b c : Bool) → not (a && (b || c)) ≡ true → ((a && b) ≡ false) × (not (a && c) ≡ true)
not_either false b c h = (refl, refl)
not_either true true c h = (sym h, not_false h)
not_either true false c h = (refl, h)

has_slash-NoneSeparates :
    (f : Flags) (s : List ℕ) → not (f.pathname && has_slash s) ≡ true → NoneSeparates f s
unfolding has_slash
has_slash-NoneSeparates f [] h = tt
has_slash-NoneSeparates f (c ∷ s) h =
    let (here, there) = not_either f.pathname (c == 47) (has_slash s) h in
    (here, has_slash-NoneSeparates f s there)

pub is_end-nothing : (p : List ℕ) → is_end p ≡ true → p ≡ []
is_end-nothing [] h = refl
is_end-nothing (a ∷ p) h = not_false h

star_round-Follows : (f : Flags) (p s : List ℕ) → Follows f (42 ∷ p) s (star_round f p s)
unfolding star_round
star_round-Follows f p s = elim (Bool-cases (is_end (skip_stars p))) [
  | inl last ↦ rw last (λ h. subst (Matches f (42 ∷ p)) (append-nil s) (
      any_bytes s (has_slash-NoneSeparates f s h)
        (subst (λ q. Matches f q []) (sym (is_end-nothing (skip_stars p) last)) ends)))
  | inr more ↦
      rw more (λ l r e none_apart m. subst (Matches f (42 ∷ p)) e (any_bytes l none_apart m))
]

byte_round-Follows :
    (f : Flags) (p : List ℕ) (c : ℕ) (s : List ℕ)
    → Follows f (63 ∷ p) (c ∷ s) (if separates f c then returns false else goes_on p s false)
byte_round-Follows f p c s = elim (Bool-cases (separates f c)) [
  | inl slash ↦ rw slash not_false
  | inr inside ↦ rw inside (λ shown m. any_byte c inside m)
]

at_head :
    (f : Flags) (a b : ℕ) (p s : List ℕ) (r : Round)
    → (a == b) ≡ true
    → Follows f (b ∷ p) s r
    → Follows f (a ∷ p) s r
at_head f a b p s r same h = subst (λ x. Follows f (x ∷ p) s r) (sym ((==_iff a b).0 same)) h

is_plain_byte :
    (f : Flags) (a : ℕ) (p : List ℕ)
    → (a == 42) ≡ false
    → (a == 63) ≡ false
    → (a == 91) ≡ false
    → (a == 92) ≡ false
    → is_plain f a p ≡ true
is_plain_byte f a p e1 e2 e3 e4 = ground arith

match_round-Follows : (f : Flags) (p s : List ℕ) → Follows f p s (match_round f p s)
unfolding match_round
match_round-Follows f [] [] = λ e. ends
match_round-Follows f [] (c ∷ s) = not_false
match_round-Follows f (a ∷ p) [] = elim (Bool-cases (a == 42)) [
  | inl star ↦ rw star (at_head f a 42 p [] (star_round f p []) star (star_round-Follows f p []))
  | inr other ↦ rw other not_false
]
match_round-Follows f (a ∷ p) (c ∷ s) = elim (Bool-cases (a == 42)) [
  | inl star ↦ rw star (at_head f a 42 p (c ∷ s) _ star (star_round-Follows f p (c ∷ s)))
  | inr e1 ↦ elim (Bool-cases (a == 63)) [
    | inl one ↦ rw (e1, one) (at_head f a 63 p (c ∷ s) _ one (byte_round-Follows f p c s))
    | inr e2 ↦ elim (Bool-cases (a == 91)) [
      | inl set ↦ rw (e1, e2, set) (at_head f a 91 p (c ∷ s) _ set (set_round-Follows f p c s))
      | inr e3 ↦ elim (Bool-cases (a == 92)) [
        | inl escape ↦
            rw (e1, e2, e3, escape)
              (at_head f a 92 p (c ∷ s) _ escape (escape_round-Follows f p c s))
        | inr e4 ↦ rw (e1, e2, e3, e4) (plain-Follows f a p c s (is_plain_byte f a p e1 e2 e3 e4))
      ]
    ]
  ]
]

try_ends-found :
    (f : Flags) (m : List ℕ → Bool) (s : List ℕ)
    → try_ends f m s ≡ true
    → (l : List ℕ) × (r : List ℕ) × (l ++ r ≡ s) × NoneSeparates f l × (m r ≡ true)
unfolding try_ends
try_ends-found f m [] h = ([], [], refl, tt, h)
try_ends-found f m (c ∷ s) h = elim (Bool-cases (m (c ∷ s))) [
  | inl now ↦ ([], c ∷ s, refl, tt, now)
  | inr later ↦ elim (Bool-cases (separates f c)) [
    | inl slash ↦ not_false (rw (later, slash) at h)
    | inr inside ↦
        let (l, r, e, apart, found) = try_ends-found f m s (rw (later, inside) at h) in
        (c ∷ l, r, ap (λ x. c ∷ x) e, (inside, apart), found)
  ]
]

-- A way to match the rest of a pattern that follows the rules.
abbrev pub IsSound : Flags → (List ℕ → List ℕ → Bool → Bool) → Type 0
IsSound f m =
    (p s : List ℕ) (start : Bool) → m p s start ≡ true → (hides f start p s ≡ false) × Matches f p s

after-Follows :
    (f : Flags) (m : List ℕ → List ℕ → Bool → Bool) (p s : List ℕ) (r : Round)
    → IsSound f m
    → Follows f p s r
    → after f m s r ≡ true
    → Matches f p s
unfolding after
after-Follows f m p s (returns b) sound follows h = follows h
after-Follows f m p s (goes_on p' s' start) sound follows h =
    let (shown, rest) = sound p' s' start h in follows shown rest
after-Follows f m p s (tries p') sound follows h =
    let (l, r, e, apart, found) = try_ends-found f (λ s'. m p' s' false) s h in
    follows l r e apart ((sound p' r false found).1)

pub match_by-IsSound : (f : Flags) (k : ℕ) → IsSound f (match_by f k)
unfolding match_by
match_by-IsSound f zero p s start h = not_false h
match_by-IsSound f (suc k) p s start h = elim (Bool-cases (hides f start p s)) [
  | inl hidden ↦ not_false (rw hidden at h)
  | inr shown ↦ (
    shown,
    after-Follows f (match_by f k) p s (match_round f p s) (match_by-IsSound f k)
        (match_round-Follows f p s) (rw shown at h),
  )
]
