-- ===== src/Tswitch/Table.antt =====
-- `learn` and `lookup` of tools/tswitch.c.
use tortoise.Base.{
  ◌≡◌, ◌≢◌, refl, ◌∙◌, arith, ℕ, suc, ◌<◌, ◌≤◌, ◌⊎◌, inl, inr, true, false, List, [], ◌∷◌, ◌++◌,
  Option, none, some, ltb, lt→ltb, if◌then◌else◌, Bool-cases, Option-cases, length, length-append,
}
use tortoise.Tswitch.{Address, Entry, Switch, same_mac, is_multicast, move, learn, find, lookup}

same_mac-shared : (a b c : ℕ → ℕ) → same_mac a b ≡ true → same_mac a c ≡ same_mac b c
unfolding same_mac
same_mac-shared a b c h = ground arith

same_mac_sym : (a b : ℕ → ℕ) → same_mac a b ≡ same_mac b a
unfolding same_mac
same_mac_sym a b = ground arith

none_ne_some : (es : List Entry) → none ≢ some es
none_ne_some es h = cc

moved :
    (e : Entry) (es es' : List Entry) (mac mac' : ℕ → ℕ) (source : Address)
    → same_mac e.mac mac ≡ true
    → some (record e { addr = source } ∷ es) ≡ some es'
    → (find es' mac' ≡ (if same_mac mac mac' then some source else find (e ∷ es) mac'))
      × (length es' ≡ suc (length es))
unfolding find
moved e es es' mac mac' source hit h =
    let result : (record e { addr = source } ∷ es) ≡ es' = cc in
    rw (← result, same_mac-shared e.mac mac mac' hit) (ground arith)

kept :
    (e : Entry) (es rest es' : List Entry) (mac mac' : ℕ → ℕ) (source : Address)
    → same_mac e.mac mac ≡ false
    → (find rest mac' ≡ (if same_mac mac mac' then some source else find es mac'))
      × (length rest ≡ length es)
    → some (e ∷ rest) ≡ some es'
    → (find es' mac' ≡ (if same_mac mac mac' then some source else find (e ∷ es) mac'))
      × (length es' ≡ suc (length es))
unfolding find
kept e es rest es' mac mac' source miss ih h =
    let result : (e ∷ rest) ≡ es' = cc in
    rw (← result) (
      ground
          (arith, same_mac-shared mac mac' e.mac, same_mac_sym mac' e.mac, same_mac_sym mac e.mac),
      omega (arith, ih.1),
    )

find-move :
    (es es' : List Entry) (mac mac' : ℕ → ℕ) (source : Address)
    → move es mac source ≡ some es'
    → (find es' mac' ≡ (if same_mac mac mac' then some source else find es mac'))
      × (length es' ≡ length es)
unfolding move
find-move [] es' mac mac' source h = ground arith
find-move (e ∷ es) es' mac mac' source h = elim (Bool-cases (same_mac e.mac mac)) [
  | inl hit ↦ moved e es es' mac mac' source hit (rw hit at h)
  | inr miss ↦ elim (Option-cases (move es mac source)) [
    | inl gone ↦ absurd (none_ne_some es' (rw (miss, gone) at h))
    | inr (rest, found) ↦
        kept e es rest es' mac mac' source miss (find-move es rest mac mac' source found)
          (rw (miss, found) at h)
  ]
]

-- A station that is not in the table.
find-missing :
    (es : List Entry) (mac mac' : ℕ → ℕ) (source : Address)
    → move es mac source ≡ none
    → same_mac mac mac' ≡ true
    → find es mac' ≡ none
unfolding move find
find-missing [] mac mac' source h same = refl
find-missing (e ∷ es) mac mac' source h same = ground (
  arith,
  find-missing es mac mac' source,
  same_mac-shared mac mac' e.mac,
  same_mac_sym mac' e.mac,
  same_mac_sym mac e.mac,
)

find-append :
    (es : List Entry) (e : Entry) (mac' : ℕ → ℕ)
    → find (es ++ e ∷ []) mac' ≡ (elim (find es mac') as (λ _. Option Address) [
      | none ↦ (if same_mac e.mac mac' then some e.addr else none)
      | some a ↦ some a
    ])
unfolding find
find-append [] e mac' = refl
find-append (x ∷ es) e mac' = ground (arith, find-append es e mac')

same_mac_refl : (a : ℕ → ℕ) → same_mac a a ≡ true
unfolding same_mac
same_mac_refl a = ground arith

has_room :
    (mac : ℕ → ℕ) (source : Address) (es : List Entry)
    → move es mac source ≡ none
    → (length es < 256) ⊎ (find es mac ≢ none)
    → ltb (length es) 256 ≡ true
has_room mac source es gone (inl h) = lt→ltb _ _ h
has_room mac source es gone (inr h) =
    absurd (h (find-missing es mac mac source gone (same_mac_refl mac)))

-- The table behind a new entry.
find-new :
    (es : List Entry) (mac mac' : ℕ → ℕ) (source : Address)
    → move es mac source ≡ none
    → find (es ++ record { mac = mac; addr = source } ∷ []) mac'
      ≡ (if same_mac mac mac' then some source else find es mac')
find-new es mac mac' source gone =
    find-append es (record { mac = mac; addr = source }) mac'
    ∙ ground (arith, find-missing es mac mac' source gone)

find-learn :
    (mac mac' : ℕ → ℕ) (source : Address) (s : Switch)
    → is_multicast mac ≡ false
    → (length s.table < 256) ⊎ (find s.table mac ≢ none)
    → find (learn mac source s).table mac'
      ≡ (if same_mac mac mac' then some source else find s.table mac')
unfolding learn
find-learn mac mac' source s single room = elim (Option-cases (move s.table mac source)) [
  | inl gone ↦
      rw (single, gone, has_room mac source s.table gone room)
        (find-new s.table mac mac' source gone)
  | inr (table', found) ↦ rw (single, found) (find-move s.table table' mac mac' source found).0
]

-- Learning a station that is not a group, when it is known or the table has room, changes what a
-- lookup gives for that station alone, to its new address; a group is never known.
pub lookup-learn :
    (mac mac' : ℕ → ℕ) (source : Address) (s : Switch)
    → is_multicast mac ≡ false
    → (length s.table < 256) ⊎ (find s.table mac ≢ none)
    → lookup (learn mac source s).table mac' ≡ (
        if is_multicast mac'
        then none
        else if same_mac mac mac'
        then some source
        else lookup s.table mac')
unfolding lookup
lookup-learn mac mac' source s single room =
    ground (arith, find-learn mac mac' source s single room)

-- Learning one station, whatever the room, leaves the others' addresses.
pub lookup-learn_other :
    (mac mac' : ℕ → ℕ) (source : Address) (s : Switch)
    → same_mac mac mac' ≡ false
    → lookup (learn mac source s).table mac' ≡ lookup s.table mac'
unfolding lookup learn
lookup-learn_other mac mac' source s other = elim (Option-cases (move s.table mac source)) [
  | inl gone ↦ rw gone (ground (arith, other, find-new s.table mac mac' source gone))
  | inr (table', found) ↦
      rw found (ground (arith, other, (find-move s.table table' mac mac' source found).0))
]

-- Learning never grows the table past 256 entries, and leaves the ports alone.
pub length-learn :
    (mac : ℕ → ℕ) (source : Address) (s : Switch)
    → length s.table ≤ 256
    → (length (learn mac source s).table ≤ 256) × ((learn mac source s).ports ≡ s.ports)
unfolding learn
length-learn mac source s small = elim (Option-cases (move s.table mac source)) [
  | inl gone ↦
      rw gone (ground (arith, length-append s.table (record { mac = mac; addr = source } ∷ [])))
  | inr (table', found) ↦
      rw found (ground (arith, (find-move s.table table' mac mac source found).1))
]
