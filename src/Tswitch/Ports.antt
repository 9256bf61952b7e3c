-- ===== src/Tswitch/Ports.antt =====
-- The ports of tools/tswitch.c: `add_port` and the loop that sends to all ports.
use tortoise.Base.{
  ◌≡◌, refl, arith, ◌≤◌, true, false, List, [], ◌∷◌, ◌++◌, ltb, if◌then◌else◌, Bool-cases, inl, inr,
  length, length-append, All,
}
use tortoise.Tswitch.{Address, Switch, same, is_port, add_port, flood}

-- No port is in the list twice.
abbrev pub IsDistinct : List Address → Type 0
IsDistinct [] = Unit
IsDistinct (p ∷ ps) = (is_port ps p ≡ false) × IsDistinct ps

same_sym : (a b : Address) → same a b ≡ same b a
unfolding same
same_sym a b = ground arith

is_port-append :
    (ps : List Address) (a b : Address)
    → is_port (ps ++ a ∷ []) b ≡ (if is_port ps b then true else same a b)
unfolding is_port
is_port-append [] a b = ground arith
is_port-append (p ∷ ps) a b = ground (arith, is_port-append ps a b)

append-IsDistinct :
    (ps : List Address) (a : Address)
    → IsDistinct ps
    → is_port ps a ≡ false
    → IsDistinct (ps ++ a ∷ [])
unfolding is_port
append-IsDistinct [] a d new = (refl, tt)
append-IsDistinct (p ∷ ps) a d new = (
  ground (arith, is_port-append ps a p, same_sym a p, d.0),
  append-IsDistinct ps a d.1 (ground arith),
)

-- What `add_port` keeps: the ports are distinct and at most 64; the sender is a port afterwards if
-- there was room; the stations are left alone.
pub add_port-IsDistinct :
    (source : Address) (s : Switch)
    → IsDistinct s.ports
    → length s.ports ≤ 64
    → IsDistinct (add_port source s).ports
      × (length (add_port source s).ports ≤ 64)
      × ((add_port source s).table ≡ s.table)
unfolding add_port
add_port-IsDistinct source s d small = elim (Bool-cases (is_port s.ports source)) [
  | inl old ↦ rw old (d, small, refl)
  | inr new ↦ rw new (elim (Bool-cases (ltb (length s.ports) 64)) [
    | inl room ↦ rw room (
      append-IsDistinct s.ports source d new,
      ground (arith, length-append s.ports (source ∷ [])),
      refl,
    )
    | inr full ↦ rw full (d, small, refl)
  ])
]

is_port-flood :
    (ps : List Address) (source a : Address)
    → is_port (flood ps source) a ≡ true
    → is_port ps a ≡ true
unfolding is_port flood
is_port-flood [] source a h = h
is_port-flood (p ∷ ps) source a h = ground (arith, is_port-flood ps source a)

-- The addresses that a flood goes to are distinct, and none is the sender's.
pub flood-IsDistinct :
    (ps : List Address) (source : Address)
    → IsDistinct ps
    → IsDistinct (flood ps source) × All (λ p. same p source ≡ false) (flood ps source)
unfolding flood
flood-IsDistinct [] source d = (tt, tt)
flood-IsDistinct (p ∷ ps) source d =
    let (rest, others) = flood-IsDistinct ps source d.1 in
    elim (Bool-cases (same p source)) [
      | inl own ↦ rw own (rest, others)
      | inr other ↦ rw other ((not_sent ps source p d.0, rest), (other, others))
    ]
  where
    not_sent :
        (ps : List Address) (source p : Address)
        → is_port ps p ≡ false
        → is_port (flood ps source) p ≡ false
    not_sent ps source p h = ground (arith, is_port-flood ps source p)

same-shared : (a b c : Address) → same a b ≡ true → same a c ≡ same b c
unfolding same
same-shared a b c h = ground arith

-- Every port but the sender gets a flood.
pub is_port-flood_iff :
    (ps : List Address) (source a : Address)
    → is_port (flood ps source) a ≡ (if same a source then false else is_port ps a)
unfolding is_port flood
is_port-flood_iff [] source a = ground arith
is_port-flood_iff (p ∷ ps) source a =
    ground (arith, is_port-flood_iff ps source a, same-shared p a source)
