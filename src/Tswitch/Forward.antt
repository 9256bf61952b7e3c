-- ===== src/Tswitch/Forward.antt =====
-- The rounds of tools/tswitch.c: the state that every round keeps, where a datagram goes, and two
-- rounds in a row.
use tortoise.Base.{
  ◌≡◌, refl, sym, ap, ◌∙◌, arith, ℕ, ◌+◌, ◌<◌, ◌≤◌, inl, inr, true, false, List, [], ◌∷◌, Option,
  none, some, ltb, le→ltb, Bool-cases, length, All,
}
use tortoise.Tswitch.{
  Address, Switch, same, same_mac, is_multicast, is_port, lookup, learn, add_port, forward, round,
}
use tortoise.Tswitch.Table.{lookup-learn, lookup-learn_other, length-learn}
use tortoise.Tswitch.Ports.{IsDistinct, add_port-IsDistinct, flood-IsDistinct}

pub record IsValid (s : Switch) : Type 0 where
  pub distinct : IsDistinct s.ports
  pub few_ports : length s.ports ≤ 64
  pub few_stations : length s.table ≤ 256

-- What a round may send: never back to the sender, and to no address twice.
abbrev pub IsFair : Address → List Address → Type 0
IsFair source out = IsDistinct out × All (λ p. same p source ≡ false) out

forward-IsFair :
    (to : Option Address) (ps : List Address) (source : Address)
    → IsDistinct ps
    → IsFair source (forward to ps source)
unfolding forward is_port
forward-IsFair none ps source d = flood-IsDistinct ps source d
forward-IsFair (some to) ps source d = elim (Bool-cases (same to source)) [
  | inl own ↦ rw own (tt, tt)
  | inr other ↦ rw other ((one to, tt), (other, tt))
]
  where
    one : (a : Address) → is_port [] a ≡ false
    one a = refl

-- A round with any datagram from any sender keeps the switch valid (the ports distinct and at most
-- 64, the stations at most 256), sends nothing back to the sender, and sends to no address twice.
pub round-IsValid :
    (buf : ℕ → ℕ) (n : ℕ) (source : Address) (s : Switch)
    → IsValid s
    → IsValid (round buf n source s).0 × IsFair source (round buf n source s).1
unfolding round
round-IsValid buf n source s v = elim (Bool-cases (ltb n 14)) [
  | inl runt ↦ rw runt (v, (tt, tt))
  | inr whole ↦
      let (d, few, table) = add_port-IsDistinct source s v.distinct v.few_ports in
      let (small, ports) =
        length-learn (λ i. buf (6 + i)) source (add_port source s) (rw table v.few_stations) in
      rw whole (
        record { distinct = rw ports d; few_ports = rw ports few; few_stations = small },
        forward-IsFair (lookup (learn (λ i. buf (6 + i)) source (add_port source s)).table buf) _
            source (rw ports d),
      )
]

-- A frame for a station that is known elsewhere goes there and nowhere else.
pub forward-lookup :
    (buf : ℕ → ℕ) (n : ℕ) (source port : Address) (s : Switch)
    → 14 ≤ n
    → lookup (learn (λ i. buf (6 + i)) source (add_port source s)).table buf ≡ some port
    → same port source ≡ false
    → (round buf n source s).1 ≡ port ∷ []
unfolding round forward
forward-lookup buf n source port s whole known elsewhere =
    rw (le→ltb _ _ whole, known, elsewhere) refl

add_port-table : (source : Address) (s : Switch) → (add_port source s).table ≡ s.table
unfolding add_port
add_port-table source s = ground arith

round-learn :
    (buf : ℕ → ℕ) (n : ℕ) (source : Address) (s : Switch)
    → 14 ≤ n
    → (round buf n source s).0 ≡ learn (λ i. buf (6 + i)) source (add_port source s)
unfolding round
round-learn buf n source s whole = rw (le→ltb _ _ whole) refl

same_mac-is_multicast : (a b : ℕ → ℕ) → same_mac a b ≡ true → is_multicast a ≡ is_multicast b
unfolding same_mac is_multicast
same_mac-is_multicast a b same = ground arith

heard :
    (first mac : ℕ → ℕ) (n : ℕ) (port : Address) (s : Switch)
    → 14 ≤ n
    → length s.table < 256
    → is_multicast (λ i. first (6 + i)) ≡ false
    → same_mac (λ i. first (6 + i)) mac ≡ true
    → lookup (round first n port s).0.table mac ≡ some port
heard first mac n port s whole room single same =
    let group : is_multicast mac ≡ false =
      sym (same_mac-is_multicast (λ i. first (6 + i)) mac same) ∙ single in
    ap (λ s'. lookup s'.table mac) (round-learn first n port s whole)
    ∙ lookup-learn (λ i. first (6 + i)) mac port (add_port port s) single
        (inl (rw (add_port-table port s) room))
    ∙ rw (group, same) refl

-- After a frame of a station that is no group is heard from a port, while the table has room, the
-- next frame to that station, sent by another station from another port, goes to the first port
-- alone.
pub round-round :
    (first second : ℕ → ℕ) (n m : ℕ) (port source : Address) (s : Switch)
    → 14 ≤ n
    → 14 ≤ m
    → length s.table < 256
    → is_multicast (λ i. first (6 + i)) ≡ false
    → same_mac (λ i. first (6 + i)) second ≡ true
    → same_mac (λ i. second (6 + i)) second ≡ false
    → same port source ≡ false
    → (round second m source (round first n port s).0).1 ≡ port ∷ []
round-round first second n m port source s whole whole' room single station other elsewhere =
    let s' : Switch = (round first n port s).0 in
    forward-lookup second m source port s' whole'
      (lookup-learn_other (λ i. second (6 + i)) second source (add_port source s') other
        ∙ ap (λ es. lookup es second) (add_port-table source s')
        ∙ heard first second n port s whole room single station)
      elsewhere
