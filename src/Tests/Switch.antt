-- ===== src/Tests/Switch.antt =====
-- A switch with one station, and the theorems on it at concrete inputs.
use tortoise.Base.{◌≡◌, refl, arith, ℕ, inl, [], ◌∷◌, none, some, if◌then◌else◌, get_or}
use tortoise.Tswitch.{Address, Switch, same_mac, is_multicast, find, lookup, learn, round}
use tortoise.Tswitch.Table.{lookup-learn}
use tortoise.Tswitch.Forward.{IsValid, IsFair, round-IsValid, round-round}

abbrev first_port : Address
first_port = record { s_addr = 0x0100007F; s_port = 5000 }

abbrev second_port : Address
second_port = record { s_addr = 0x0100007F; s_port = 5001 }

-- The stations 2 and 4; the frame from the first to a group, and the one back.
abbrev station : ℕ → ℕ
station i = get_or (2 ∷ 0 ∷ 0 ∷ 0 ∷ 0 ∷ 1 ∷ []) i 0

abbrev to_group : ℕ → ℕ
to_group i = get_or (255 ∷ 255 ∷ 255 ∷ 255 ∷ 255 ∷ 255 ∷ 2 ∷ 0 ∷ 0 ∷ 0 ∷ 0 ∷ 1 ∷ []) i 0

abbrev back : ℕ → ℕ
back i = get_or (2 ∷ 0 ∷ 0 ∷ 0 ∷ 0 ∷ 1 ∷ 4 ∷ 0 ∷ 0 ∷ 0 ∷ 0 ∷ 1 ∷ []) i 0

abbrev one_port : Switch
one_port = record { table = []; ports = second_port ∷ [] }

lookup-learn_example : lookup (learn station first_port one_port).table station ≡ (
    if is_multicast station
    then none
    else if same_mac station station
    then some first_port
    else lookup one_port.table station)
unfolding is_multicast
lookup-learn_example = lookup-learn station station first_port one_port refl (inl (omega arith))

round-IsValid_example :
    IsValid (round to_group 60 first_port one_port).0
    × IsFair first_port (round to_group 60 first_port one_port).1
unfolding tortoise.Tswitch.is_port
round-IsValid_example =
    round-IsValid to_group 60 first_port one_port
      (record { distinct = (refl, tt); few_ports = omega arith; few_stations = omega arith })

round-round_example :
    (round back 60 second_port (round to_group 60 first_port one_port).0).1 ≡ first_port ∷ []
unfolding is_multicast same_mac tortoise.Tswitch.same
round-round_example =
    round-round to_group back 60 60 first_port second_port one_port (omega arith) (omega arith)
      (omega arith) refl refl refl refl
