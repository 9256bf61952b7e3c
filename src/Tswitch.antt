-- ===== src/Tswitch.antt =====
-- The learning switch of tools/tswitch.c: the table of stations, the list of ports and the body of
-- the loop of `main`. The socket calls are the environment's: a round takes the datagram and its
-- sender, and gives the list of the addresses that `sendto` is called for, in order. The messages
-- of `-v` are left out.
pub mod Table
pub mod Ports
pub mod Forward
use tortoise.Base.{
  ℕ, ◌+◌, Bool, true, false, not, ◌&&◌, List, [], ◌∷◌, ◌++◌, Option, none, some, ltb, ◌==◌,
  if◌then◌else◌, has_bit, length,
}

-- `sin_addr.s_addr` and `sin_port` of a `struct sockaddr_in`.
pub record Address : Type 0 where
  pub s_addr : ℕ
  pub s_port : ℕ

-- `Entry`; a MAC address is its bytes from 0 to 5.
pub record Entry : Type 0 where
  pub mac : ℕ → ℕ
  pub addr : Address

-- `table` up to `nent`, and `ports` up to `nports`.
pub record Switch : Type 0 where
  pub table : List Entry
  pub ports : List Address

unfoldable pub same : Address → Address → Bool
same a b = a.s_addr == b.s_addr && a.s_port == b.s_port

-- `!memcmp(a, b, 6)`.
unfoldable pub same_mac : (ℕ → ℕ) → (ℕ → ℕ) → Bool
same_mac a b = a 0 == b 0 && a 1 == b 1 && a 2 == b 2 && a 3 == b 3 && a 4 == b 4 && a 5 == b 5

unfoldable pub is_multicast : (ℕ → ℕ) → Bool
is_multicast mac = has_bit 0 (mac 0)

-- The first loop of `learn`: the table with the new address, or `none` if the station is not in it.
unfoldable pub move : List Entry → (ℕ → ℕ) → Address → Option (List Entry)
move [] mac source = none
move (e ∷ es) mac source =
    let later : Option (List Entry) = elim (move es mac source) [
      | none ↦ none
      | some es' ↦ some (e ∷ es')
    ] in
    if same_mac e.mac mac then some (record e { addr = source } ∷ es) else later

-- MAXMAC is 256.
unfoldable pub learn : (ℕ → ℕ) → Address → Switch → Switch
unfolding move
learn mac source s = if is_multicast mac then s else elim (move s.table mac source) [
  | some table' ↦ record s { table = table' }
  | none ↦
      if ltb (length s.table) 256
      then record s { table = s.table ++ record { mac = mac; addr = source } ∷ [] }
      else s
]

unfoldable pub is_port : List Address → Address → Bool
is_port [] a = false
is_port (p ∷ ps) a = if same p a then true else is_port ps a

-- MAXPORTS is 64.
unfoldable pub add_port : Address → Switch → Switch
unfolding is_port
add_port source s =
    if is_port s.ports source
    then s
    else if ltb (length s.ports) 64
    then record s { ports = s.ports ++ source ∷ [] }
    else s

unfoldable pub find : List Entry → (ℕ → ℕ) → Option Address
find [] mac = none
find (e ∷ es) mac = if same_mac e.mac mac then some e.addr else find es mac

unfoldable pub lookup : List Entry → (ℕ → ℕ) → Option Address
unfolding find
lookup es mac = if is_multicast mac then none else find es mac

-- The last loop of `main`: all ports but the sender's.
unfoldable pub flood : List Address → Address → List Address
flood [] source = []
flood (p ∷ ps) source = if same p source then flood ps source else p ∷ flood ps source

-- To a known station, unless it is the sender itself.
unfoldable pub forward : Option Address → List Address → Address → List Address
unfolding flood
forward none ps source = flood ps source
forward (some to) ps source = if same to source then [] else to ∷ []

-- One round: a datagram `buf` of `n` bytes; `n` is 0 where `recvfrom` fails.
unfoldable pub round : (ℕ → ℕ) → ℕ → Address → Switch → Switch × List Address
unfolding learn add_port lookup forward
round buf n source s =
    if ltb n 14
    then (s, [])
    else (let s' = learn (λ i. buf (6 + i)) source (add_port source s) in
        (s', forward (lookup s'.table buf) s'.ports source))
