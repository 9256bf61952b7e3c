-- ===== src/Kernel/Tty/Refines.antt =====
-- The input of bytes to a terminal of os/kernel/tty.c against the lines that it stands for.
use tortoise.Base.{
  ◌≡◌, refl, ap, ◌∙◌, arith, ℕ, ◌<◌, inl, inr, Bool, true, false, ◌&&◌, ◌||◌, List, [], ◌∷◌, ◌++◌,
  leb, ◌==◌, ◌!=◌, if◌then◌else◌, Bool-cases, u8, sub32,
}
use tortoise.Kernel.Ring.{length-contents}
use tortoise.Kernel.Tty.{
  Tty, icanon, isig, echo, commit, store_byte, signal_of, canon_input, raw_input, translated,
  input_key, tty_input, feed,
}
use tortoise.Kernel.Tty.Lines.{total, enter_line, edit_key, line_key, line_keys, HasRoom}
use tortoise.Kernel.Tty.Buffer.{
  total-lines, echo-Becomes, store_byte-Becomes, commit-Becomes, IsTty, lines, Becomes,
}
use tortoise.Kernel.Tty.Edits.{erase_one-Becomes, interrupt-Becomes, erase_line-Becomes}

-- A byte stored, echoed or not, and committed.
entered :
    (c : ℕ) (y : Tty)
    → IsTty y
    → sub32 y.e y.r < 512
    → Becomes y (enter_line c (lines y)) (commit (store_byte c y))
entered c y h room =
    let (h', e, k) = store_byte-Becomes c y h room in
    let (h'', e', k') = commit-Becomes (store_byte c y) h' in
    (h'', e' ∙ ap (λ s. record { ready = s.ready ++ s.typed; typed = [] }) e, k' ∙ k)

entered_echo :
    (c : ℕ) (y : Tty)
    → IsTty y
    → sub32 y.e y.r < 512
    → Becomes y (enter_line c (lines y)) (commit (echo c (store_byte c y)))
entered_echo c y h room =
    let (h', e, k) = store_byte-Becomes c y h room in
    let (h'', e', k') = echo-Becomes c (store_byte c y) h' in
    let (h3, e3, k3) = commit-Becomes (echo c (store_byte c y)) h'' in
    (h3, e3 ∙ ap (λ s. record { ready = s.ready ++ s.typed; typed = [] }) (e' ∙ e), k3 ∙ k' ∙ k)

entered_or_not :
    (c : ℕ) (y : Tty) (newline : Bool)
    → IsTty y
    → sub32 y.e y.r < 512
    → Becomes y
        (if newline
          then enter_line c (lines y)
          else record (lines y) { typed = (lines y).typed ++ u8 c ∷ [] })
        (if newline then commit (echo c (store_byte c y)) else echo c (store_byte c y))
entered_or_not c y true h room = entered_echo c y h room
entered_or_not c y false h room =
    let (h', e, k) = store_byte-Becomes c y h room in
    let (h'', e', k') = echo-Becomes c (store_byte c y) h' in (h'', e' ∙ e, k' ∙ k)

canon_input-Becomes :
    (c : ℕ) (y : Tty)
    → IsTty y
    → sub32 y.e y.r < 512
    → Becomes y (edit_key y.t c (lines y)) (canon_input c y)
unfolding canon_input
canon_input-Becomes c y h room = elim (Bool-cases (c == y.t.c_cc 2 || c == 8)) [
  | inl erase ↦ rw erase (erase_one-Becomes y h)
  | inr e2 ↦ elim (Bool-cases (c == y.t.c_cc 3)) [
    | inl kill ↦
        rw (e2, kill)
          (erase_line-Becomes (sub32 y.e y.w) y h (length-contents (sub32 y.e y.w) y.w y.buf))
    | inr e3 ↦ elim (Bool-cases (c == y.t.c_cc 4)) [
      | inl eof ↦ rw (e2, e3, eof) (entered c y h room)
      | inr e4 ↦
          rw (e2, e3, e4, total-lines y h)
            (elim (Bool-cases (leb 511 (sub32 y.e y.r) && c != 10)) [
              | inl full ↦ rw full (h, refl, refl)
              | inr e5 ↦ rw e5 (entered_or_not c y (c == 10) h room)
            ])
    ]
  ]
]

raw_input-Becomes :
    (c : ℕ) (y : Tty)
    → IsTty y
    → Becomes y
        (if leb 512 (total (lines y)) then lines y else enter_line c (lines y))
        (raw_input c y)
unfolding raw_input
raw_input-Becomes c y h = rw (total-lines y h) (elim (Bool-cases (leb 512 (sub32 y.e y.r))) [
  | inl full ↦ rw full (h, refl, refl)
  | inr room ↦ rw room (entered_echo c y h (ground arith))
])

input_key-Becomes :
    (c : ℕ) (y : Tty)
    → IsTty y
    → sub32 y.e y.r < 512
    → Becomes y (line_key y.t c (lines y)) (input_key c y)
unfolding input_key
input_key-Becomes c y h room = elim (Bool-cases (isig y.t && signal_of c y.t != 0)) [
  | inl sig ↦ rw sig (interrupt-Becomes (signal_of c y.t) y h)
  | inr e1 ↦ elim (Bool-cases (icanon y.t)) [
    | inl canon ↦ rw (e1, canon) (canon_input-Becomes c y h room)
    | inr raw ↦ rw (e1, raw) (raw_input-Becomes c y h)
  ]
]

-- A terminal whose counters are in order, given bytes of which each finds fewer than 512 in the
-- ring, keeps its counters in order and its settings, and ends with the lines that editing the
-- bytes one after another gives: erase, kill, end of file, newline, the signal keys and the
-- translation of CR, in either mode.
pub feed-line_keys :
    (cs : List ℕ) (y : Tty)
    → IsTty y
    → HasRoom y.t cs (lines y)
    → IsTty (feed cs y) × (lines (feed cs y) ≡ line_keys y.t cs (lines y)) × ((feed cs y).t ≡ y.t)
unfolding feed tty_input
feed-line_keys [] y h room = (h, refl, refl)
feed-line_keys (c ∷ cs) y h (first, rest) =
    let (h', e, k) =
      input_key-Becomes (translated c y.t) y h (omega (arith, first, total-lines y h)) in
    let y' : Tty = input_key (translated c y.t) y in
    let room : HasRoom y'.t cs (lines y') = rw (k, e) rest in
    let (h'', e', k') = feed-line_keys cs y' h' room in (h'', e' ∙ rw (k, e) refl, k' ∙ k)
