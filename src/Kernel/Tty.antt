-- ===== src/Kernel/Tty.antt =====
-- The line discipline of os/kernel/tty.c: what the terminal keeps, the input of a byte, the reads
-- and the settings. The bytes given to `out` and the signals sent are lists of the state that grow;
-- the calls of `wakeup` and the interrupt masks of the devices are left out, and so is waiting: a
-- read is modelled from where its input is there. TTYBUF is 512, and `r`, `w` and `e` are 32 bits
-- wide.
pub mod Lines
pub mod Buffer
pub mod Edits
pub mod Refines
pub mod Reads
pub mod Overflow
use tortoise.Base.{
  ℕ, zero, suc, ◌+◌, ◌%◌, Bool, true, false, not, ◌&&◌, ◌||◌, List, [], ◌∷◌, ◌++◌, ltb, leb, ◌==◌,
  ◌!=◌, if◌then◌else◌, update, u8, u32, sub32, has_bit,
}

pub record Termios : Type 0 where
  pub c_iflag : ℕ
  pub c_oflag : ℕ
  pub c_lflag : ℕ
  pub c_cc : ℕ → ℕ

pub record Tty : Type 0 where
  pub t : Termios
  pub buf : ℕ → ℕ
  pub r : ℕ
  pub w : ℕ
  pub e : ℕ
  pub pgrp : ℕ
  pub pollers : ℕ
  pub want : ℕ
  pub waiters : ℕ
  pub hold : Bool
  pub outs : List ℕ
  pub signals : List ℕ

-- ICRNL, OPOST, ONLCR, ISIG, ICANON, ECHO and ECHOE.
abbrev pub icrnl : Termios → Bool
icrnl m = has_bit 8 m.c_iflag

abbrev pub opost : Termios → Bool
opost m = has_bit 0 m.c_oflag

abbrev pub onlcr : Termios → Bool
onlcr m = has_bit 2 m.c_oflag

abbrev pub isig : Termios → Bool
isig m = has_bit 0 m.c_lflag

abbrev pub icanon : Termios → Bool
icanon m = has_bit 1 m.c_lflag

abbrev pub echo_on : Termios → Bool
echo_on m = has_bit 3 m.c_lflag

abbrev pub echoe : Termios → Bool
echoe m = has_bit 4 m.c_lflag

-- The terminal that `tty_init` leaves.
abbrev pub first_cc : ℕ → ℕ
first_cc i =
    if i == 0
    then 3
    else if i == 1
    then 28
    else if i == 2
    then 127
    else if i == 3
    then 21
    else if i == 4
    then 4
    else if i == 6
    then 1
    else if i == 10
    then 26
    else 0

abbrev pub new_tty : Tty
new_tty = record {
  t = record { c_iflag = 0x100; c_oflag = 1; c_lflag = 27; c_cc = first_cc };
  buf = λ i. 0;
  r = 0;
  w = 0;
  e = 0;
  pgrp = 0;
  pollers = 0;
  want = 0;
  waiters = 0;
  hold = false;
  outs = [];
  signals = [];
}

unfoldable pub tty_out : ℕ → Tty → Tty
tty_out c y =
    if opost y.t && onlcr y.t && c == 10
    then record y { outs = y.outs ++ (13 ∷ c ∷ []) }
    else record y { outs = y.outs ++ (c ∷ []) }

unfoldable pub echo : ℕ → Tty → Tty
unfolding tty_out
echo c y = if echo_on y.t then tty_out c y else y

unfoldable pub erase_one : Tty → Tty
erase_one y =
    if y.e == y.w
    then y
    else if echo_on y.t && echoe y.t
    then record y { e = sub32 y.e 1; outs = y.outs ++ (8 ∷ 32 ∷ 8 ∷ []) }
    else record y { e = sub32 y.e 1 }

-- `while (t->e != t->w) erase_one(t)`, as many rounds as there are bytes.
unfoldable pub erase_line : ℕ → Tty → Tty
unfolding erase_one
erase_line zero y = y
erase_line (suc n) y = erase_line n (erase_one y)

unfoldable pub commit : Tty → Tty
commit y = record y { w = y.e }

-- `t->buf[t->e++ % TTYBUF] = (char)c`.
unfoldable pub store_byte : ℕ → Tty → Tty
store_byte c y = record y { buf = update y.buf (y.e % 512) (u8 c); e = u32 (y.e + 1) }

unfoldable pub accepting : Tty → Bool
accepting y =
    if y.waiters == 0 && y.pollers == 0
    then false
    else if y.hold
    then false
    else if icanon y.t
    then y.w == y.r
    else ltb (sub32 y.w y.r) (if ltb 0 y.want then y.want else 1)

-- `sig`: SIGINT, SIGQUIT, SIGTSTP or 0.
unfoldable pub signal_of : ℕ → Termios → ℕ
signal_of c m =
    if c == 0
    then 0
    else if c == m.c_cc 0
    then 2
    else if c == m.c_cc 1
    then 3
    else if c == m.c_cc 10
    then 20
    else 0

-- A signal key: the line that is being typed is dropped.
unfoldable pub interrupt : ℕ → Tty → Tty
interrupt sig y = record y {
  hold = true;
  e = y.w;
  signals = if y.pgrp == 0 then y.signals else y.signals ++ (sig ∷ []);
}

-- The part for ICANON.
unfoldable pub canon_input : ℕ → Tty → Tty
unfolding erase_one erase_line store_byte commit echo
canon_input c y =
    if c == y.t.c_cc 2 || c == 8
    then erase_one y
    else if c == y.t.c_cc 3
    then erase_line (sub32 y.e y.w) y
    else if c == y.t.c_cc 4
    then commit (store_byte c y)
    else if leb 511 (sub32 y.e y.r) && c != 10
    then y
    else if c == 10
    then commit (echo c (store_byte c y))
    else echo c (store_byte c y)

unfoldable pub raw_input : ℕ → Tty → Tty
unfolding store_byte commit echo
raw_input c y = if leb 512 (sub32 y.e y.r) then y else commit (echo c (store_byte c y))

-- ICRNL.
unfoldable pub translated : ℕ → Termios → ℕ
translated c m = if c == 13 && icrnl m then 10 else c

-- `tty_input` behind the translation.
unfoldable pub input_key : ℕ → Tty → Tty
unfolding signal_of interrupt canon_input raw_input
input_key c y =
    if isig y.t && signal_of c y.t != 0
    then interrupt (signal_of c y.t) y
    else if icanon y.t
    then canon_input c y
    else raw_input c y

unfoldable pub tty_input : ℕ → Tty → Tty
unfolding translated input_key
tty_input c y = input_key (translated c y.t) y

-- The writes of `pty_write` on the side of the master: every byte is input, whatever there is room for.
unfoldable pub feed : List ℕ → Tty → Tty
unfolding tty_input
feed [] y = y
feed (c ∷ cs) y = feed cs (tty_input c y)

-- The second loop of `canon_read`.
unfoldable pub canon_copy : ℕ → Tty → List ℕ × Tty
canon_copy zero y = ([], y)
canon_copy (suc n) y =
    let c = y.buf (y.r % 512) in
    let next : Tty = record y { r = u32 (y.r + 1) } in
    let rest = canon_copy n next in
    if y.r == y.w
    then ([], y)
    else if c == y.t.c_cc 4
    then ([], next)
    else if c == 10
    then (c ∷ [], next)
    else (c ∷ rest.0, rest.1)

-- The last loop of `raw_read`.
unfoldable pub raw_copy : ℕ → Tty → List ℕ × Tty
raw_copy zero y = ([], y)
raw_copy (suc n) y =
    let rest = raw_copy n (record y { r = u32 (y.r + 1) }) in
    if y.r == y.w then ([], y) else (y.buf (y.r % 512) ∷ rest.0, rest.1)

unfoldable pub tty_setterm : Termios → Tty → Tty
tty_setterm m y =
    if icanon y.t && not (icanon m) then record y { w = y.e; t = m } else record y { t = m }

-- `tty_write`.
unfoldable pub tty_write : List ℕ → Tty → Tty
unfolding tty_out
tty_write [] y = y
tty_write (c ∷ cs) y = tty_write cs (tty_out c y)

-- POLLIN of `tty_poll`.
unfoldable pub can_read : Tty → Bool
can_read y = y.r != y.w
