-- ===== src/Kernel/Tty/Lines.antt =====
-- What a terminal of os/kernel/tty.c promises, without a ring: the bytes that can be read, and the
-- line that is being typed.
use tortoise.Base.{
  ℕ, ◌+◌, ◌<◌, ◌&&◌, ◌||◌, List, [], ◌∷◌, ◌++◌, leb, ◌==◌, ◌!=◌, if◌then◌else◌, u8, length,
}
use tortoise.Kernel.Tty.{Termios, isig, icanon, signal_of, translated}

pub record Lines : Type 0 where
  pub ready : List ℕ
  pub typed : List ℕ

-- All but the last item.
abbrev pub init : List ℕ → List ℕ
init [] = []
init (x ∷ []) = []
init (x ∷ y ∷ ys) = x ∷ init (y ∷ ys)

abbrev pub total : Lines → ℕ
total s = length s.ready + length s.typed

-- The line typed becomes ready, with one more byte.
abbrev pub enter_line : ℕ → Lines → Lines
enter_line c s = record { ready = s.ready ++ (s.typed ++ u8 c ∷ []); typed = [] }

abbrev pub edit_key : Termios → ℕ → Lines → Lines
edit_key m c s =
    if c == m.c_cc 2 || c == 8
    then record s { typed = init s.typed }
    else if c == m.c_cc 3
    then record s { typed = [] }
    else if c == m.c_cc 4
    then enter_line c s
    else if leb 511 (total s) && c != 10
    then s
    else if c == 10
    then enter_line c s
    else record s { typed = s.typed ++ u8 c ∷ [] }

-- A key after the translation of CR.
abbrev pub line_key : Termios → ℕ → Lines → Lines
line_key m c s =
    if isig m && signal_of c m != 0
    then record s { typed = [] }
    else if icanon m
    then edit_key m c s
    else if leb 512 (total s)
    then s
    else enter_line c s

-- The keys of `cs`, one after another, while there is room for one more byte at each.
abbrev pub line_keys : Termios → List ℕ → Lines → Lines
line_keys m [] s = s
line_keys m (c ∷ cs) s = line_keys m cs (line_key m (translated c m) s)

abbrev pub HasRoom : Termios → List ℕ → Lines → Type 0
HasRoom m [] s = Unit
HasRoom m (c ∷ cs) s = (total s < 512) × HasRoom m cs (line_key m (translated c m) s)
