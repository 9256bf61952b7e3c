-- ===== src/Kernel/Tty/Reads.antt =====
-- The reads of a terminal of os/kernel/tty.c.
use tortoise.Base.{
  ◌≡◌, refl, ap, ◌∙◌, arith, ℕ, zero, suc, ◌+◌, ◌%◌, inl, inr, true, false, List, [], ◌∷◌, ◌==◌,
  if◌then◌else◌, Bool-cases, u32, sub32,
}
use tortoise.Kernel.Ring.{contents}
use tortoise.Kernel.Tty.{Termios, Tty, canon_copy, feed}
use tortoise.Kernel.Tty.Lines.{Lines, line_keys, HasRoom}
use tortoise.Kernel.Tty.Buffer.{IsTty, lines}
use tortoise.Kernel.Tty.Refines.{feed-line_keys}

-- At most `n` bytes of the first line of `ready`, with its newline but without its end of file, and
-- what is left.
abbrev pub read_line : ℕ → ℕ → List ℕ → List ℕ × List ℕ
read_line eof zero l = ([], l)
read_line eof (suc n) [] = ([], [])
read_line eof (suc n) (c ∷ cs) =
    if c == eof
    then ([], cs)
    else if c == 10
    then (c ∷ [], cs)
    else (c ∷ (read_line eof n cs).0, (read_line eof n cs).1)

abbrev read_by : ℕ → Termios → Lines → List ℕ × List ℕ
read_by n m s = read_line (m.c_cc 4) n s.ready

abbrev pub left_ready : List ℕ → Lines → Lines
left_ready l s = record s { ready = l }

-- The terminal without its first ready byte.
passed : Tty → Tty
passed y = record y { r = u32 (y.r + 1) }

ready-first :
    (y : Tty)
    → IsTty y
    → (y.r == y.w) ≡ false
    → ((lines y).ready ≡ y.buf (y.r % 512) ∷ (lines (passed y)).ready) × IsTty (passed y)
unfolding contents passed
ready-first y h some_ready =
    let n : sub32 y.w y.r ≡ suc (sub32 y.w (u32 (y.r + 1))) =
      ground (arith, h.r_range, h.w_range) in
    let m : sub32 y.e y.r ≡ suc (sub32 y.e (u32 (y.r + 1))) =
      ground (arith, h.r_range, h.w_range, h.e_range, h.order) in
    (
      rw n refl,
      record {
        r_range = omega arith;
        w_range = h.w_range;
        e_range = h.e_range;
        order = omega (arith, n, m, h.order);
        at_most_full = omega (arith, m, h.at_most_full);
      },
    )

none_ready : (y : Tty) → (y.r == y.w) ≡ true → (lines y).ready ≡ []
unfolding contents
none_ready y e = let n : sub32 y.w y.r ≡ 0 = ground arith in rw n refl

abbrev Read : ℕ → Tty → List ℕ × Tty → Type 0
Read n y r =
    (r.0 ≡ (read_line (y.t.c_cc 4) n (lines y).ready).0)
    × (lines r.1 ≡ left_ready (read_line (y.t.c_cc 4) n (lines y).ready).1 (lines y))
    × IsTty r.1

canon_copy-Read : (n : ℕ) (y : Tty) → IsTty y → Read n y (canon_copy n y)
unfolding canon_copy passed
canon_copy-Read zero y h = (refl, refl, h)
canon_copy-Read (suc n) y h = elim (Bool-cases (y.r == y.w)) [
  | inl empty ↦ let nothing = none_ready y empty in rw empty (rw nothing (refl, refl, h))
  | inr e ↦
      let (first, next) = ready-first y h e in
      let (same, left, ok) = canon_copy-Read n (passed y) next in
      rw (e, first)
        (elim (Bool-cases (y.buf (y.r % 512) == y.t.c_cc 4)) [
          | inl eof ↦ rw eof (refl, refl, next)
          | inr e1 ↦ elim (Bool-cases (y.buf (y.r % 512) == 10)) [
            | inl line ↦ rw (e1, line) (refl, refl, next)
            | inr e2 ↦ rw (e1, e2) (ap (λ l. y.buf (y.r % 512) ∷ l) same, left, ok)
          ]
        ])
]

-- A terminal whose counters are in order, given bytes of which each finds fewer than 512 in the
-- ring: a read in canonical mode then gives at most `n` bytes of the first line that editing the
-- bytes gives, and leaves the rest of the ready bytes and the line that is being typed.
pub canon_copy-feed :
    (n : ℕ) (cs : List ℕ) (y : Tty)
    → IsTty y
    → HasRoom y.t cs (lines y)
    → ((canon_copy n (feed cs y)).0
        ≡ (read_line (y.t.c_cc 4) n (line_keys y.t cs (lines y)).ready).0)
      × (lines (canon_copy n (feed cs y)).1
          ≡ left_ready
              (read_line (y.t.c_cc 4) n (line_keys y.t cs (lines y)).ready).1
              (line_keys y.t cs (lines y)))
      × IsTty (canon_copy n (feed cs y)).1
canon_copy-feed n cs y h room =
    let (ok, edited, settings) = feed-line_keys cs y h room in
    let (same, left, ok') = canon_copy-Read n (feed cs y) ok in
    (
      same
          ∙ ap (λ s. (read_by n (feed cs y).t s).0) edited
          ∙ ap (λ m. (read_by n m (line_keys y.t cs (lines y))).0) settings,
      left
          ∙ ap (λ s. left_ready (read_by n (feed cs y).t s).1 s) edited
          ∙ ap
              (λ m.
                left_ready (read_by n m (line_keys y.t cs (lines y))).1
                  (line_keys y.t cs (lines y)))
              settings,
      ok',
    )
