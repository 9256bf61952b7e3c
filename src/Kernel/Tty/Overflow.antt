-- ===== src/Kernel/Tty/Overflow.antt =====
-- Newlines that nobody reads: `pty_write` of os/kernel/pty.c and `tty_input` of os/kernel/tty.c.
use tortoise.Base.{
  ◌≡◌, refl, sym, ap, ◌∙◌, arith, ℕ, zero, suc, ◌+◌, ◌^◌, ◌<◌, inl, inr, leb, List, [], ◌∷◌,
  Bool-cases, u32, sub32,
}
use tortoise.Kernel.Tty.{
  Tty, new_tty, feed, tty_input, translated, input_key, canon_input, echo, tty_out, commit,
  store_byte, signal_of,
}

abbrev pub newlines : ℕ → List ℕ
newlines zero = []
newlines (suc n) = 10 ∷ newlines n

-- A terminal with the settings of `tty_init`.
at_defaults : Tty → Tty
at_defaults y = record y { t = new_tty.t }

after_newline : Tty → Tty
after_newline y = tty_input 10 (at_defaults y)

newline-counters :
    (y : Tty)
    → (after_newline y ≡ at_defaults (after_newline y))
      × ((after_newline y).r ≡ y.r)
      × ((after_newline y).e ≡ u32 (y.e + 1))
      × ((after_newline y).w ≡ u32 (y.e + 1))
unfolding after_newline at_defaults tty_input translated input_key canon_input echo tty_out commit
    store_byte signal_of
newline-counters y = elim (Bool-cases (leb 511 (sub32 y.e y.r))) [
  | inl e ↦ rw e (refl, refl, refl, refl)
  | inr e ↦ rw e (refl, refl, refl, refl)
]

feed-newlines-counters :
    (n : ℕ) (y : Tty)
    → y.e < 2 ^ 32
    → y.w ≡ y.e
    → y.e + n < 2 ^ 32
    → ((feed (newlines n) (at_defaults y)).r ≡ y.r)
      × ((feed (newlines n) (at_defaults y)).e ≡ y.e + n)
      × ((feed (newlines n) (at_defaults y)).w ≡ y.e + n)
unfolding feed after_newline at_defaults
feed-newlines-counters zero y h all k = (refl, omega arith, omega (arith, all))
feed-newlines-counters (suc n) y h all k =
    let (same, r, e, w) = newline-counters y in
    let (r', e', w') =
      feed-newlines-counters n (after_newline y) (omega (arith, e)) (w ∙ sym e)
        (omega (arith, e)) in
    (
      ap (λ z. (feed (newlines n) z).r) same ∙ r' ∙ r,
      ap (λ z. (feed (newlines n) z).e) same ∙ e' ∙ omega (arith, e),
      ap (λ z. (feed (newlines n) z).w) same ∙ w' ∙ omega (arith, e),
    )

-- A program at the master of a new pseudo-terminal that writes any number `n` of newlines below
-- 2 ^ 32 which nobody reads leaves `n` bytes between the counters of the ring, all of them ready to
-- be read, though the ring has room for 512: `tty_input` tests for room only before other bytes.
pub feed-newlines :
    (n : ℕ)
    → n < 2 ^ 32
    → (sub32 (feed (newlines n) new_tty).e (feed (newlines n) new_tty).r ≡ n)
      × (sub32 (feed (newlines n) new_tty).w (feed (newlines n) new_tty).r ≡ n)
unfolding at_defaults
feed-newlines n few =
    let (r, e, w) = feed-newlines-counters n new_tty (omega arith) refl (omega arith) in
    (omega (arith, r, e), omega (arith, r, w))
