-- ===== src/Kernel/Tty/Edits.antt =====
-- `erase_one`, the kill of a line and the signals of os/kernel/tty.c on the line that is typed.
use tortoise.Base.{
  ◌≡◌, refl, sym, ap, ◌∙◌, arith, ℕ, zero, suc, ◌-◌, inl, inr, true, false, ◌&&◌, List, [], ◌∷◌,
  ◌++◌, ◌==◌, Bool-cases, sub32, length,
}
use tortoise.Kernel.Ring.{contents, contents-last}
use tortoise.Kernel.Tty.{Tty, echo_on, echoe, erase_one, erase_line, interrupt}
use tortoise.Kernel.Tty.Lines.{Lines, init}
use tortoise.Kernel.Tty.Buffer.{nothing_typed, IsTty, lines, Becomes, lines_eq}

init-append : (xs : List ℕ) (x : ℕ) → init (xs ++ x ∷ []) ≡ xs
init-append [] x = refl
init-append (a ∷ []) x = refl
init-append (a ∷ b ∷ xs) x = ap (λ l. a ∷ l) (init-append (b ∷ xs) x)

-- The end moved back by one byte.
shorter :
    (y : Tty) (o : List ℕ)
    → IsTty y
    → (y.e == y.w) ≡ false
    → Becomes y
        (record (lines y) { typed = init (lines y).typed })
        (record y { e = sub32 y.e 1; outs = o })
shorter y o h some_typed =
    let less : sub32 y.e y.w ≡ suc (sub32 (sub32 y.e 1) y.w) =
      ground (arith, h.w_range, h.e_range) in
    let all : sub32 y.e y.r ≡ suc (sub32 (sub32 y.e 1) y.r) =
      ground (arith, h.w_range, h.e_range, h.r_range, h.order) in
    (
      record {
        r_range = h.r_range;
        w_range = h.w_range;
        e_range = omega arith;
        order = omega (arith, less, all, h.order);
        at_most_full = omega (arith, all, h.at_most_full);
      },
      lines_eq refl (
          sym (
            ap init (
              ap (λ n. contents y.buf y.w n) less
              ∙ contents-last (sub32 (sub32 y.e 1) y.w) y.w y.buf)
            ∙ init-append (contents y.buf y.w (sub32 (sub32 y.e 1) y.w)) _)),
      refl,
    )

empty_line : (y : Tty) → (y.e == y.w) ≡ true → contents y.buf y.w (sub32 y.e y.w) ≡ []
unfolding contents
empty_line y e = let n : sub32 y.e y.w ≡ 0 = ground arith in rw n refl

pub erase_one-Becomes :
    (y : Tty)
    → IsTty y
    → Becomes y (record (lines y) { typed = init (lines y).typed }) (erase_one y)
unfolding erase_one
erase_one-Becomes y h = elim (Bool-cases (y.e == y.w)) [
  | inl at_start ↦
      rw at_start
        (h, lines_eq refl (empty_line y at_start ∙ ap init (sym (empty_line y at_start))), refl)
  | inr later ↦ elim (Bool-cases (echo_on y.t && echoe y.t)) [
    | inl on ↦ rw (later, on) (shorter y (y.outs ++ (8 ∷ 32 ∷ 8 ∷ [])) h later)
    | inr off ↦ rw (later, off) (shorter y y.outs h later)
  ]
]

pub interrupt-Becomes :
    (sig : ℕ) (y : Tty) → IsTty y → Becomes y (record (lines y) { typed = [] }) (interrupt sig y)
unfolding interrupt
interrupt-Becomes sig y h = (
  record {
    r_range = h.r_range;
    w_range = h.w_range;
    e_range = h.w_range;
    order = omega (arith, h.w_range);
    at_most_full = omega (arith, h.order, h.at_most_full);
  },
  lines_eq refl (nothing_typed y.buf y.w h.w_range),
  refl,
)

length-init : (xs : List ℕ) → length (init xs) ≡ length xs - 1
length-init [] = refl
length-init (x ∷ []) = refl
length-init (x ∷ y ∷ ys) = omega (arith, length-init (y ∷ ys))

no_items : (xs : List ℕ) → length xs ≡ 0 → xs ≡ []
no_items [] h = refl
no_items (x ∷ xs) h = absurd (omega arith)

abbrev untyped : Lines → Lines
untyped s = record s { typed = [] }

pub erase_line-Becomes :
    (n : ℕ) (y : Tty)
    → IsTty y
    → length (lines y).typed ≡ n
    → Becomes y (record (lines y) { typed = [] }) (erase_line n y)
unfolding erase_line
erase_line-Becomes zero y h none_typed =
    (h, lines_eq refl (no_items (lines y).typed none_typed), refl)
erase_line-Becomes (suc n) y h some_typed =
    let (h', e, k) = erase_one-Becomes y h in
    let fewer : length (lines (erase_one y)).typed ≡ n =
      ap (λ s. length s.typed) e ∙ length-init (lines y).typed ∙ omega (arith, some_typed) in
    let (h'', e', k') = erase_line-Becomes n (erase_one y) h' fewer in
    (h'', e' ∙ ap untyped e, k' ∙ k)
