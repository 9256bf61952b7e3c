-- ===== src/Kernel/Tty/Buffer.antt =====
-- The ring and the counters of os/kernel/tty.c against the lines that they stand for: output, and
-- bytes that are stored and committed.
use tortoise.Base.{
  ◌≡◌, refl, sym, ap, ◌∙◌, arith, ℕ, suc, ◌+◌, ◌%◌, ◌^◌, ◌≤◌, ◌<◌, inl, inr, ◌&&◌, List, [], ◌∷◌,
  ◌++◌, ◌==◌, Bool-cases, update, u8, u32, sub32,
}
use tortoise.Kernel.Ring.{
  contents, contents-push, contents-append, contents-update, length-contents,
}
use tortoise.Kernel.Tty.{Tty, echo_on, opost, onlcr, tty_out, echo, commit, store_byte}
use tortoise.Kernel.Tty.Lines.{Lines, total}

-- The counters are words, `w` is between `r` and `e`, and there are at most 512 bytes.
pub record IsTty (y : Tty) : Type 0 where
  pub r_range : y.r < 2 ^ 32
  pub w_range : y.w < 2 ^ 32
  pub e_range : y.e < 2 ^ 32
  pub order : sub32 y.w y.r + sub32 y.e y.w ≡ sub32 y.e y.r
  pub at_most_full : sub32 y.e y.r ≤ 512

abbrev pub lines : Tty → Lines
lines y = record {
  ready = contents y.buf y.r (sub32 y.w y.r);
  typed = contents y.buf y.w (sub32 y.e y.w);
}

pub total-lines : (y : Tty) → IsTty y → total (lines y) ≡ sub32 y.e y.r
total-lines y h = omega (
  arith,
  h.order,
  length-contents (sub32 y.w y.r) y.r y.buf,
  length-contents (sub32 y.e y.w) y.w y.buf,
)

-- What an operation keeps of the terminal: its settings.
abbrev pub Becomes : Tty → Lines → Tty → Type 0
Becomes y s y' = IsTty y' × (lines y' ≡ s) × (y'.t ≡ y.t)

pub lines_eq :
    {ready ready' typed typed' : List ℕ}
    → ready ≡ ready'
    → typed ≡ typed'
    → ◌≡◌ {A = Lines}
        (record { ready = ready; typed = typed })
        (record { ready = ready'; typed = typed' })
lines_eq p q i = record { ready = p i; typed = q i }

-- Output changes none of this.
with_outs : (o : List ℕ) (y : Tty) → IsTty y → Becomes y (lines y) (record y { outs = o })
with_outs o y h = (
  record {
    r_range = h.r_range;
    w_range = h.w_range;
    e_range = h.e_range;
    order = h.order;
    at_most_full = h.at_most_full;
  },
  refl,
  refl,
)

pub echo-Becomes : (c : ℕ) (y : Tty) → IsTty y → Becomes y (lines y) (echo c y)
unfolding echo tty_out
echo-Becomes c y h = elim (Bool-cases (echo_on y.t)) [
  | inr off ↦ rw off (h, refl, refl)
  | inl on ↦ elim (Bool-cases (opost y.t && onlcr y.t && c == 10)) [
    | inl two ↦ rw (on, two) (with_outs (y.outs ++ (13 ∷ c ∷ [])) y h)
    | inr one ↦ rw (on, one) (with_outs (y.outs ++ (c ∷ [])) y h)
  ]
]

-- The write at `e` is behind all bytes.
ready_kept :
    (y : Tty) (v : ℕ)
    → IsTty y
    → sub32 y.e y.r < 512
    → contents (update y.buf (y.e % 512) v) y.r (sub32 y.w y.r) ≡ contents y.buf y.r (sub32 y.w y.r)
ready_kept y v h room =
    let place : y.e ≡ u32 (y.r + sub32 y.e y.r) = omega (arith, h.r_range, h.e_range) in
    ap (λ p. contents (update y.buf (p % 512) v) y.r (sub32 y.w y.r)) place
    ∙ contents-update (sub32 y.w y.r) y.r (sub32 y.e y.r) v y.buf (omega (arith, h.order)) room

typed_more :
    (y : Tty) (v : ℕ)
    → IsTty y
    → sub32 y.e y.r < 512
    → contents (update y.buf (y.e % 512) v) y.w (suc (sub32 y.e y.w))
      ≡ contents y.buf y.w (sub32 y.e y.w) ++ v ∷ []
typed_more y v h room =
    let place : y.e ≡ u32 (y.w + sub32 y.e y.w) = omega (arith, h.w_range, h.e_range) in
    ap (λ p. contents (update y.buf (p % 512) v) y.w (suc (sub32 y.e y.w))) place
    ∙ contents-push (sub32 y.e y.w) y.w v y.buf (omega (arith, h.order))

pub store_byte-Becomes :
    (c : ℕ) (y : Tty)
    → IsTty y
    → sub32 y.e y.r < 512
    → Becomes y (record (lines y) { typed = (lines y).typed ++ u8 c ∷ [] }) (store_byte c y)
unfolding store_byte
store_byte-Becomes c y h room =
    let more : sub32 (u32 (y.e + 1)) y.w ≡ suc (sub32 y.e y.w) =
      omega (arith, h.w_range, h.e_range, h.order) in
    let all : sub32 (u32 (y.e + 1)) y.r ≡ suc (sub32 y.e y.r) =
      omega (arith, h.r_range, h.e_range) in
    (
      record {
        r_range = h.r_range;
        w_range = h.w_range;
        e_range = omega arith;
        order = omega (arith, more, all, h.order);
        at_most_full = omega (arith, all);
      },
      lines_eq (ready_kept y (u8 c) h room) (rw more (typed_more y (u8 c) h room)),
      refl,
    )

pub nothing_typed : (buf : ℕ → ℕ) (e : ℕ) → e < 2 ^ 32 → contents buf e (sub32 e e) ≡ []
unfolding contents
nothing_typed buf e h = let n : sub32 e e ≡ 0 = omega arith in rw n refl

pub commit-Becomes :
    (y : Tty)
    → IsTty y
    → Becomes y (record { ready = (lines y).ready ++ (lines y).typed; typed = [] }) (commit y)
unfolding commit
commit-Becomes y h =
    let place : u32 (y.r + sub32 y.w y.r) ≡ y.w = omega (arith, h.r_range, h.w_range) in
    (
      record {
        r_range = h.r_range;
        w_range = h.e_range;
        e_range = h.e_range;
        order = omega (arith, h.e_range);
        at_most_full = h.at_most_full;
      },
      lines_eq
          (ap (λ n. contents y.buf y.r n) (sym h.order)
            ∙ contents-append (sub32 y.w y.r) (sub32 y.e y.w) y.r y.buf h.r_range
            ∙ ap (λ p. contents y.buf y.r (sub32 y.w y.r) ++ contents y.buf p (sub32 y.e y.w))
                place)
          (nothing_typed y.buf y.e h.e_range),
      refl,
    )
