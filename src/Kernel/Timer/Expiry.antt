-- ===== src/Kernel/Timer/Expiry.antt =====
-- When a timer of os/kernel/kmem.c fires.
use tortoise.Base.{
  ◌≡◌, ◌≢◌, refl, sym, ap, ◌∙◌, arith, ℕ, zero, suc, ◌+◌, ◌^◌, ◌≤◌, ◌<◌, inl, inr, true, false, not,
  List, [], ◌∷◌, ◌++◌, ltb, ltb→lt, lt→ltb, ◌==◌, if◌then◌else◌, Bool-cases, update, u32,
}
use mathlib.Core.Path.{subst}
use tortoise.Kernel.Timer.Slots.{timer_add-cases}
use tortoise.Kernel.Timer.{Timer, Timers, Firing, is_due, sweep, timer_tick, run, timer_add}

-- The calls of one slot's timer.
abbrev pub of_slot : ℕ → List Firing → List Firing
of_slot j [] = []
of_slot j (c ∷ cs) = if c.slot == j then c ∷ of_slot j cs else of_slot j cs

of_slot-append : (j : ℕ) (cs ds : List Firing) → of_slot j (cs ++ ds) ≡ of_slot j cs ++ of_slot j ds
of_slot-append j [] ds = refl
of_slot-append j (c ∷ cs) ds = elim (Bool-cases (c.slot == j)) [
  | inl e ↦ rw e (ap (λ l. c ∷ l) (of_slot-append j cs ds))
  | inr e ↦ rw e (of_slot-append j cs ds)
]

-- A timer that has fired, and the call that it makes.
abbrev pub stopped : Timer → Timer
stopped t = record t { used = false }

abbrev pub firing : ℕ → Timer → Firing
firing j t = record { slot = j; callee = t.fn; value = t.arg }

-- What a tick does to one slot.
abbrev pub Ticked : ℕ → ℕ → Timer → Timers × List Firing → Type 0
Ticked j ticks t r =
    (r.0 j ≡ (if is_due ticks t then stopped t else t))
    × (of_slot j r.1 ≡ (if is_due ticks t then firing j t ∷ [] else []))

module _ (handle : ℕ → ℕ → Timers → Timers) (j : ℕ)
    (leaves : (f a : ℕ) (t : Timers) → handle f a t j ≡ t j) where
  left :
      (i : ℕ) (t : Timers) → i ≢ j → handle (t i).fn (t i).arg (update t i (stopped (t i))) j ≡ t j
  left i t ne =
      let away : (j == i) ≡ false = ground arith in
      leaves (t i).fn (t i).arg (update t i (stopped (t i))) ∙ rw away refl

  past :
      (n i ticks : ℕ) (t : Timers)
      → j < i
      → ((sweep handle n i ticks t).0 j ≡ t j) × (of_slot j (sweep handle n i ticks t).1 ≡ [])
  unfolding sweep
  past zero i ticks t h = (refl, refl)
  past (suc n) i ticks t h = elim (Bool-cases (is_due ticks (t i))) [
    | inr idle ↦ rw idle (past n (i + 1) ticks t (omega arith))
    | inl due ↦
        let t' : Timers = handle (t i).fn (t i).arg (update t i (stopped (t i))) in
        let (same, none_of) = past n (i + 1) ticks t' (omega arith) in
        let away : (i == j) ≡ false = ground arith in
        rw (due, away) (same ∙ left i t (λ e. omega (arith, e, h)), none_of)
  ]

  at_slot : (n ticks : ℕ) (t : Timers) → Ticked j ticks (t j) (sweep handle (suc n) j ticks t)
  unfolding sweep
  at_slot n ticks t = elim (Bool-cases (is_due ticks (t j))) [
    | inr idle ↦ rw idle (past n (j + 1) ticks t (omega arith))
    | inl due ↦
        let t' : Timers = handle (t j).fn (t j).arg (update t j (stopped (t j))) in
        let (same, none_of) = past n (j + 1) ticks t' (omega arith) in
        let here : (j == j) ≡ true = ground arith in
        rw (due, here)
          (
            same ∙ leaves (t j).fn (t j).arg (update t j (stopped (t j))) ∙ rw here refl,
            ap (λ l. firing j (t j) ∷ l) none_of,
          )
  ]

  -- A sweep that passes a slot stops its timer and calls it once if it is due, and leaves it alone
  -- otherwise.
  sweep_slot :
      (n i ticks : ℕ) (t : Timers)
      → i ≤ j
      → j < i + n
      → Ticked j ticks (t j) (sweep handle n i ticks t)
  unfolding sweep
  sweep_slot zero i ticks t low high = absurd (omega arith)
  sweep_slot (suc n) i ticks t low high =
      elim (Bool-cases (i == j)) as (λ _. Ticked j ticks (t j) (sweep handle (suc n) i ticks t)) [
        | inl e ↦ let same : i ≡ j = ground arith in rw same (at_slot n ticks t)
        | inr e ↦
            let ne : i ≢ j = (λ h. ground arith) in
            elim (Bool-cases (is_due ticks (t i))) [
              | inr idle ↦ rw idle (sweep_slot n (i + 1) ticks t (omega arith) (omega arith))
              | inl due ↦
                  let t' : Timers = handle (t i).fn (t i).arg (update t i (stopped (t i))) in
                  let rest = sweep_slot n (i + 1) ticks t' (omega arith) (omega arith) in
                  rw (due, e)
                    (subst (λ u. Ticked j ticks u (sweep handle n (i + 1) ticks t')) (left i t ne)
                      rest)
            ]
      ]

  tick_slot : (ticks : ℕ) (t : Timers) → j < 128 → Ticked j ticks (t j) (timer_tick handle ticks t)
  unfolding timer_tick
  tick_slot ticks t h = sweep_slot 128 0 ticks t (omega arith) (omega arith)

  -- The table and the calls after `m` ticks, for a timer of `n` ticks set at the time `ticks`.
  abbrev Waited : ℕ → ℕ → Timer → Timers × List Firing → Type 0
  Waited m n u r =
      (r.0 j ≡ (if ltb m n then u else stopped u))
      × (of_slot j r.1 ≡ (if ltb m n then [] else firing j u ∷ []))

  due_iff :
      (m n ticks : ℕ) (u : Timer)
      → ticks < 2 ^ 32
      → 0 < n
      → n ≤ 2 ^ 31
      → suc m ≤ n
      → u.used ≡ true
      → u.expire ≡ u32 (ticks + n)
      → is_due (u32 (ticks + suc m)) u ≡ not (ltb (suc m) n)
  unfolding is_due
  due_iff m n ticks u now some_ticks few le used expire = rw (used, expire) (ground arith)

  stopped_not_due : (ticks : ℕ) (u : Timer) → is_due ticks (stopped u) ≡ false
  unfolding is_due
  stopped_not_due ticks u = refl

  next_tick :
      (m n ticks : ℕ) (u : Timer) (before last : Timers × List Firing)
      → ticks < 2 ^ 32
      → 0 < n
      → n ≤ 2 ^ 31
      → u.used ≡ true
      → u.expire ≡ u32 (ticks + n)
      → Waited m n u before
      → Ticked j (u32 (ticks + suc m)) (before.0 j) last
      → Waited (suc m) n u (last.0, before.1 ++ last.1)
  next_tick m n ticks u before last now some_ticks few used expire (slot, calls) (slot', calls') =
      elim (Bool-cases (ltb m n)) as (λ _. Waited (suc m) n u (last.0, before.1 ++ last.1)) [
        | inl early ↦
            let kept : before.0 j ≡ u = rw early at slot in
            let le : suc m ≤ n = ltb→lt m n early in
            let due = due_iff m n ticks u now some_ticks few le used expire in
            let old : of_slot j before.1 ≡ [] = rw early at calls in
            rw (of_slot-append j before.1 last.1, old)
              (elim (Bool-cases (ltb (suc m) n))
                as (λ _.
                  (last.0 j ≡ (if ltb (suc m) n then u else stopped u))
                  × (of_slot j last.1 ≡ (if ltb (suc m) n then [] else firing j u ∷ []))) [
                    | inl not_yet ↦
                        rw not_yet
                          (rw (kept, due, not_yet) at slot', rw (kept, due, not_yet) at calls')
                    | inr fires ↦
                        rw fires (rw (kept, due, fires) at slot', rw (kept, due, fires) at calls')
                  ])
        | inr late ↦
            let later : ltb (suc m) n ≡ false = ground arith in
            let kept : before.0 j ≡ stopped u = rw late at slot in
            let old : of_slot j before.1 ≡ firing j u ∷ [] = rw late at calls in
            let idle = stopped_not_due (u32 (ticks + suc m)) u in
            rw (of_slot-append j before.1 last.1, old, later)
              (rw (kept, idle) at slot', ap (λ l. firing j u ∷ l) (rw (kept, idle) at calls'))
      ]

  run_slot :
      (m n ticks : ℕ) (t : Timers)
      → j < 128
      → ticks < 2 ^ 32
      → 0 < n
      → n ≤ 2 ^ 31
      → (t j).used ≡ true
      → (t j).expire ≡ u32 (ticks + n)
      → Waited m n (t j) (run handle m ticks t)
  unfolding run
  run_slot zero n ticks t h now some_ticks few used expire = rw (lt→ltb 0 n some_ticks) (refl, refl)
  run_slot (suc m) n ticks t h now some_ticks few used expire =
      let before = run handle m ticks t in
      next_tick m n ticks (t j) before (timer_tick handle (u32 (ticks + suc m)) before.0) now
        some_ticks few used expire (run_slot m n ticks t h now some_ticks few used expire)
        (tick_slot (u32 (ticks + suc m)) before.0 h)

abbrev new_timer : ℕ → ℕ → ℕ → ℕ → Timer
new_timer ticks n f value = record { expire = u32 (ticks + n); fn = f; arg = value; used = true }

zero_ne : (i : ℕ) → 0 ≡ i + 1 → ⊥
zero_ne i h = omega arith

same_slot : (j i : ℕ) → j + 1 ≡ i + 1 → j ≡ i
same_slot j i h = omega arith

at_update : (t : Timers) (i : ℕ) (u : Timer) → update t i u i ≡ u
at_update t i u = let here : (i == i) ≡ true = ground arith in rw here refl

-- A timer of `n` ticks that was set in slot `i` at a time below 2 ^ 32, `n` positive and at most
-- 2 ^ 31, has not fired after fewer than `n` ticks, and after `n` or more has fired exactly once,
-- with its own function and argument. This is for called functions that leave slot `i` alone.
pub run-timer_add :
    (handle : ℕ → ℕ → Timers → Timers) (ticks n f value i m : ℕ) (t t' : Timers)
    → ticks < 2 ^ 32
    → 0 < n
    → n ≤ 2 ^ 31
    → timer_add ticks n f value t ≡ (i + 1, t')
    → ((f' a : ℕ) (s : Timers) → handle f' a s i ≡ s i)
    → of_slot i (run handle m ticks t').1
      ≡ (if ltb m n then [] else record { slot = i; callee = f; value = value } ∷ [])
run-timer_add handle ticks n f value i m t t' now some_ticks few set leaves =
    elim (timer_add-cases ticks n f value t) [
      | inl (full, all) ↦
          let none_set : ◌≡◌ {A = ℕ × Timers} (0, t) (i + 1, t') = sym full ∙ set in
          absurd (zero_ne i (ap (λ p. p.0) none_set))
      | inr (j, result, below, free) ↦
          let made : ◌≡◌ {A = ℕ × Timers} (j + 1, update t j (new_timer ticks n f value))
              (i + 1, t') =
            sym result ∙ set in
          let same : j ≡ i = same_slot j i (ap (λ p. p.0) made) in
          let table : update t i (new_timer ticks n f value) ≡ t' =
            ap (λ k. update t k (new_timer ticks n f value)) (sym same) ∙ ap (λ p. p.1) made in
          let entry : t' i ≡ new_timer ticks n f value =
            ap (λ g. g i) (sym table) ∙ at_update t i (new_timer ticks n f value) in
          let fires =
            run_slot handle i leaves m n ticks t' (omega (arith, below, same)) now some_ticks few
              (ap (λ u. u.used) entry) (ap (λ u. u.expire) entry) in
          rw entry at fires.1
    ]
