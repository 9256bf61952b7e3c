-- ===== src/Kernel/Timer.antt =====
-- The timers of os/kernel/kmem.c, and the tick of os/kernel/trap.c that drives them. What the called
-- functions do to the table of timers is an argument, `handle`, of the function's address and its
-- argument. NTIMER is 128; `ticks` and `expire` are 32 bits wide.
pub mod Slots
pub mod Expiry
use tortoise.Base.{
  ℕ, zero, suc, ◌+◌, ◌^◌, Bool, true, false, ◌&&◌, List, [], ◌∷◌, ◌++◌, Option, none, some, ltb,
  leb, ◌==◌, if◌then◌else◌, update, u32, sub32,
}

-- `KTimer`.
pub record Timer : Type 0 where
  pub expire : ℕ
  pub fn : ℕ
  pub arg : ℕ
  pub used : Bool

abbrev pub Timers : Type 0
Timers = ℕ → Timer

-- A call that a tick makes, with the slot of its timer.
pub record Firing : Type 0 where
  pub slot : ℕ
  pub callee : ℕ
  pub value : ℕ

-- The first slot from `i` on, of the `n` left, that is not in use.
unfoldable pub free_slot : ℕ → ℕ → Timers → Option ℕ
free_slot zero i t = none
free_slot (suc n) i t = let later = free_slot n (i + 1) t in if (t i).used then later else some i

unfoldable pub timer_add : ℕ → ℕ → ℕ → ℕ → Timers → ℕ × Timers
unfolding free_slot
timer_add ticks n f value t = elim (free_slot 128 0 t) [
  | none ↦ (0, t)
  | some i ↦
      (i + 1, update t i (record { expire = u32 (ticks + n); fn = f; arg = value; used = true }))
]

unfoldable pub timer_cancel : ℕ → Timers → Timers
timer_cancel zero t = t
timer_cancel (suc i) t = if ltb i 128 then update t i (record (t i) { used = false }) else t

-- `used` and `(int)(ticks - expire) >= 0`.
unfoldable pub is_due : ℕ → Timer → Bool
is_due ticks t = t.used && ltb (sub32 ticks t.expire) (2 ^ 31)

module _ (handle : ℕ → ℕ → Timers → Timers) where
  -- The loop of `timer_tick` over the `n` slots from `i` on, with the calls that it makes.
  unfoldable pub sweep : ℕ → ℕ → ℕ → Timers → Timers × List Firing
  unfolding is_due
  sweep zero i ticks t = (t, [])
  sweep (suc n) i ticks t =
      let fired : Timers = handle (t i).fn (t i).arg (update t i (record (t i) { used = false })) in
      let after = sweep n (i + 1) ticks fired in
      let idle = sweep n (i + 1) ticks t in
      if is_due ticks (t i)
      then (after.0, record { slot = i; callee = (t i).fn; value = (t i).arg } ∷ after.1)
      else idle

  unfoldable pub timer_tick : ℕ → Timers → Timers × List Firing
  unfolding sweep
  timer_tick ticks t = sweep 128 0 ticks t

  -- `m` ticks of the clock from the time `ticks` on: the table after them and all the calls.
  unfoldable pub run : ℕ → ℕ → Timers → Timers × List Firing
  unfolding timer_tick
  run zero ticks t = (t, [])
  run (suc m) ticks t =
      let before = run m ticks t in
      let last = timer_tick (u32 (ticks + suc m)) before.0 in (last.0, before.1 ++ last.1)
