-- ===== src/Dev/Timer.antt =====
-- The timer of src/dev.c. It counts executed instructions: `t_frac` of `t_prescale` of the
-- current tick have passed, and `t_phase` of the `t_period` ticks to the next interrupt. Times
-- are uint64_t.
use tortoise.Base.{
  ℕ, ◌+◌, ◌-◌, ◌*◌, ◌/◌, ◌%◌, ◌^◌, Bool, ◌&&◌, leb, not, ◌||◌, ◌==◌, ◌!=◌, if◌then◌else◌, has_bit,
  u32, u64, sub32,
}
use tortoise.Machine.{Dev}
use tortoise.Machine.Monad.{M, Void, skip, ◌>>=◌, ◌>>◌, when, get, modify_dev}
use tortoise.Dev.Pic.{pic_raise}

abbrev pub u64_max : ℕ
u64_max = 2 ^ 64 - 1

abbrev pub running : Dev → Bool
running d = has_bit 0 d.t_ctrl && d.t_period != 0

-- The ticks since the last call and what is left of the current one.
abbrev elapsed : Dev → ℕ → ℕ
elapsed d icount = u64 (d.t_frac + u64 (icount + 2 ^ 64 - d.t_last))

abbrev pub ticks_at : Dev → ℕ → ℕ
ticks_at d icount = elapsed d icount / d.t_prescale

unfoldable pub timer_sync : M Void
unfolding pic_raise
timer_sync m =
    let tot = elapsed m.dev m.icount in
    let ticks = tot / m.dev.t_prescale in
    let ph = u64 (m.dev.t_phase + ticks) in
    (do
      modify_dev (λ d. record d {
        t_last = m.icount;
        t_frac = u32 (tot % d.t_prescale);
        t_count = u32 (d.t_count + u32 ticks);
      })
      when (running m.dev) (do
        when (leb m.dev.t_period ph) (pic_raise 0)
        modify_dev (λ d. record d { t_phase = u32 (ph % d.t_period) })))
      m

unfoldable pub timer_next : Dev → ℕ → ℕ
timer_next d icount =
    if not (has_bit 0 d.t_ctrl) || d.t_period == 0
    then u64_max
    else u64 (icount + sub32 d.t_period d.t_phase * d.t_prescale + 2 ^ 64 - d.t_frac)

unfoldable pub timer_rd : ℕ → M ℕ
timer_rd off = do
  timer_sync
  d ← get (λ m. m.dev)
  get (λ m.
      if off == 0x00
      then d.t_count
      else if off == 0x04
      then d.t_period
      else if off == 0x08
      then d.t_ctrl
      else if off == 0x0C
      then d.t_prescale
      else 0)

unfoldable pub timer_wr : ℕ → ℕ → M Void
timer_wr off v = do
  timer_sync
  if off == 0x04
      then modify_dev (λ d. record d { t_period = v; t_phase = 0 })
      else if off == 0x08
      then modify_dev (λ d. record d { t_ctrl = v % 2; t_phase = 0 })
      else if off == 0x0C
      then modify_dev (λ d. record d { t_prescale = (if v != 0 then v else 1) })
      else skip
  icount ← get (λ m. m.icount)
  modify_dev (λ d. record d { dev_next = icount })
