-- ===== src/Cpu/Step.antt =====
-- `step_one`, `cpu_step` and `cpu_run` of src/cpu.c: the events that are due, a pending interrupt,
-- and one instruction through the decoded-instruction cache. The instruction trace is left out.
pub mod Lines
use tortoise.Base.{
  ℕ, zero, suc, ◌+◌, ◌/◌, bit_and, ◌&&◌, [], Option, none, some, leb, ◌==◌, ◌!=◌, if◌then◌else◌,
  u64, add32, page_of, offset_of, has_bit, update,
}
use tortoise.Machine.{DEnt, Machine}
use tortoise.Machine.Monad.{
  M, Void, Outcome, ok, abort, stuck, skip, ◌>>=◌, ◌>>◌, when, get, modify, modify_cpu, set_pc,
}
use tortoise.Dev.Events.{dev_events}
use tortoise.Mem.Phys.{ext_on}
use tortoise.Cpu.Fault.{cpu_deliver}
use tortoise.Cpu.Fetch.{decode}
use tortoise.Cpu.Exec.Switch.{execute_instruction}

-- `while (!(p & 1)) { p >>= 1; n++; }` over the 32 bits of `p`.
unfoldable pub lowest_line : ℕ → ℕ → ℕ → ℕ
lowest_line zero p n = n
lowest_line (suc rounds) p n = if has_bit 0 p then n else lowest_line rounds (p / 2) (n + 1)

abbrev pub pending_lines : Machine → ℕ
pending_lines m = bit_and m.dev.pic_pending m.dev.pic_mask

unfoldable pub take_interrupt : M Void
unfolding lowest_line
take_interrupt m =
    if ext_on m && m.int_enabled && pending_lines m != 0
    then (do
      modify_cpu (λ c. record c { inst_pc = c.pc })
      cpu_deliver (32 + lowest_line 32 (pending_lines m) 0) m.pc 0)
        m
    else skip m

-- The table of a page: a new one, with empty entries, if there is none.
abbrev pub table_of : Option (ℕ → DEnt) → ℕ → DEnt
table_of none off = record { len = 0; b = [] }
table_of (some t) off = t off

-- The entry at `pc` in the window's page `ppn`; a new one is kept if it lies in the page.
unfoldable pub cached_entry : ℕ → ℕ → M DEnt
cached_entry pc ppn m =
    let t = table_of (m.dc_tab ppn) in
    let e = t (offset_of pc) in
    (do
      modify (λ m. record m { dc_tab = update m.dc_tab ppn (some t) })
      if e.len != 0 then get (λ _. e) else (do
        tmp ← decode pc
        when (leb (offset_of pc + tmp.len) 0x1000) (
            modify
              (λ m. record m { dc_tab = update m.dc_tab ppn (some (update t (offset_of pc) tmp)) }))
        get (λ _. tmp)))
      m

-- The window's page, if it is in RAM.
unfoldable pub through_cache : Option ℕ → ℕ → M DEnt
unfolding cached_entry
through_cache none pc = decode pc
through_cache (some ppn) pc = cached_entry pc ppn

-- The instruction at `pc`: through the cache if it is on, the window is on the page of `pc` and on
-- RAM, and an instruction of the greatest length ends in the page.
unfoldable pub next_entry : ℕ → M DEnt
unfolding through_cache
next_entry pc m =
    if m.dc_on && page_of pc == m.f_tag && leb (offset_of pc) 0xFFA
    then through_cache m.f_ppn pc m
    else decode pc m

unfoldable pub run_instruction : M Void
unfolding next_entry
run_instruction = do
  pc ← get (λ m. m.pc)
  modify_cpu (λ c. record c { inst_pc = pc })
  cur ← next_entry pc
  modify (λ m. record m { ib = cur.b; ipos = 0 })
  set_pc (add32 pc cur.len)
  execute_instruction

unfoldable pub step_one : M Void
unfolding take_interrupt run_instruction
step_one = do
  due ← get (λ m. leb m.dev.dev_next m.icount)
  when due dev_events
  stopped ← get (λ m. due && m.halted)
  if stopped then skip else (do
    take_interrupt
    run_instruction
    modify_cpu (λ c. record c { icount = u64 (c.icount + 1) }))

-- The state after a step, also where it left by `longjmp`; `none` is a stuck step.
abbrev pub landed : {A : Type 0} → Outcome A → Option Machine
landed (ok a m) = some m
landed (abort m) = some m
landed stuck = none

unfoldable pub cpu_step : Machine → Option Machine
unfolding step_one
cpu_step m = landed (step_one m)

-- The loop of `cpu_run`, for a number of steps; `none` if the machine still runs after them.
unfoldable pub cpu_run : ℕ → Machine → Option Machine
unfolding cpu_step
cpu_run zero m = if m.halted then some m else none
cpu_run (suc fuel) m =
    let next : Option Machine = elim (cpu_step m) [ none ↦ none | some m' ↦ cpu_run fuel m' ] in
    if m.halted then some m else next
