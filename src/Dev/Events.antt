-- ===== src/Dev/Events.antt =====
-- `dev_events`, the idle loop `dev_wfi` and the legacy ports of src/dev.c.
use tortoise.Base.{
  ℕ, zero, suc, ◌+◌, ◌-◌, ◌%◌, ◌^◌, bit_and, Bool, true, false, not, ◌&&◌, ◌||◌, List, [], ◌∷◌,
  Option, none, some, ltb, leb, ◌==◌, ◌!=◌, if◌then◌else◌, has_bit, bit_of, u32, u64,
}
use tortoise.Machine.{Machine}
use tortoise.Machine.Monad.{
  M, Void, ok, stuck, skip, ◌>>=◌, ◌>>◌, when, get, modify_dev, modify_cpu, modify_host, cpu_stop,
}
use tortoise.Dcache.{cpu_mem_written}
use tortoise.Dev.Timer.{timer_sync, timer_next, u64_max}
use tortoise.Dev.Uart.{con_putc, con_getc, stdin_poll}
use tortoise.Dev.Disk.{disk_complete, disk_rd, disk_wr, store_sector}
use tortoise.Dev.Net.{net_events, net_poll, net_next, net_may_wait}
use tortoise.Dev.Bus.{schedule, lesser}

-- A unit whose command is due completes it.
disk_due : ℕ → M Void
disk_due u m =
    when (has_bit 0 (m.dev.disk u).d_status && leb (m.dev.disk u).d_done m.icount) (disk_complete u)
      m

-- Every 1000 instructions the console and the network are polled.
poll_due : M Void
poll_due m =
    when (leb m.dev.poll_at m.icount)
      (do stdin_poll; net_poll; modify_dev (λ d. record d { poll_at = u64 (m.icount + 1000) })) m

unfoldable pub dev_events : M Void
unfolding disk_due poll_due
dev_events m =
    if leb m.ilimit m.icount
    then cpu_stop 124 m
    else (do timer_sync; net_events; disk_due 0; disk_due 1; poll_due; schedule) m

abbrev is_pending : Machine → Bool
is_pending m = bit_and m.dev.pic_pending m.dev.pic_mask != 0

abbrev input_wait_possible : Machine → Bool
input_wait_possible m =
    m.host.in_stdin && not m.host.in_eof && has_bit 0 m.dev.u_ctrl && has_bit 1 m.dev.pic_mask

-- The first event that can raise an interrupt which is not masked; `u64_max` if there is none.
abbrev unit_wake : Machine → ℕ → ℕ → ℕ → ℕ
unit_wake m line u t =
    if has_bit line m.dev.pic_mask && has_bit 0 (m.dev.disk u).d_status
    then lesser (m.dev.disk u).d_done t
    else t

unfoldable pub wake_at : Machine → ℕ
wake_at m =
    let t = if has_bit 0 m.dev.pic_mask then timer_next m.dev m.icount else u64_max in
    let t1 = unit_wake m 6 1 (unit_wake m 3 0 t) in
    if has_bit 5 m.dev.pic_mask then lesser (net_next m.net) t1 else t1

-- Waiting for the host: the poll of the socket and of the terminal.
wait_input : M Void
wait_input m =
    if net_may_wait m
    then (do when (input_wait_possible m) stdin_poll; net_poll) m
    else when m.host.in_stdin stdin_poll m

-- The clock jumps to the event at `t`; the result is whether the loop goes on.
skip_to : ℕ → M Bool
unfolding dev_events
skip_to t m =
    if t == u64_max
    then ok true m
    else if leb m.ilimit t
    then (do
      modify_cpu (λ c. record c { icount = u64 (c.ilimit + 2 ^ 64 - 1) })
      cpu_stop 124
      get (λ _. false))
        m
    else (do
      modify_cpu (λ c. record c { icount = (if ltb c.icount t then t else c.icount) })
      dev_events
      get (λ _. true))
        m

-- One round of the loop of `dev_wfi`; the result is whether it goes on.
wfi_round : M Bool
unfolding wait_input skip_to
wfi_round m =
    let t = wake_at m in
    let inp = input_wait_possible m || net_may_wait m in
    if t == u64_max && not inp
    then (do cpu_stop 4; get (λ _. false)) m
    else (do
      when inp wait_input
      woken ← get (λ m. inp && is_pending m)
      if woken then get (λ _. false) else skip_to t)
        m

-- The loop, while the host has patience.
wfi_loop : ℕ → M Void
unfolding wfi_round
wfi_loop zero m = stuck
wfi_loop (suc rounds) m =
    let again = (do go ← wfi_round; if go then wfi_loop rounds else skip) m in
    if is_pending m || m.halted then skip m else again

unfoldable pub dev_wfi : M Void
unfolding wfi_loop
dev_wfi m = wfi_loop m.host.patience m

-- What a read of the console port gives: the letter A if there is no input.
console_byte : Option ℕ → ℕ
console_byte none = b'A'
console_byte (some c) = c

-- `rand() & 0xFFFF` of the next value that the host's generator returns.
unfoldable pub next_random : List ℕ → M ℕ
next_random [] = get (λ _. 0)
next_random (v ∷ vs) = do modify_host (λ h. record h { random = vs }); get (λ _. v % 65536)

-- `none` where `legacy_in` returns 0.
unfoldable pub legacy_in : ℕ → M (Option ℕ)
unfolding console_byte next_random
legacy_in port m =
    if port == 0xFF00
    then (do c ← con_getc; get (λ _. some (console_byte c))) m
    else if port == 0xFF01
    then ok (some 3) m
    else if port == 0xFF02
    then (do
      modify_dev (λ d. record d { legacy_ticks = u32 (d.legacy_ticks + 1) })
      get (λ m. some m.dev.legacy_ticks))
        m
    else if port == 0xFF03
    then (do v ← next_random m.host.random; get (λ _. some v)) m
    else if port == 0xFF04
    then ok (some (bit_of m.halted)) m
    else if port == 0xFF10
    then ok (some m.disk_sector) m
    else if port == 0xFF12
    then ok (some 1) m
    else if port == 0xFF13
    then ok (some m.disk_buffer) m
    else ok none m

-- The legacy disk command moves one sector between `disk_buffer` and unit 0.
unfoldable pub legacy_read : Option (ℕ → ℕ) → M Void
legacy_read none = skip
legacy_read (some buf) = do
  at ← get (λ m. m.disk_buffer)
  err ← store_sector at (some buf)
  cpu_mem_written at 512

unfoldable pub legacy_command : ℕ → M Void
unfolding legacy_read
legacy_command v m =
    if ltb m.ram_size m.disk_buffer || ltb (m.ram_size - m.disk_buffer) 512
    then skip m
    else if v == 1
    then (do r ← disk_rd 0 m.disk_sector; legacy_read r) m
    else if v == 2
    then (do err ← disk_wr 0 m.disk_sector (λ i. m.memory (m.disk_buffer + i)); skip) m
    else skip m

unfoldable pub legacy_out : ℕ → ℕ → M Void
unfolding legacy_command
legacy_out port v m =
    if port == 0xFF00
    then con_putc (v % 256) m
    else if port == 0xFF10
    then modify_cpu
        (λ c. record c { disk_sector = (if m.host.disk_nsec 0 == 256 then v % 256 else v) }) m
    else if port == 0xFF13
    then modify_cpu (λ c. record c { disk_buffer = v }) m
    else if port == 0xFF11
    then legacy_command v m
    else skip m
