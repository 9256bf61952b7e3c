-- ===== src/Dev/Bus.antt =====
-- `dev_access`: the sixteen device pages from DEV_BASE on, and the small devices (system
-- control, clock, and the display and keyboard of a build without SDL), with `schedule`, which the
-- network controller calls back.
use tortoise.Base.{
  ℕ, ◌-◌, ◌/◌, ◌%◌, Option, none, some, ltb, ◌==◌, ◌!=◌, if◌then◌else◌, has_bit, u32,
}
use tortoise.Machine.{Machine}
use tortoise.Machine.Monad.{M, Void, ok, skip, when, get, modify_dev, cpu_stop}
use tortoise.Dev.Pic.{pic_rd, pic_wr}
use tortoise.Dev.Timer.{timer_rd, timer_wr, timer_next}
use tortoise.Dev.Uart.{uart_rd, uart_wr}
use tortoise.Dev.Disk.{disk_reg_rd, disk_reg_wr}
use tortoise.Dev.Net.{net_rd, net_wr, net_next}

abbrev pub lesser : ℕ → ℕ → ℕ
lesser t n = if ltb t n then t else n

-- A busy disk unit is an event at its `d_done`.
abbrev disk_next : Machine → ℕ → ℕ → ℕ
disk_next m u n = if has_bit 0 (m.dev.disk u).d_status then lesser (m.dev.disk u).d_done n else n

-- The time of the next event: of the console poll, the instruction limit, the timer, the network
-- and the disks the first.
unfoldable pub next_event : Machine → ℕ
next_event m =
    let n = lesser m.ilimit m.dev.poll_at in
    let n1 = lesser (timer_next m.dev m.icount) n in
    let n2 = lesser (net_next m.net) n1 in disk_next m 1 (disk_next m 0 n2)

unfoldable pub schedule : M Void
unfolding next_event
schedule m = modify_dev (λ d. record d { dev_next = next_event m }) m

unfoldable pub rtc_rd : ℕ → M ℕ
rtc_rd off m =
    ok
      (if off != 0
        then 0
        else if m.host.det_clock
        then u32 (m.icount / 1000000)
        else u32 m.host.now)
      m

unfoldable pub sys_rd : ℕ → M ℕ
sys_rd off m = ok (if off == 0x04 then m.ram_size else if off == 0x08 then 2 else 0) m

unfoldable pub sys_wr : ℕ → ℕ → M Void
sys_wr off v = when (off == 0x00) (cpu_stop (v % 256))

-- The registers of the framebuffer, and of the keyboard, with no display.
abbrev pub absent_rd : ℕ → M ℕ
absent_rd off = get (λ _. 0)

abbrev pub ignore_wr : ℕ → ℕ → M Void
ignore_wr off v = skip

-- `devices[d].rd` and `devices[d].wr` after `dev_reset`; `none` is a null pointer.
unfoldable pub device_rd : ℕ → Option (ℕ → M ℕ)
unfolding rtc_rd sys_rd
device_rd d =
    if d == 0
    then some pic_rd
    else if d == 1
    then some timer_rd
    else if d == 2
    then some uart_rd
    else if d == 3
    then some (disk_reg_rd 0)
    else if d == 4
    then some absent_rd
    else if d == 5
    then some rtc_rd
    else if d == 6
    then some absent_rd
    else if d == 7
    then some sys_rd
    else if d == 8
    then some net_rd
    else if d == 9
    then some (disk_reg_rd 1)
    else none

unfoldable pub device_wr : ℕ → Option (ℕ → ℕ → M Void)
unfolding sys_wr schedule
device_wr d =
    if d == 0
    then some pic_wr
    else if d == 1
    then some timer_wr
    else if d == 2
    then some uart_wr
    else if d == 3
    then some (disk_reg_wr 0)
    else if d == 4
    then some ignore_wr
    else if d == 5
    then some ignore_wr
    else if d == 6
    then some ignore_wr
    else if d == 7
    then some sys_wr
    else if d == 8
    then some (net_wr schedule)
    else if d == 9
    then some (disk_reg_wr 1)
    else none

abbrev pub device_at : ℕ → ℕ
device_at pa = (pa - 0xF000_0000) / 4096 % 16

-- `dev_access` for a read and for a write; `none` where it returns 0.
unfoldable pub dev_read : ℕ → Option (M ℕ)
unfolding device_rd
dev_read pa = elim (device_rd (device_at pa)) [ none ↦ none | some rd ↦ some (rd (pa % 4096)) ]

unfoldable pub dev_write : ℕ → ℕ → Option (M Void)
unfolding device_wr
dev_write pa v = elim (device_wr (device_at pa)) [ none ↦ none | some wr ↦ some (wr (pa % 4096) v) ]
