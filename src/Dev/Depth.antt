-- ===== src/Dev/Depth.antt =====
-- The exception depth across the device registers and the legacy ports of src/dev.c and src/net.c.
use tortoise.Base.{
  ◌≡◌, refl, arith, ℕ, ◌%◌, ◌==◌, Bool, true, false, if◌then◌else◌, Option, none, some,
}
use tortoise.Machine.{Machine}
use tortoise.Machine.Monad.{M, Void}
use tortoise.Machine.Steady.{depth_after}
use tortoise.Dev.Pic.{pic_rd, pic_wr}
use tortoise.Dev.Timer.{timer_sync, timer_rd, timer_wr}
use tortoise.Dev.Uart.{uart_rd, uart_wr}
use tortoise.Dev.Disk.{disk_reg_rd, disk_reg_wr}
use tortoise.Dev.Uart.{con_putc, con_getc}
use tortoise.Dcache.{cpu_mem_written}
use tortoise.Dev.Disk.{disk_rd, disk_wr, store_sector}
use tortoise.Dev.Events.{legacy_in, legacy_out, legacy_command, next_random, legacy_read}
use tortoise.Dev.Net.{net_rd, net_wr}
use tortoise.Dev.Bus.{
  schedule, rtc_rd, sys_rd, sys_wr, absent_rd, ignore_wr, device_at, device_rd, device_wr, dev_read,
  dev_write,
}

module _ (m : Machine) where
  pic_rd-depth : (off : ℕ) → depth_after (pic_rd off m) ≡ some m.depth
  unfolding pic_rd
  pic_rd-depth off = ground arith

  pic_wr-depth : (off v : ℕ) → depth_after (pic_wr off v m) ≡ some m.depth
  unfolding pic_wr
  pic_wr-depth off v = ground arith

  timer_rd-depth : (off : ℕ) → depth_after (timer_rd off m) ≡ some m.depth
  unfolding timer_rd timer_sync
  timer_rd-depth off = ground arith

  timer_wr-depth : (off v : ℕ) → depth_after (timer_wr off v m) ≡ some m.depth
  unfolding timer_wr timer_sync
  timer_wr-depth off v = ground arith

  disk_reg_rd-depth : (u off : ℕ) → depth_after (disk_reg_rd u off m) ≡ some m.depth
  unfolding disk_reg_rd
  disk_reg_rd-depth u off = ground arith

  disk_reg_wr-depth : (u off v : ℕ) → depth_after (disk_reg_wr u off v m) ≡ some m.depth
  unfolding disk_reg_wr
  disk_reg_wr-depth u off v = ground arith

  uart_rd-depth : (off : ℕ) → depth_after (uart_rd off m) ≡ some m.depth
  unfolding uart_rd
  uart_rd-depth off = ground arith

  uart_wr-depth : (off v : ℕ) → depth_after (uart_wr off v m) ≡ some m.depth
  unfolding uart_wr
  uart_wr-depth off v = ground arith

  net_rd-depth : (off : ℕ) → depth_after (net_rd off m) ≡ some m.depth
  unfolding net_rd
  net_rd-depth off = ground arith

  net_wr-depth : (off v : ℕ) → depth_after (net_wr schedule off v m) ≡ some m.depth
  unfolding net_wr schedule
  net_wr-depth off v = ground arith

  sys_rd-depth : (off : ℕ) → depth_after (sys_rd off m) ≡ some m.depth
  unfolding sys_rd
  sys_rd-depth off = refl

  sys_wr-depth : (off v : ℕ) → depth_after (sys_wr off v m) ≡ some m.depth
  unfolding sys_wr
  sys_wr-depth off v = ground arith

  rtc_rd-depth : (off : ℕ) → depth_after (rtc_rd off m) ≡ some m.depth
  unfolding rtc_rd
  rtc_rd-depth off = refl

  absent_rd-depth : (off : ℕ) → depth_after (absent_rd off m) ≡ some m.depth
  absent_rd-depth off = refl

  ignore_wr-depth : (off v : ℕ) → depth_after (ignore_wr off v m) ≡ some m.depth
  ignore_wr-depth off v = refl

-- A device, if there is one, keeps the depth whatever its register.
data ReadsSteadily (m : Machine) : Option (ℕ → M ℕ) → Type 0 where
  no_reader : ReadsSteadily m none
  reader :
      {rd : ℕ → M ℕ}
      → ((off : ℕ) → depth_after (rd off m) ≡ some m.depth)
      → ReadsSteadily m (some rd)

data WritesSteadily (m : Machine) : Option (ℕ → ℕ → M Void) → Type 0 where
  no_writer : WritesSteadily m none
  writer :
      {wr : ℕ → ℕ → M Void}
      → ((off v : ℕ) → depth_after (wr off v m) ≡ some m.depth)
      → WritesSteadily m (some wr)

reads_if :
    (m : Machine) (c : Bool) (rd : ℕ → M ℕ)
    → ((off : ℕ) → depth_after (rd off m) ≡ some m.depth)
    → {b : Option (ℕ → M ℕ)} → ReadsSteadily m b
    → ReadsSteadily m (if c then some rd else b)
reads_if m true rd law q = reader law
reads_if m false rd law q = q

writes_if :
    (m : Machine) (c : Bool) (wr : ℕ → ℕ → M Void)
    → ((off v : ℕ) → depth_after (wr off v m) ≡ some m.depth)
    → {b : Option (ℕ → ℕ → M Void)} → WritesSteadily m b
    → WritesSteadily m (if c then some wr else b)
writes_if m true wr law q = writer law
writes_if m false wr law q = q

device_rd-depth : (m : Machine) (d : ℕ) → ReadsSteadily m (device_rd d)
unfolding device_rd
device_rd-depth m d = reads_if m (d == 0) pic_rd (pic_rd-depth m) (
    reads_if m (d == 1) timer_rd (timer_rd-depth m) (
      reads_if m (d == 2) uart_rd (uart_rd-depth m) (
        reads_if m (d == 3) (disk_reg_rd 0) (disk_reg_rd-depth m 0) (
          reads_if m (d == 4) absent_rd (absent_rd-depth m) (
            reads_if m (d == 5) rtc_rd (rtc_rd-depth m) (
              reads_if m (d == 6) absent_rd (absent_rd-depth m) (
                reads_if m (d == 7) sys_rd (sys_rd-depth m) (
                  reads_if m (d == 8) net_rd (net_rd-depth m)
                    (reads_if m (d == 9) (disk_reg_rd 1) (disk_reg_rd-depth m 1) no_reader)))))))))

device_wr-depth : (m : Machine) (d : ℕ) → WritesSteadily m (device_wr d)
unfolding device_wr
device_wr-depth m d = writes_if m (d == 0) pic_wr (pic_wr-depth m) (
    writes_if m (d == 1) timer_wr (timer_wr-depth m) (
      writes_if m (d == 2) uart_wr (uart_wr-depth m) (
        writes_if m (d == 3) (disk_reg_wr 0) (disk_reg_wr-depth m 0) (
          writes_if m (d == 4) ignore_wr (ignore_wr-depth m) (
            writes_if m (d == 5) ignore_wr (ignore_wr-depth m) (
              writes_if m (d == 6) ignore_wr (ignore_wr-depth m) (
                writes_if m (d == 7) sys_wr (sys_wr-depth m) (
                  writes_if m (d == 8) (net_wr schedule) (net_wr-depth m)
                    (writes_if m (d == 9) (disk_reg_wr 1) (disk_reg_wr-depth m 1) no_writer)))))))))

-- The same of an access by address.
pub dev_read-depth :
    (m : Machine) (pa : ℕ) (rd : M ℕ) → dev_read pa ≡ some rd → depth_after (rd m) ≡ some m.depth
unfolding dev_read
dev_read-depth m pa rd h = go (device_rd (device_at pa)) (device_rd-depth m (device_at pa)) h
  where
    go :
        (o : Option (ℕ → M ℕ))
        → ReadsSteadily m o
        → (elim o as (λ _. Option (M ℕ)) [ none ↦ none | some f ↦ some (f (pa % 4096)) ]) ≡ some rd
        → depth_after (rd m) ≡ some m.depth
    go none s e = cc
    go (some f) (reader s) e = let same : f (pa % 4096) ≡ rd = cc in rw same at (s (pa % 4096))

pub dev_write-depth :
    (m : Machine) (pa v : ℕ) (wr : M Void)
    → dev_write pa v ≡ some wr
    → depth_after (wr m) ≡ some m.depth
unfolding dev_write
dev_write-depth m pa v wr h = go (device_wr (device_at pa)) (device_wr-depth m (device_at pa)) h
  where
    go :
        (o : Option (ℕ → ℕ → M Void))
        → WritesSteadily m o
        → (elim o as (λ _. Option (M Void)) [ none ↦ none | some f ↦ some (f (pa % 4096) v) ])
          ≡ some wr
        → depth_after (wr m) ≡ some m.depth
    go none s e = cc
    go (some f) (writer s) e = let same : f (pa % 4096) v ≡ wr = cc in rw same at (s (pa % 4096) v)

pub con_putc-depth : (c : ℕ) (m : Machine) → depth_after (con_putc c m) ≡ some m.depth
unfolding con_putc
con_putc-depth c m = refl

pub legacy_in-depth : (port : ℕ) (m : Machine) → depth_after (legacy_in port m) ≡ some m.depth
unfolding legacy_in con_getc next_random
legacy_in-depth port m = ground arith

disk_wr-depth :
    (u sec : ℕ) (buf : ℕ → ℕ) (m : Machine) → depth_after (disk_wr u sec buf m) ≡ some m.depth
unfolding disk_wr
disk_wr-depth u sec buf m = ground arith

legacy_command-depth : (v : ℕ) (m : Machine) → depth_after (legacy_command v m) ≡ some m.depth
unfolding legacy_command legacy_read disk_rd disk_wr store_sector cpu_mem_written
legacy_command-depth v m = ground arith

pub legacy_out-depth : (port v : ℕ) (m : Machine) → depth_after (legacy_out port v m) ≡ some m.depth
unfolding legacy_out con_putc
legacy_out-depth port v m = ground (arith, legacy_command-depth v m)
