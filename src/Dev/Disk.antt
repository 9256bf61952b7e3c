-- ===== src/Dev/Disk.antt =====
-- The disk controller of src/dev.c: sector transfer, completion of a command (with DMA into the
-- machine's memory) and the registers. A medium is its bytes and its number of sectors; failing
-- seeks, reads and writes of the image file are left out.
use tortoise.Base.{
  ℕ, zero, suc, ◌+◌, ◌-◌, ◌*◌, bit_and, bit_or, Bool, true, false, ◌&&◌, ◌||◌, Option, none, some,
  ltb, leb, ◌==◌, ◌!=◌, if◌then◌else◌, has_bit, u64, update,
}
use tortoise.Machine.Monad.{
  M, Void, ok, skip, ◌>>=◌, ◌>>◌, get, modify, modify_dev, modify_disk, modify_host,
}
use tortoise.Dcache.{cpu_mem_written}
use tortoise.Dev.Pic.{pic_raise}

-- `memcpy(bytes + at, src, n)`.
abbrev pub copy_in : (ℕ → ℕ) → ℕ → ℕ → (ℕ → ℕ) → ℕ → ℕ
copy_in bytes at n src j = if leb at j && ltb j (at + n) then src (j - at) else bytes j

-- The sector that `disk_rd` reads; `none` is -1.
unfoldable pub disk_rd : ℕ → ℕ → M (Option (ℕ → ℕ))
disk_rd u sec m =
    ok
      (if leb (m.host.disk_nsec u) sec
        then none
        else some (λ i. m.host.disk_data u (sec * 512 + i)))
      m

-- The result is whether the write failed.
unfoldable pub disk_wr : ℕ → ℕ → (ℕ → ℕ) → M Bool
disk_wr u sec buf m =
    if leb (m.host.disk_nsec u) sec
    then ok true m
    else (do
      modify_host (λ h. record h {
        disk_data = update h.disk_data u (copy_in (h.disk_data u) (sec * 512) 512 buf);
      })
      get (λ _. false))
        m

-- The read sector goes to memory; the result is whether the read failed.
unfoldable pub store_sector : ℕ → Option (ℕ → ℕ) → M Bool
store_sector addr none = get (λ _. true)
store_sector addr (some buf) = do
  modify (λ m. record m { memory = copy_in m.memory addr 512 buf })
  get (λ _. false)

-- One round of the loop of `disk_complete`; the result is `err`.
unfoldable pub transfer : ℕ → ℕ → ℕ → M Bool
unfolding disk_rd disk_wr cpu_mem_written store_sector
transfer u sec addr m =
    if (m.dev.disk u).d_cmd == 1
    then (do r ← disk_rd u sec; err ← store_sector addr r; cpu_mem_written addr 512; get (λ _. err))
        m
    else disk_wr u sec (λ i. m.memory (addr + i)) m

-- Sectors `i` to `n - 1`, by the rounds left; the first error ends the loop.
unfoldable pub transfers : ℕ → ℕ → ℕ → ℕ → ℕ → M Bool
unfolding transfer
transfers zero u i s a = get (λ _. false)
transfers (suc rounds) u i s a = do
  err ← transfer u (s + i) (a + i * 512)
  let rest = transfers rounds u (i + 1) s a
  if err then get (λ _. true) else rest

unfoldable pub disk_complete : ℕ → M Void
unfolding transfers pic_raise
disk_complete u m =
    let n = (m.dev.disk u).d_count in
    let s = (m.dev.disk u).d_sector in
    let a = (m.dev.disk u).d_addr in
    let bad = ltb (m.host.disk_nsec u) (s + n) || ltb m.ram_size (a + n * 512) in
    (do
      modify_disk u (λ d. record d { d_status = bit_and d.d_status 0xFFFF_FFFE })
      err ← if bad then get (λ _. true) else transfers n u 0 s a
      modify_disk u
          (λ d. record d { d_status = bit_or d.d_status (if err then 2 else 4); d_cmd = 0 })
      pic_raise (if u == 0 then 3 else 6))
      m

unfoldable pub disk_reg_rd : ℕ → ℕ → M ℕ
disk_reg_rd u off m =
    let d = m.dev.disk u in
    ok
      (if off == 0x00
        then d.d_sector
        else if off == 0x04
        then d.d_count
        else if off == 0x08
        then d.d_addr
        else if off == 0x0C
        then d.d_cmd
        else if off == 0x10
        then d.d_status
        else if off == 0x14
        then m.host.disk_nsec u
        else 0)
      m

-- A command starts the controller if it is idle; DISK_DELAY is 1000 instructions a sector.
disk_command : ℕ → ℕ → M Void
disk_command u v m =
    if has_bit 0 (m.dev.disk u).d_status || (v != 1 && v != 2)
    then skip m
    else (do
      modify_disk u (λ d. record d {
        d_cmd = v;
        d_status = bit_or (bit_and d.d_status 0xFFFF_FFF9) 1;
        d_done = u64 (m.icount + 1000 * d.d_count);
      })
      modify_dev (λ d. record d { dev_next = m.icount }))
        m

unfoldable pub disk_reg_wr : ℕ → ℕ → ℕ → M Void
unfolding disk_command
disk_reg_wr u off v =
    if off == 0x00
    then modify_disk u (λ d. record d { d_sector = v })
    else if off == 0x04
    then modify_disk u (λ d. record d { d_count = v })
    else if off == 0x08
    then modify_disk u (λ d. record d { d_addr = v })
    else if off == 0x0C
    then disk_command u v
    else if off == 0x10
    then modify_disk u (λ d. record d { d_status = bit_and d.d_status 0xFFFF_FFF9 })
    else skip
