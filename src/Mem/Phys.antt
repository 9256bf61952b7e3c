-- ===== src/Mem/Phys.antt =====
-- Physical memory: RAM from address 0, the boot ROM at the top, the devices from DEV_BASE on, and
-- a bus error elsewhere. Accesses are of 1, 2 or 4 bytes, little-endian.
use tortoise.Base.{
  ℕ, ◌+◌, ◌-◌, ◌*◌, ◌/◌, ◌%◌, ◌^◌, Bool, true, false, ◌&&◌, ◌||◌, Option, none, some, ltb, leb,
  ◌==◌, if◌then◌else◌, has_bit, u32, update,
}
use tortoise.Machine.{Machine}
use tortoise.Machine.Monad.{M, Void, ok, ◌>>◌, get, set_cr, cpu_stop, cpu_abort}
use tortoise.Dcache.{Tables, mem_written}
use tortoise.Dev.Bus.{dev_read, dev_write}

-- CR0_EXT, CR0_PROT and CR0_PG of CR0.
abbrev pub ext_on : Machine → Bool
ext_on m = has_bit 0 (m.cr 0)

abbrev pub prot_on : Machine → Bool
prot_on m = has_bit 1 (m.cr 0)

abbrev pub pg_on : Machine → Bool
pg_on m = has_bit 2 (m.cr 0)

-- `n == 1 ? p[0] : n == 2 ? rd16(p) : rd32(p)`.
unfoldable pub load : (ℕ → ℕ) → ℕ → ℕ → ℕ
load bytes p n =
    if n == 1
    then bytes p
    else if n == 2
    then bytes p + bytes (p + 1) * 2 ^ 8
    else bytes p + bytes (p + 1) * 2 ^ 8 + bytes (p + 2) * 2 ^ 16 + bytes (p + 3) * 2 ^ 24

-- The stores of `phys_write` into RAM.
unfoldable pub store : (ℕ → ℕ) → ℕ → ℕ → ℕ → ℕ → ℕ
store bytes p v n =
    let b0 = update bytes p (v % 256) in
    let b1 = if ltb 1 n then update b0 (p + 1) (v / 2 ^ 8 % 256) else b0 in
    if ltb 2 n then update (update b1 (p + 2) (v / 2 ^ 16 % 256)) (p + 3) (v / 2 ^ 24 % 256) else b1

-- `pa < size && size - pa >= n`.
abbrev pub in_range : ℕ → ℕ → ℕ → Bool
in_range pa size n = ltb pa size && leb n (size - pa)

abbrev pub is_device : ℕ → ℕ → Bool
is_device pa n = leb 0xF000_0000 pa && ltb pa 0xF001_0000 && n == 4 && pa % 4 == 0

abbrev pub in_rom : Machine → ℕ → ℕ → Bool
in_rom m pa n = leb 0xFFFF_0000 pa && m.rom_present && leb n (0x10000 - (pa - 0xFFFF_0000))

-- The test in `phys_write`, so that plain data pages cost no invalidation.
abbrev pub is_cached : Tables → ℕ → Bool
is_cached tab page = elim (tab page) [ none ↦ false | some t ↦ true ]

abbrev pub write_ram : ℕ → ℕ → ℕ → Machine → Machine
write_ram pa v n m = record m {
  dc_tab =
      (if is_cached m.dc_tab (pa / 4096) || is_cached m.dc_tab (u32 (pa + n - 1) / 4096)
        then mem_written pa n m.dc_tab
        else m.dc_tab);
  memory = store m.memory pa v n;
}

-- A device's access, or the other action where no device answers.
abbrev pub or_else : {A : Type 0} → Option (M A) → M A → M A
or_else none other = other
or_else (some access) other = access

module _ (fault : ℕ → ℕ → M Void) where
  -- In legacy mode the emulator stops with EXIT_INVALID, in extended mode VEC_BUS is raised.
  unfoldable pub cpu_bus_error : ℕ → M Void
  cpu_bus_error addr m =
      if ext_on m then (do set_cr 2 addr; fault 5 0) m else (do cpu_stop 2; cpu_abort) m

  -- After a bus error `phys_read` would return 0.
  abbrev pub bus_read : ℕ → M ℕ
  bus_read pa = do cpu_bus_error pa; get (λ _. 0)

  unfoldable pub phys_read : ℕ → ℕ → M ℕ
  unfolding load cpu_bus_error
  phys_read pa n m =
      if in_range pa m.ram_size n
      then ok (load m.memory pa n) m
      else if in_rom m pa n
      then ok (load m.rom (pa - 0xFFFF_0000) n) m
      else if is_device pa n
      then or_else (dev_read pa) (bus_read pa) m
      else bus_read pa m

  unfoldable pub phys_write : ℕ → ℕ → ℕ → M Void
  unfolding store cpu_bus_error
  phys_write pa v n m =
      if in_range pa m.ram_size n
      then ok tt (write_ram pa v n m)
      else if is_device pa n
      then or_else (dev_write pa v) (cpu_bus_error pa) m
      else cpu_bus_error pa m
