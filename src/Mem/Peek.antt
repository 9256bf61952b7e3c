-- ===== src/Mem/Peek.antt =====
-- `mem_peek` and `mem_poke`: the debuggers' accesses, which follow the page tables without
-- faults, without the TLB and without touching a device.
use tortoise.Base.{
  ℕ, ◌+◌, ◌-◌, ◌*◌, ◌/◌, ◌%◌, ◌^◌, not, ◌&&◌, ◌||◌, Option, none, some, ltb, leb, if◌then◌else◌,
  has_bit, u32, add32, page_of, update,
}
use tortoise.Machine.{Machine}
use tortoise.Dcache.{mem_written}
use tortoise.Mem.Phys.{pg_on, load}
use tortoise.Mem.Tlb.{frame_address}
use tortoise.Mem.Virtual.{is_user, xl_active}

-- The physical address; `none` where `mem_peek` returns 0. `va / 4096 % 1024` and `va / 2 ^ 22`
-- index the two levels.
unfoldable pub peek_address : Machine → ℕ → Option ℕ
unfolding load
peek_address m va =
    let table = page_of (m.cr 3) in
    let pde = load m.memory (table + va / 2 ^ 22 * 4) 4 in
    let pte = load m.memory (page_of pde + va / 4096 % 1024 * 4) 4 in
    if xl_active m && pg_on m
    then (if ltb m.ram_size (u32 (table + 4096))
          || not (has_bit 0 pde)
          || ltb m.ram_size (u32 (page_of pde + 4096))
          || not (has_bit 0 pte)
        then none
        else some (frame_address pte va))
    else if xl_active m && is_user m.mode
    then (if leb (m.cr 6) va then none else some (add32 (m.cr 5) va))
    else some va

-- The byte at a physical address: of RAM, or of the ROM.
abbrev byte_at : Machine → ℕ → Option ℕ
byte_at m pa =
    if ltb pa m.ram_size
    then some (m.memory pa)
    else if leb 0xFFFF_0000 pa && m.rom_present
    then some (m.rom (pa - 0xFFFF_0000))
    else none

unfoldable pub mem_peek : Machine → ℕ → Option ℕ
unfolding peek_address
mem_peek m va = elim (peek_address m va) [ none ↦ none | some pa ↦ byte_at m pa ]

-- The machine after `mem_poke`; `none` where it returns 0.
unfoldable pub mem_poke : Machine → ℕ → ℕ → Option Machine
unfolding peek_address
mem_poke m va b = elim (peek_address m va) [
  | none ↦ none
  | some pa ↦
      if ltb pa m.ram_size
      then some (record m { memory = update m.memory pa b; dc_tab = mem_written pa 1 m.dc_tab })
      else none
]
