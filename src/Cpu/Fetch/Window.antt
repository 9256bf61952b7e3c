-- ===== src/Cpu/Fetch/Window.antt =====
-- The fetch of an instruction whose page is not in the window, in src/cpu.c.
use tortoise.Base.{
  ℕ, ◌+◌, ◌-◌, ◌/◌, ◌^◌, ◌≤◌, ◌<◌, ◌≡◌, ◌≢◌, refl, arith, Bool, true, false, not, ◌&&◌, some, ltb,
  leb, ◌==◌, ◌∙◌, page_of, offset_of, add32,
}
use tortoise.Machine.{in_ram, Machine}
use tortoise.Machine.Monad.{ok, bind_ok}
use tortoise.Dcache.Coherence.{entry_at}
use tortoise.Isa.Decode.{op_len}
use tortoise.Isa.Codes.{op_len_bounds}
use tortoise.Mem.Phys.{pg_on}
use tortoise.Mem.Tlb.{acc_x, translate}
use tortoise.Mem.Virtual.{is_user, xl_active}
use tortoise.Cpu.Fault.{cpu_fault}
use tortoise.Cpu.Fetch.{fetch_page, fetch_slow, fetch_at, fetch_bytes, decode}
use tortoise.Cpu.Fetch.Cache.{fetch_bytes_open, next-InWindow}
use tortoise.Cpu.Step.{next_entry}

-- The machine with the window on the page of `pc`, at the RAM page of `pa`.
abbrev pub with_window : ℕ → ℕ → Machine → Machine
with_window pc pa m = record m {
  f_tag = page_of pc;
  f_ptr = in_ram (page_of pa);
  f_ppn = some (page_of pa / 4096);
}

never : (b c : Bool) → (b && false && c) ≡ false
never true c = refl
never false c = refl

module _ (m : Machine) (pc pa : ℕ) (small : pc < 2 ^ 32) (low : offset_of pc ≤ 0xFFA)
    (elsewhere : page_of pc ≢ m.f_tag)
    (by_pages : (xl_active m && not (pg_on m) && is_user m.mode) ≡ false)
    (address : translate cpu_fault pc acc_x (is_user m.mode) m ≡ ok pa m)
    (page_in_ram : page_of pa + 4096 ≤ m.ram_size) where
  closed : (page_of pc == m.f_tag) ≡ false
  closed = ground arith

  fetch_page_ram :
      fetch_page pc pa m ≡ ok (m.memory (page_of pa + offset_of pc)) (with_window pc pa m)
  unfolding fetch_page
  fetch_page_ram =
      let below : ltb (page_of pa) m.ram_size ≡ true = ground arith in
      let whole : leb 0x1000 (m.ram_size - page_of pa) ≡ true = ground arith in
      rw (below, whole) refl

  fetch_first : fetch_at pc m ≡ ok (m.memory (page_of pa + offset_of pc)) (with_window pc pa m)
  unfolding fetch_at fetch_slow
  fetch_first =
      rw (closed, by_pages)
        (bind_ok (translate cpu_fault pc acc_x (is_user m.mode)) _ m m pa address ∙ fetch_page_ram)

  decode_closed :
      decode pc m ≡ ok (entry_at m.memory (page_of pa + offset_of pc)) (with_window pc pa m)
  unfolding decode
  decode_closed =
      let at = page_of pa + offset_of pc in
      let n = op_len (m.memory at) - 1 in
      let len = op_len_bounds (m.memory at) in
      let m' : Machine = with_window pc pa m in
      bind_ok (fetch_at pc) _ m m' (m.memory at) fetch_first
      ∙ bind_ok (fetch_bytes n (add32 pc 1)) _ m' m' _ (
          fetch_bytes_open m' (page_of pa) n (add32 pc 1) (at + 1) (omega arith) refl
            (next-InWindow m' (page_of pa) n pc at small (refl, refl, omega arith)))

  -- For an address below 2 ^ 32 at most 0xFFA into its page, whose page is not in the window: where
  -- the address translates for execution in the processor's mode, without a change of the machine,
  -- to one in a page of RAM, and no limit of a user program has to be tested at each byte, a step
  -- gets the entry of the bytes that RAM holds at the page translated to, on from the offset; the
  -- window then is on that page, and nothing else changes.
  pub next_entry-window :
      next_entry pc m ≡ ok (entry_at m.memory (page_of pa + offset_of pc)) (with_window pc pa m)
  unfolding next_entry
  next_entry-window =
      let around : (m.dc_on && page_of pc == m.f_tag && leb (offset_of pc) 0xFFA) ≡ false =
        rw closed (never m.dc_on (leb (offset_of pc) 0xFFA)) in
      rw around decode_closed
