-- ===== src/Cpu/Fetch.antt =====
-- Instruction fetch of src/cpu.c: the window `f_tag`, `f_ptr`, `f_ppn` on the page that was
-- fetched from last, and `decode`, which reads the bytes of one instruction.
pub mod Cache
pub mod Window
use tortoise.Base.{
  ℕ, zero, suc, ◌+◌, ◌-◌, ◌*◌, ◌/◌, ◌%◌, Bool, true, not, ◌&&◌, List, [], ◌∷◌, Option, none, some,
  ltb, leb, ◌==◌, if◌then◌else◌, u8, add32, page_of, offset_of,
}
use tortoise.Machine.{FetchPtr, null, in_ram, in_rom, DEnt, Machine}
use tortoise.Machine.Monad.{M, Void, ok, ◌>>=◌, ◌>>◌, get, modify}
use tortoise.Isa.Decode.{op_len}
use tortoise.Mem.Phys.{pg_on, phys_read}
use tortoise.Mem.Tlb.{acc_x, translate}
use tortoise.Mem.Virtual.{is_user, xl_active}
use tortoise.Cpu.Fault.{cpu_fault}

-- `f_ptr[pc & 0xFFF]`.
abbrev pub window_byte : FetchPtr → ℕ → Machine → ℕ
window_byte null off m = 0
window_byte (in_ram base) off m = m.memory (base + off)
window_byte (in_rom base) off m = m.rom (base + off)

-- The window on the page of `pc`, by the physical page `pb`; only RAM pages have a number.
abbrev pub open_window : ℕ → FetchPtr → Option ℕ → M ℕ
open_window pc ptr ppn = do
  modify (λ m. record m { f_tag = page_of pc; f_ptr = ptr; f_ppn = ppn })
  get (window_byte ptr (offset_of pc))

unfoldable pub fetch_page : ℕ → ℕ → M ℕ
fetch_page pc pa m =
    let pb = page_of pa in
    if ltb pb m.ram_size && leb 0x1000 (m.ram_size - pb)
    then open_window pc (in_ram pb) (some (pb / 4096)) m
    else if leb 0xFFFF_0000 pb && m.rom_present
    then open_window pc (in_rom (pb - 0xFFFF_0000)) none m
    else (do v ← phys_read cpu_fault pa 1; get (λ _. u8 v)) m

unfoldable pub fetch_slow : ℕ → M ℕ
unfolding fetch_page
fetch_slow pc m =
    if xl_active m && not (pg_on m) && is_user m.mode
    then (do pa ← translate cpu_fault pc acc_x true; v ← phys_read cpu_fault pa 1; get (λ _. u8 v))
        m
    else (do pa ← translate cpu_fault pc acc_x (is_user m.mode); fetch_page pc pa) m

unfoldable pub fetch_at : ℕ → M ℕ
unfolding fetch_slow
fetch_at pc m =
    if page_of pc == m.f_tag then ok (window_byte m.f_ptr (offset_of pc) m) m else fetch_slow pc m

-- The bytes from `pc` on, by the rounds left.
unfoldable pub fetch_bytes : ℕ → ℕ → M (List ℕ)
unfolding fetch_at
fetch_bytes zero pc = get (λ _. [])
fetch_bytes (suc rounds) pc = do
  b ← fetch_at pc
  rest ← fetch_bytes rounds (add32 pc 1)
  get (λ _. b ∷ rest)

unfoldable pub decode : ℕ → M DEnt
unfolding fetch_bytes
decode pc = do
  op ← fetch_at pc
  rest ← fetch_bytes (op_len op - 1) (add32 pc 1)
  get (λ _. record { len = op_len op; b = op ∷ rest })
