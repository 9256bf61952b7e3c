-- ===== src/Isa/Codes.antt =====
-- The bytes of the opcodes and the lengths of instructions.
use tortoise.Base.{ℕ, ◌≤◌, arith, Option, none, some}
use tortoise.Isa.{Opcode}
use tortoise.Isa.Format.{Format, dis_len, op_format}
use tortoise.Isa.Decode.{opcode_at, op_len, length_of}

format_length : (f : Format) → (1 ≤ dis_len f) × (dis_len f ≤ 6)
unfolding dis_len
format_length Format.f_n = omega arith
format_length _ = omega arith

length_bounds : (o : Option Opcode) → (1 ≤ length_of o) × (length_of o ≤ 6)
length_bounds none = omega arith
length_bounds (some o) = format_length (op_format o)

-- An instruction has from 1 to 6 bytes, whatever its first byte: it fits the 7 bytes of a cache
-- entry, and one that starts at offset 0xFFA of a page at the latest ends in the page.
pub op_len_bounds : (b : ℕ) → (1 ≤ op_len b) × (op_len b ≤ 6)
unfolding op_len
op_len_bounds b = length_bounds (opcode_at b)
