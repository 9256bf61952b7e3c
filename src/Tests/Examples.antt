-- ===== src/Tests/Examples.antt =====
-- The theorems at concrete inputs.
use tortoise.Base.{
  sym, ap, ℕ, zero, suc, ◌+◌, ◌-◌, ◌*◌, ◌/◌, ◌%◌, ◌^◌, ◌≤◌, ◌<◌, ◌≡◌, refl, arith, inl, inr, false,
  not, none, some, ltb, leb, ◌==◌, ◌&&◌, if◌then◌else◌, has_bit, u32,
}
use tortoise.Base.Int.{pos, ◌+ℤ◌, ◌-ℤ◌, eq_ℤ, signed32}
use tortoise.Machine.{in_ram, DEnt, Machine}
use tortoise.Machine.Monad.{ok}
use tortoise.Alu.{blt, alu_add, alu_sub, cond}
use tortoise.Alu.Add.{FlagsAre, alu_add_lem, IsDifference, alu_sub_lem}
use tortoise.Alu.Compare.{relation, cond-alu_sub}
use tortoise.Dcache.{Tables, mem_written}
use tortoise.Dcache.Drop.{mem_written_lem}
use tortoise.Dcache.Coherence.{entry_at, IsCoherent, write_ram-IsCoherent}
use tortoise.Isa.Decode.{op_len}
use tortoise.Isa.Codes.{op_len_bounds}
use tortoise.Mem.Bytes.{load-store}
use tortoise.Mem.Phys.{load, store, write_ram}
use tortoise.Cpu.Step.{table_of, next_entry}
use tortoise.Cpu.Fetch.Cache.{next_entry_lem}
use tortoise.Tests.Machines.{blank, add_program}

-- -1 < 1, although 0xFFFFFFFF is the greater word.
cond-alu_sub_example : cond (alu_sub 0 0xFFFF_FFFF 1 0).flags blt ≡ relation blt 0xFFFF_FFFF 1
cond-alu_sub_example = cond-alu_sub 0 0xFFFF_FFFF 1 blt (omega arith) (omega arith)

alu_add_example :
    let r = u32 (0x7FFF_FFFF + 1 + 1) in
    let s = alu_add 0 0x7FFF_FFFF 1 1 in
    (s.value ≡ r)
    × FlagsAre s.flags
        (r == 0)
        (ltb 0xFFFF_FFFF (0x7FFF_FFFF + 1 + 1))
        (has_bit 31 r)
        (not (eq_ℤ (signed32 0x7FFF_FFFF +ℤ signed32 1 +ℤ pos 1) (signed32 r)))
alu_add_example = alu_add_lem 0 0x7FFF_FFFF 1 1 (omega arith) (omega arith) (omega arith)

-- Page 0 has a table with no filled entry yet.
abbrev one_table : Tables
one_table page = if page == 0 then some (table_of none) else none

abbrev running : Machine
running = record blank {
  f_tag = 0;
  f_ptr = in_ram 0;
  f_ppn = some 0;
  dc_tab = one_table;
  memory = add_program;
}

one_table_page :
    (page : ℕ) (t : ℕ → DEnt) → one_table page ≡ some t → (page ≡ 0) × (table_of none ≡ t)
one_table_page zero t e = (refl, ap (λ o off. table_of o off) e)
one_table_page (suc page) t e = ground arith

running-IsCoherent : IsCoherent running.memory running.ram_size running.dc_tab
unfolding tortoise.Cpu.Init.reset_cpu
running-IsCoherent = record {
  filled =
      λ page t off e full. absurd (full (sym (ap (λ u. (u off).len) (one_table_page page t e).1)));
  in_ram = λ page t e. omega (arith, (one_table_page page t e).0);
}

write_ram-IsCoherent_example :
    let m' = write_ram 0xFFE 0x12345678 4 running in IsCoherent m'.memory m'.ram_size m'.dc_tab
unfolding tortoise.Cpu.Init.reset_cpu
write_ram-IsCoherent_example =
    write_ram-IsCoherent running 0xFFE 0x12345678 4 (inr (inr refl)) (omega arith) (omega arith)
      running-IsCoherent

next_entry_example :
    (m' : Machine) × (next_entry 6 running ≡ ok (entry_at running.memory (0 * 4096 + 6)) m')
    × (next_entry 6 (record running { dc_on = false })
        ≡ ok (entry_at running.memory (0 * 4096 + 6)) (record running { dc_on = false }))
    × (m' ≡ record running { dc_tab = m'.dc_tab })
    × IsCoherent running.memory running.ram_size m'.dc_tab
unfolding tortoise.Cpu.Init.reset_cpu
next_entry_example =
    next_entry_lem running 6 0 (omega arith) (omega arith) (record { tag = refl; at_base = refl })
      running-IsCoherent (omega arith) refl refl

mem_written_example : mem_written 0xFFE 4 one_table 0 ≡ (
    if leb (0xFFE / 4096) 0 && leb 0 ((0xFFE + 4 - 1) / 4096) && ltb 0 65536
    then none
    else one_table 0)
mem_written_example = mem_written_lem 0xFFE 4 one_table 0 (omega arith) (omega arith)

load-store_example : load (store add_program 0x100 0x12345678 2) 0x100 2 ≡ 0x12345678 % 2 ^ (8 * 2)
load-store_example = load-store add_program 0x100 0x12345678 2 (inr (inl refl))

op_len_example : (1 ≤ op_len 0x22) × (op_len 0x22 ≤ 6)
op_len_example = op_len_bounds 0x22

alu_sub_example :
    let s = alu_sub 0 3 5 1 in
    let r = s.value in
    (r < 2 ^ 32)
    × IsDifference 3 5 1 r
    × FlagsAre s.flags
        (r == 0)
        (ltb 3 (5 + 1))
        (has_bit 31 r)
        (not (eq_ℤ (signed32 3 -ℤ signed32 5 -ℤ pos 1) (signed32 r)))
alu_sub_example = alu_sub_lem 0 3 5 1 (omega arith) (omega arith) (omega arith)
