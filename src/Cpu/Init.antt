-- ===== src/Cpu/Init.antt =====
-- `cpu_init_size` and `load_program` of src/cpu.c: the machine when it is switched on, and a flat
-- program at address 0. Allocation does not fail.
use tortoise.Base.{ℕ, ◌+◌, ◌-◌, ◌^◌, true, false, List, [], ◌∷◌, ltb, if◌then◌else◌, get_or, update}
use tortoise.Machine.{supervisor, Cpu, Machine}
use tortoise.Machine.Monad.{M, Void, ◌>>◌, modify}
use tortoise.Dcache.{cpu_dc_flush}
use tortoise.Dev.Reset.{dev_reset}
use tortoise.Mem.Tlb.{cpu_flush_tlb}

unfoldable pub reset_cpu : ℕ → Cpu
reset_cpu ram_size = record {
  pc = 0;
  registers = λ _. 0;
  sp = ram_size;
  halted = false;
  flags = 0;
  int_enabled = true;
  mode = supervisor;
  syscall_pc = 0;
  disk_sector = 0;
  disk_buffer = 0;
  ram_size = ram_size;
  cr = update (λ _. 0) 8 ram_size;
  icount = 0;
  ilimit = 2 ^ 64 - 1;
  exit_code = 0;
  inst_pc = 0;
  depth = 0;
}

unfoldable pub cpu_init_size : ℕ → M Void
unfolding reset_cpu dev_reset cpu_flush_tlb cpu_dc_flush
cpu_init_size ram_size = do
  modify (λ m. record m { cpu = reset_cpu ram_size; memory = λ _. 0 })
  cpu_flush_tlb
  cpu_dc_flush
  dev_reset

abbrev size_of : List ℕ → ℕ
size_of [] = 0
size_of (b ∷ bs) = size_of bs + 1

-- A program larger than the RAM is not loaded.
unfoldable pub load_program : List ℕ → Machine → Machine
load_program program m = if ltb m.ram_size (size_of program) then m else record m {
  memory = λ a. if ltb a (size_of program) then get_or program a 0 else m.memory a;
}
