-- ===== src/Tests/Machines.antt =====
-- A machine before it is switched on, small programs, and what they compute.
use tortoise.Base.{ℕ, zero, suc, true, false, List, [], ◌∷◌, Option, none, some, get_or}
use tortoise.Machine.{null, Dev, Net, Host, no_backend, Machine}
use tortoise.Dev.Reset.{idle_unit}
use tortoise.Mem.Tlb.{empty_entry}
use tortoise.Cpu.Init.{reset_cpu, cpu_init_size, load_program}
use tortoise.Cpu.Step.{cpu_run, landed}

abbrev blank_dev : Dev
blank_dev = record {
  legacy_ticks = 0;
  t_count = 0;
  t_period = 0;
  t_ctrl = 0;
  t_prescale = 1000;
  t_frac = 0;
  t_phase = 0;
  t_last = 0;
  u_ctrl = 0;
  disk = λ _. idle_unit;
  poll_at = 0;
  pic_pending = 0;
  pic_mask = 0;
  dev_next = 0;
}

abbrev blank_net : Net
blank_net = record {
  ctrl = 0;
  status = 0;
  tx_addr = 0;
  tx_len = 0;
  rx_addr = 0;
  rx_len = 0;
  stx = 0;
  srx = 0;
  sdrop = 0;
  tx_pending = false;
  tx_done = 0;
  txlen = 0;
  txbuf = λ _. 0;
  q = λ _. record { len = 0; d = λ _. 0 };
  qh = 0;
  qn = 0;
  mac = λ i. if_first i;
  backend = no_backend;
}
  where
    if_first : ℕ → ℕ
    if_first zero = 2
    if_first (suc i) = 0

abbrev blank_host : Host
blank_host = record {
  available = [];
  arrivals = [];
  in_stdin = false;
  in_eof = false;
  output = [];
  disk_nsec = λ _. 0;
  disk_file = λ _. false;
  disk_data = λ _ _. 0;
  datagrams = [];
  sent = [];
  now = 0;
  random = [];
  det_clock = true;
  patience = 10;
}

abbrev pub blank : Machine
blank = record {
  cpu = reset_cpu 65536;
  memory = λ _. 0;
  rom = λ _. 0;
  rom_present = false;
  tlb = λ _. empty_entry;
  tlb_gen = 1;
  f_tag = 1;
  f_ptr = null;
  f_ppn = none;
  dc_tab = λ _. none;
  dc_on = true;
  ib = [];
  ipos = 0;
  dev = blank_dev;
  net = blank_net;
  host = blank_host;
}

-- LOAD32 R0, 5; ADD32 R0, 7; STORE32 R0, 0x100; HALT
abbrev sum_program : List ℕ
sum_program =
    0x20 ∷ 0 ∷ 5 ∷ 0 ∷ 0 ∷ 0 ∷ 0x22 ∷ 0 ∷ 7 ∷ 0 ∷ 0 ∷ 0 ∷ 0x21 ∷ 0 ∷ 0 ∷ 1 ∷ 0 ∷ 0 ∷ 0xFF ∷ []

-- The program from address 0 on, over cleared memory.
abbrev pub add_program : ℕ → ℕ
add_program j = get_or sum_program j 0

start : List ℕ → Option Machine
unfolding cpu_init_size load_program
start program = elim (landed (cpu_init_size 65536 blank)) [
  | none ↦ none
  | some m ↦ some (load_program program m)
]

run : ℕ → List ℕ → Option Machine
unfolding start cpu_run
run fuel program = elim (start program) [ none ↦ none | some m ↦ cpu_run fuel m ]

probe : Option Machine → List ℕ
probe none = []
probe (some m) = m.registers 0 ∷ m.memory 0x100 ∷ m.pc ∷ m.icount ∷ []

out : List ℕ
unfolding run probe
out = probe (run 10 sum_program)
