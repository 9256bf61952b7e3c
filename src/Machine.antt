-- ===== src/Machine.antt =====
-- The state of the emulator: `CPU` and the opcode-independent constants of include/cpu.h, the
-- statics of src/cpu.c (TLB, fetch window, decoded-instruction cache, instruction buffer) and of
-- src/dev.c and src/net.c (registers of the devices), with the outcome of a C call that may
-- `longjmp`. Child Monad has the outcome type and the sequencing of effects.
pub mod Monad
pub mod Steady
use tortoise.Base.{ℕ, Bool, List, Option}

pub data Mode : Type 0 where
  supervisor user : Mode

-- `CPU`; `int_pending` and `int_vector`, which nothing reads, are left out, and `memory` is a
-- field of `Machine`. `halted` and `int_enabled` hold 0 or 1 in C.
pub record Cpu : Type 0 where
  pub pc : ℕ
  pub registers : ℕ → ℕ
  pub sp : ℕ
  pub halted : Bool
  pub flags : ℕ
  pub int_enabled : Bool
  pub mode : Mode
  pub syscall_pc : ℕ
  pub disk_sector : ℕ
  pub disk_buffer : ℕ
  pub ram_size : ℕ
  pub cr : ℕ → ℕ
  pub icount : ℕ
  pub ilimit : ℕ
  pub exit_code : ℕ
  pub inst_pc : ℕ
  pub depth : ℕ

-- A TLB entry is valid if its generation is the current one.
pub record TlbEnt : Type 0 where
  pub gen : ℕ
  pub pte : ℕ
  pub pte_pa : ℕ

-- A decoded instruction: its bytes; an entry whose length is 0 is empty.
pub record DEnt : Type 0 where
  pub len : ℕ
  pub b : List ℕ

-- What `f_ptr` points to: a byte offset in RAM or in the ROM.
pub data FetchPtr : Type 0 where
  null : FetchPtr
  in_ram : ℕ → FetchPtr
  in_rom : ℕ → FetchPtr

-- One unit of the disk controller: its registers, the size of its medium and the bytes on it.
pub record DiskUnit : Type 0 where
  pub d_sector : ℕ
  pub d_count : ℕ
  pub d_addr : ℕ
  pub d_status : ℕ
  pub d_cmd : ℕ
  pub d_done : ℕ

-- `DevState`, the interrupt controller and the console.
pub record Dev : Type 0 where
  pub legacy_ticks : ℕ
  pub t_count : ℕ
  pub t_period : ℕ
  pub t_ctrl : ℕ
  pub t_prescale : ℕ
  pub t_frac : ℕ
  pub t_phase : ℕ
  pub t_last : ℕ
  pub u_ctrl : ℕ
  pub disk : ℕ → DiskUnit
  pub poll_at : ℕ
  pub pic_pending : ℕ
  pub pic_mask : ℕ
  pub dev_next : ℕ

-- A frame on its way to the machine: `len` and `d` of `Frame`.
pub record Frame : Type 0 where
  pub len : ℕ
  pub d : ℕ → ℕ

pub data Backend : Type 0 where
  no_backend loop udp : Backend

-- The registers, the transmit buffer and the receive ring of the network controller.
pub record Net : Type 0 where
  pub ctrl : ℕ
  pub status : ℕ
  pub tx_addr : ℕ
  pub tx_len : ℕ
  pub rx_addr : ℕ
  pub rx_len : ℕ
  pub stx : ℕ
  pub srx : ℕ
  pub sdrop : ℕ
  pub tx_pending : Bool
  pub tx_done : ℕ
  pub txlen : ℕ
  pub txbuf : ℕ → ℕ
  pub q : ℕ → Frame
  pub qh : ℕ
  pub qn : ℕ
  pub mac : ℕ → ℕ
  pub backend : Backend

-- What the emulator has from its host: the bytes that the console will read (`available` are
-- there now, `arrivals` come at the next polls of the terminal), what was written, the disk
-- images (or, with no file, the disk in the emulator's memory), the datagrams that the next polls of the socket find, the values that `time` and
-- `rand` return, and `patience`, how many rounds of the idle loop it waits through.
pub record Host : Type 0 where
  pub available : List ℕ
  pub arrivals : List (List ℕ)
  pub in_stdin : Bool
  pub in_eof : Bool
  pub output : List ℕ
  pub disk_nsec : ℕ → ℕ
  pub disk_file : ℕ → Bool
  pub disk_data : ℕ → ℕ → ℕ
  pub datagrams : List (List (List ℕ))
  pub sent : List Frame
  pub now : ℕ
  pub random : List ℕ
  pub det_clock : Bool
  pub patience : ℕ

pub record Machine : Type 0 where
  pub cpu : Cpu
  pub open cpu use *
  pub memory : ℕ → ℕ
  pub rom : ℕ → ℕ
  pub rom_present : Bool
  pub tlb : ℕ → TlbEnt
  pub tlb_gen : ℕ
  pub f_tag : ℕ
  pub f_ptr : FetchPtr
  pub f_ppn : Option ℕ
  pub dc_tab : ℕ → Option (ℕ → DEnt)
  pub dc_on : Bool
  pub ib : List ℕ
  pub ipos : ℕ
  pub dev : Dev
  pub net : Net
  pub host : Host
