-- ===== src/Cpu/Exec/Steady.antt =====
-- How the instructions of src/cpu.c end.
pub mod Imm16
pub mod Pair16
pub mod Imm32
pub mod Control
pub mod Alu32
pub mod Memory
pub mod System
pub mod Switch
