-- ===== src/Cpu/Exec.antt =====
-- `execute_instruction` of src/cpu.c: the check of privileged instructions and the switch over
-- the opcode. Each case of the switch is a definition of a child; the trace messages of `-v` are
-- left out.
pub mod Imm16
pub mod Imm32
pub mod Pair16
pub mod Indirect
pub mod Control
pub mod Alu32
pub mod Memory
pub mod System
pub mod Switch
pub mod Steady
