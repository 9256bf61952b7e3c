-- ===== src/Cpu.antt =====
-- The processor of src/cpu.c over the memory: exceptions, the instruction set, the step.
pub mod Fault
pub mod Stack
pub mod Exec
pub mod Fetch
pub mod Step
pub mod Init
