-- ===== src/Tests.antt =====
-- Concrete machines and programs, runs of them, and the theorems at concrete inputs.
mod Machines
mod Examples
mod Faults
mod Memory
mod Switch
mod Kernels
mod Messages
mod Streams
mod Patterns
