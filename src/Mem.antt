-- ===== src/Mem.antt =====
-- The memory of src/cpu.c: physical accesses, the TLB and page tables, virtual accesses, and
-- `mem_peek` and `mem_poke` of the debuggers. An access can raise a fault, and a fault makes
-- accesses: the children take `cpu_fault` as their section's parameter `fault`, and Fault ties the
-- knot.
pub mod Phys
pub mod Tlb
pub mod Virtual
pub mod Peek
pub mod Bytes
pub mod Steady
