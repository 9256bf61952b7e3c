-- ===== src/Cpu/Fault/Paging.antt =====
-- Page faults of accesses through the TLB, in src/cpu.c.
use tortoise.Base.{ℕ, update}
use tortoise.Machine.{Machine}
use tortoise.Machine.Monad.{on_cpu}

-- The machine with the address of the access in CR2.
abbrev pub with_cr2 : ℕ → Machine → Machine
with_cr2 va m = on_cpu (λ c. record c { cr = update c.cr 2 va }) m
