-- ===== src/Mem/Tlb/Flush.antt =====
-- The generations of the TLB of src/cpu.c and `cpu_flush_tlb`.
use tortoise.Base.{◌≢◌, arith, ℕ, ◌^◌, ◌≤◌, ◌<◌}
use tortoise.Machine.{Machine}
use tortoise.Mem.Tlb.{flush_tlb}

-- The generations of the entries are none of the future.
pub record IsDated (m : Machine) : Type 0 where
  pub past : (page : ℕ) → (m.tlb page).gen ≤ m.tlb_gen
  pub small : m.tlb_gen < 2 ^ 32

flush_tlb-past :
    (m : Machine) → IsDated m → (page : ℕ) → ((flush_tlb m).tlb page).gen < (flush_tlb m).tlb_gen
unfolding flush_tlb
flush_tlb-past m d page = ground (arith, d.past page, d.small)

flush_tlb-small : (m : Machine) → (flush_tlb m).tlb_gen < 2 ^ 32
unfolding flush_tlb
flush_tlb-small m = ground arith

-- From entries whose generations are at most the current one, a flush leaves no page with an
-- entry of the current generation, and the generations of the entries stay behind it.
pub flush_tlb-IsDated :
    (m : Machine)
    → IsDated m
    → ((page : ℕ) → ((flush_tlb m).tlb page).gen ≢ (flush_tlb m).tlb_gen) × IsDated (flush_tlb m)
flush_tlb-IsDated m d = (
  λ page e. omega (arith, flush_tlb-past m d page),
  record { past = λ page. omega (arith, flush_tlb-past m d page); small = flush_tlb-small m },
)
