-- ===== src/Kernel/Klog.antt =====
-- The log of os/kernel/kmem.c: `klog_putc` and `klog_read` over the ring `klog_buf`. KLOG is 16384;
-- `klog_len` is 32 bits wide.
pub mod Ring
use tortoise.Base.{ℕ, zero, suc, ◌+◌, ◌-◌, ◌%◌, List, [], ◌∷◌, ltb, if◌then◌else◌, update, u32, u8}

pub record Klog : Type 0 where
  pub buf : ℕ → ℕ
  pub len : ℕ

unfoldable pub klog_putc : ℕ → Klog → Klog
klog_putc c k = record { buf = update k.buf (k.len % 16384) (u8 c); len = u32 (k.len + 1) }

-- The bytes that the loop of `klog_read` copies, from offset `off` on.
unfoldable pub copied : Klog → ℕ → ℕ → List ℕ
copied k off zero = []
copied k off (suc n) =
    let rest = copied k (u32 (off + 1)) n in
    if ltb off k.len then k.buf (off % 16384) ∷ rest else []

-- `start`: the first offset that the ring still has.
unfoldable pub oldest : Klog → ℕ
oldest k = if ltb 16384 k.len then k.len - 16384 else 0

unfoldable pub klog_read : Klog → ℕ → ℕ → List ℕ
unfolding copied oldest
klog_read k off n = copied k (if ltb off (oldest k) then oldest k else off) n

-- The log at boot, and after writing some bytes.
abbrev pub empty_log : Klog
empty_log = record { buf = λ i. 0; len = 0 }

unfoldable pub written : List ℕ → Klog → Klog
unfolding klog_putc
written [] k = k
written (c ∷ cs) k = written cs (klog_putc c k)
