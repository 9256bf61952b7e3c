-- ===== src/Dcache.antt =====
-- The cache of decoded instructions of src/cpu.c: one table of entries for each physical page
-- that was executed, thrown away when the page is written. `dc_tab` holds `none` for a null
-- pointer.
pub mod Drop
pub mod Coherence
use tortoise.Base.{
  ℕ, zero, suc, ◌+◌, ◌-◌, ◌/◌, ◌^◌, Bool, Option, none, ltb, leb, ◌==◌, ◌&&◌, if◌then◌else◌, u32,
  update,
}
use tortoise.Machine.{DEnt, Machine}
use tortoise.Machine.Monad.{M, Void, ◌>>◌, modify, ok}

abbrev pub Tables : Type 0
Tables = ℕ → Option (ℕ → DEnt)

unfoldable pub cpu_dc_flush : M Void
cpu_dc_flush = modify (λ m. record m { dc_tab = λ _. none })

unfoldable pub cpu_set_dcache : Bool → M Void
unfolding cpu_dc_flush
cpu_set_dcache on = do modify (λ m. record m { dc_on = on }); cpu_dc_flush

-- The loop of `cpu_mem_written` from page `a` on, with the number of rounds left.
unfoldable pub drop_pages : ℕ → ℕ → Tables → Tables
drop_pages zero a tab = tab
drop_pages (suc rounds) a tab =
    drop_pages rounds (a + 1) (if ltb a 65536 then update tab a none else tab)

-- The tables after a write of the `n` bytes at `pa`.
unfoldable pub mem_written : ℕ → ℕ → Tables → Tables
unfolding drop_pages
mem_written pa n tab =
    let a = pa / 4096 in
    let b = u32 (pa + n - 1) / 4096 in if n == 0 then tab else drop_pages (b + 1 - a) a tab

unfoldable pub cpu_mem_written : ℕ → ℕ → M Void
unfolding mem_written
cpu_mem_written pa n = modify (λ m. record m { dc_tab = mem_written pa n m.dc_tab })
