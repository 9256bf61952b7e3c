-- ===== src/Dcache/Drop.antt =====
-- The loop of `cpu_mem_written` of src/cpu.c over the pages of a write.
use tortoise.Base.{
  ℕ, zero, suc, ◌+◌, ◌-◌, ◌/◌, ◌^◌, ◌≤◌, ◌<◌, ◌≡◌, arith, ◌&&◌, none, ltb, leb, if◌then◌else◌,
  update, u32,
}
use tortoise.Dcache.{Tables, drop_pages, mem_written}

-- The loop drops the pages `a` to `a + rounds - 1`, as far as there are tables.
drop_pages_lem :
    (rounds a : ℕ) (tab : Tables) (page : ℕ)
    → drop_pages rounds a tab page
      ≡ (if leb a page && ltb page (a + rounds) && ltb page 65536 then none else tab page)
unfolding drop_pages
drop_pages_lem zero a tab page = ground arith
drop_pages_lem (suc rounds) a tab page =
    ground
      (arith, drop_pages_lem rounds (a + 1) (if ltb a 65536 then update tab a none else tab) page)

-- A write of at least one byte that ends at 2 ^ 32 at the latest drops the tables of exactly the pages that it touches.
pub mem_written_lem :
    (pa n : ℕ) (tab : Tables) (page : ℕ)
    → 0 < n
    → pa + n ≤ 2 ^ 32
    → mem_written pa n tab page ≡ (
        if leb (pa / 4096) page && leb page ((pa + n - 1) / 4096) && ltb page 65536
        then none
        else tab page)
unfolding mem_written
mem_written_lem pa n tab page pos fits =
    ground (arith, drop_pages_lem (u32 (pa + n - 1) / 4096 + 1 - pa / 4096) (pa / 4096) tab page)
