-- ===== src/Dcache/Coherence.antt =====
-- The invariant of the decoded-instruction cache of src/cpu.c: a filled entry is the instruction
-- that memory holds there, and lies in its page.
use tortoise.Base.{
  ℕ, zero, suc, ◌+◌, ◌-◌, ◌*◌, ◌/◌, ◌^◌, ◌≤◌, ◌<◌, ◌≡◌, ◌≢◌, refl, arith, ◌⊎◌, inl, inr, Bool,
  false, ◌||◌, some, List, [], ◌∷◌, u32, Bool-cases, sym, ◌∙◌,
}
use tortoise.Machine.{DEnt, Machine}
use tortoise.Dcache.{Tables, mem_written}
use tortoise.Dcache.Drop.{mem_written_lem}
use tortoise.Isa.Decode.{op_len}
use tortoise.Isa.Codes.{op_len_bounds}
use tortoise.Mem.Phys.{is_cached, store, write_ram}
use tortoise.Mem.Bytes.{IsSize, store_frame}

abbrev pub bytes_from : (ℕ → ℕ) → ℕ → ℕ → List ℕ
bytes_from memory at zero = []
bytes_from memory at (suc n) = memory at ∷ bytes_from memory (at + 1) n

-- The instruction at an address of memory, as `decode` would fill an entry.
abbrev pub entry_at : (ℕ → ℕ) → ℕ → DEnt
entry_at memory at = record {
  len = op_len (memory at);
  b = memory at ∷ bytes_from memory (at + 1) (op_len (memory at) - 1);
}

pub record IsCoherent (memory : ℕ → ℕ) (ram_size : ℕ) (tab : Tables) : Type 0 where
  pub filled :
      (page : ℕ) (t : ℕ → DEnt) (off : ℕ)
      → tab page ≡ some t
      → (t off).len ≢ 0
      → (t off ≡ entry_at memory (page * 4096 + off))
        × (off + op_len (memory (page * 4096 + off)) ≤ 4096)
  pub in_ram : (page : ℕ) (t : ℕ → DEnt) → tab page ≡ some t → page * 4096 < ram_size

bytes_from-eq :
    (memory changed : ℕ → ℕ) (at n : ℕ)
    → ((j : ℕ) → at ≤ j → j < at + n → changed j ≡ memory j)
    → bytes_from changed at n ≡ bytes_from memory at n
bytes_from-eq memory changed at zero same = refl
bytes_from-eq memory changed at (suc n) same = rw (
  same at (omega arith) (omega arith),
  bytes_from-eq memory changed (at + 1) n (λ j lo hi. same j (omega arith) (omega arith)),
)

-- An entry depends on the bytes of its page only.
entry_at-eq :
    (memory changed : ℕ → ℕ) (page off : ℕ)
    → off + op_len (memory (page * 4096 + off)) ≤ 4096
    → off < 4096
    → ((j : ℕ) → page * 4096 ≤ j → j < page * 4096 + 4096 → changed j ≡ memory j)
    → entry_at changed (page * 4096 + off) ≡ entry_at memory (page * 4096 + off)
entry_at-eq memory changed page off fits small same =
    let at = page * 4096 + off in
    let first : changed at ≡ memory at = same at (omega arith) (omega arith) in
    rw (
      first,
      bytes_from-eq memory changed (at + 1) (op_len (memory at) - 1)
          (λ j lo hi. same j (omega arith) (omega arith)),
    )

-- A change of memory that leaves alone every page whose table is kept.
module _ (memory changed : ℕ → ℕ) (ram_size : ℕ) (tab kept : Tables)
    (shrinks : (page : ℕ) (t : ℕ → DEnt) → kept page ≡ some t → tab page ≡ some t)
    (outside : (page : ℕ) (t : ℕ → DEnt) (j : ℕ)
      → kept page ≡ some t
      → page * 4096 ≤ j
      → j < page * 4096 + 4096
      → changed j ≡ memory j) where
  pub IsCoherent-change : IsCoherent memory ram_size tab → IsCoherent changed ram_size kept
  IsCoherent-change c = record {
    filled = λ page t off e full.
        let (is_entry, fits) = c.filled page t off (shrinks page t e) full in
        let at = page * 4096 + off in
        let bounds = op_len_bounds (memory at) in
        let small : off < 4096 = omega arith in
        let first : changed at ≡ memory at = outside page t at e (omega arith) (omega arith) in
        (
          is_entry ∙ sym (entry_at-eq memory changed page off fits small (λ j. outside page t j e)),
          rw first fits,
        );
    in_ram = λ page t e. c.in_ram page t (shrinks page t e);
  }

-- What a write of `n` bytes at `pa` keeps is a table that was there, of a page that lies before
-- the write or behind it.
module _ (pa n : ℕ) (tab : Tables) (page : ℕ) (t : ℕ → DEnt) (pos : 0 < n) (fits : pa + n ≤ 2 ^ 32)
    (kept : mem_written pa n tab page ≡ some t) where
  kept_was : tab page ≡ some t
  kept_was = ground (arith, mem_written_lem pa n tab page)

  kept_apart : page < 65536 → (page * 4096 + 4096 ≤ pa) ⊎ (pa + n ≤ page * 4096)
  kept_apart small = ground (arith, mem_written_lem pa n tab page)

both_false : (a b : Bool) → (a || b) ≡ false → (a ≡ false) × (b ≡ false)
both_false a b h = ground arith

not_cached :
    (tab : Tables) (free page : ℕ) (t : ℕ → DEnt)
    → is_cached tab free ≡ false
    → tab page ≡ some t
    → page ≢ free
not_cached tab free page t h e same = ground arith

module _ (m : Machine) (pa v n : ℕ) (size : IsSize n) (inside : pa + n ≤ m.ram_size)
    (ram_small : m.ram_size ≤ 2 ^ 28) (c : IsCoherent m.memory m.ram_size m.dc_tab) where
  page_small : (page : ℕ) (t : ℕ → DEnt) → m.dc_tab page ≡ some t → page < 65536
  page_small page t e = omega (arith, c.in_ram page t e)

  -- Where the pages of the write have no tables, nothing needs to be dropped.
  uncached_apart :
      (page : ℕ) (t : ℕ → DEnt)
      → (is_cached m.dc_tab (pa / 4096) || is_cached m.dc_tab (u32 (pa + n - 1) / 4096)) ≡ false
      → m.dc_tab page ≡ some t
      → (page * 4096 + 4096 ≤ pa) ⊎ (pa + n ≤ page * 4096)
  uncached_apart page t free e =
      let (first, last) =
        both_false (is_cached m.dc_tab (pa / 4096)) (is_cached m.dc_tab (u32 (pa + n - 1) / 4096))
          free in
      omega (
        arith,
        size,
        not_cached m.dc_tab (pa / 4096) page t first e,
        not_cached m.dc_tab (u32 (pa + n - 1) / 4096) page t last e,
      )

  dropped : IsCoherent (store m.memory pa v n) m.ram_size (mem_written pa n m.dc_tab)
  dropped =
      IsCoherent-change m.memory _ m.ram_size m.dc_tab _
        (λ page t e. kept_was pa n m.dc_tab page t (omega arith) (omega arith) e)
        (λ page t j e lo hi. store_frame m.memory pa v n j size (
          omega (
            arith,
            kept_apart pa n m.dc_tab page t (omega arith) (omega arith) e
                (page_small page t (kept_was pa n m.dc_tab page t (omega arith) (omega arith) e)),
          )))
        c

  untouched :
      (is_cached m.dc_tab (pa / 4096) || is_cached m.dc_tab (u32 (pa + n - 1) / 4096)) ≡ false
      → IsCoherent (store m.memory pa v n) m.ram_size m.dc_tab
  untouched free =
      IsCoherent-change m.memory _ m.ram_size m.dc_tab _ (λ page t e. e)
        (λ page t j e lo hi.
          store_frame m.memory pa v n j size (omega (arith, uncached_apart page t free e)))
        c

  -- A store of 1, 2 or 4 bytes that lies inside a RAM of at most 2 ^ 28 bytes keeps the cache
  -- coherent with memory, also where it drops no table.
  pub write_ram-IsCoherent :
      let m' = write_ram pa v n m in IsCoherent m'.memory m'.ram_size m'.dc_tab
  write_ram-IsCoherent =
      elim (Bool-cases
        (is_cached m.dc_tab (pa / 4096) || is_cached m.dc_tab (u32 (pa + n - 1) / 4096))) [
          | inl e ↦ rw e dropped
          | inr e ↦ rw e (untouched e)
        ]
