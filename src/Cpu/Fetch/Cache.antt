-- ===== src/Cpu/Fetch/Cache.antt =====
-- The lookup of an instruction in `step_one` of src/cpu.c, through the decoded-instruction cache
-- and without it.
use tortoise.Base.{
  ℕ, zero, suc, ◌+◌, ◌-◌, ◌*◌, ◌^◌, ◌≤◌, ◌<◌, ◌≡◌, ◌≢◌, refl, arith, ◌⊎◌, inl, inr, Bool, true,
  false, ◌&&◌, Option, none, some, leb, ◌==◌, ◌!=◌, if◌then◌else◌, update, update_cases,
  update-update, le→leb, ==_iff, Bool-cases, sym, ◌∙◌, ap, page_of, offset_of, add32,
}
use tortoise.Machine.{in_ram, DEnt, Machine}
use tortoise.Machine.Monad.{Outcome, ok, bind_ok}
use tortoise.Dcache.Coherence.{IsCoherent, entry_at, bytes_from}
use tortoise.Isa.Decode.{op_len}
use tortoise.Isa.Codes.{op_len_bounds}
use tortoise.Cpu.Fetch.{fetch_at, fetch_bytes, decode}
use tortoise.Cpu.Step.{table_of, cached_entry, through_cache, next_entry}

-- The fetch window stands on the page of `pc`, at the RAM address `base`.
pub record IsOpen (m : Machine) (pc base : ℕ) : Type 0 where
  pub tag : page_of pc ≡ m.f_tag
  pub at_base : m.f_ptr ≡ in_ram base

module _ (m : Machine) (base : ℕ) where
  fetch_open : (pc : ℕ) → IsOpen m pc base → fetch_at pc m ≡ ok (m.memory (base + offset_of pc)) m
  unfolding fetch_at
  fetch_open pc o = rw ((==_iff (page_of pc) m.f_tag).1 o.tag, o.at_base)

  -- The next `n` bytes lie in the window, from the address `at` on.
  abbrev pub InWindow : ℕ → ℕ → ℕ → Type 0
  InWindow n pc at =
      (n ≡ 0) ⊎ ((page_of pc ≡ m.f_tag) × (at ≡ base + offset_of pc) × (offset_of pc + n ≤ 4096))

  pub next-InWindow :
      (n pc at : ℕ)
      → pc < 2 ^ 32
      → (page_of pc ≡ m.f_tag) × (at ≡ base + offset_of pc) × (offset_of pc + suc n ≤ 4096)
      → InWindow n (add32 pc 1) (at + 1)
  next-InWindow zero pc at small w = inl refl
  next-InWindow (suc n) pc at small w = inr (omega arith)

  pub fetch_bytes_open :
      (n pc at : ℕ)
      → pc < 2 ^ 32
      → m.f_ptr ≡ in_ram base
      → InWindow n pc at
      → fetch_bytes n pc m ≡ ok (bytes_from m.memory at n) m
  unfolding fetch_bytes
  fetch_bytes_open zero pc at small p w = refl
  fetch_bytes_open (suc n) pc at small p (inl w) = absurd (omega arith)
  fetch_bytes_open (suc n) pc at small p (inr w) =
      bind_ok (fetch_at pc) _ m m (m.memory at)
        (rw (w.1) (fetch_open pc (record { tag = w.0; at_base = p })))
      ∙ bind_ok (fetch_bytes n (add32 pc 1)) _ m m _
          (fetch_bytes_open n (add32 pc 1) (at + 1) (omega arith) p (next-InWindow n pc at small w))

  -- `decode` through the window reads the entry that memory holds.
  decode_open :
      (pc : ℕ)
      → pc < 2 ^ 32
      → offset_of pc ≤ 0xFFA
      → IsOpen m pc base
      → decode pc m ≡ ok (entry_at m.memory (base + offset_of pc)) m
  unfolding decode
  decode_open pc small low o =
      let at = base + offset_of pc in
      let n = op_len (m.memory at) - 1 in
      let len = op_len_bounds (m.memory at) in
      bind_ok (fetch_at pc) _ m m (m.memory at) (fetch_open pc o)
      ∙ bind_ok (fetch_bytes n (add32 pc 1)) _ m m _ (
          fetch_bytes_open n (add32 pc 1) (at + 1) (omega arith) o.at_base
            (next-InWindow n pc at small (o.tag, refl, omega arith)))

ne_zero : (n : ℕ) → (n != 0) ≡ true → n ≢ 0
ne_zero n h = ground arith

module _ (m : Machine) (pc ppn : ℕ) (small : pc < 2 ^ 32) (low : offset_of pc ≤ 0xFFA)
    (o : IsOpen m pc (ppn * 4096)) (c : IsCoherent m.memory m.ram_size m.dc_tab)
    (page_in_ram : ppn * 4096 < m.ram_size) where
  abbrev expected : DEnt
  expected = entry_at m.memory (ppn * 4096 + offset_of pc)

  abbrev old_table : ℕ → DEnt
  old_table = table_of (m.dc_tab ppn)

  abbrev with_table : (ℕ → DEnt) → Machine
  with_table t = record m { dc_tab = update m.dc_tab ppn (some t) }

  -- What the page's entries must satisfy, at one offset.
  abbrev IsRight : (ℕ → DEnt) → ℕ → Type 0
  IsRight t off =
      (t off).len ≢ 0
      → (t off ≡ entry_at m.memory (ppn * 4096 + off))
        × (off + op_len (m.memory (ppn * 4096 + off)) ≤ 4096)

  old-IsRight :
      (tab : Option (ℕ → DEnt)) (off : ℕ) → m.dc_tab ppn ≡ tab → IsRight (table_of tab) off
  old-IsRight none off e full = absurd (full refl)
  old-IsRight (some t) off e full = c.filled ppn t off e full

  moved_right :
      (t t' : ℕ → DEnt) (page off : ℕ)
      → IsRight t off
      → page ≡ ppn
      → some t ≡ some t'
      → (t' off).len ≢ 0
      → (t' off ≡ entry_at m.memory (page * 4096 + off))
        × (off + op_len (m.memory (page * 4096 + off)) ≤ 4096)
  moved_right t t' page off right p q full =
      let same : t' ≡ t = cc in rw (p, same) (right (rw same at full))

  -- A right table may stand for the page.
  with_table-IsCoherent :
      (t : ℕ → DEnt)
      → ((off : ℕ) → IsRight t off)
      → IsCoherent m.memory m.ram_size (update m.dc_tab ppn (some t))
  with_table-IsCoherent t right = record {
    filled = λ page t' off e full. elim (update_cases m.dc_tab ppn (some t) page) [
      | inl (p, v) ↦ moved_right t t' page off (right off) p (sym v ∙ e) full
      | inr (p, v) ↦ c.filled page t' off (sym v ∙ e) full
    ];
    in_ram = λ page t' e. elim (update_cases m.dc_tab ppn (some t) page) [
      | inl (p, v) ↦ rw p page_in_ram
      | inr (p, v) ↦ c.in_ram page t' (sym v ∙ e)
    ];
  }

  new-IsRight : (off : ℕ) → IsRight (update old_table (offset_of pc) expected) off
  new-IsRight off full = elim (update_cases old_table (offset_of pc) expected off) [
    | inl (p, v) ↦
        (v ∙ rw p, rw p (omega (arith, op_len_bounds (m.memory (ppn * 4096 + offset_of pc)))))
    | inr (p, v) ↦
        let (is_entry, fits) = old-IsRight (m.dc_tab ppn) off refl (rw v at full) in
        (v ∙ is_entry, fits)
  ]

  -- What `cached_entry` returns, from an entry that is there or from one that it fills.
  Returns : Outcome DEnt → Type 0
  Returns r =
      (m' : Machine) × (r ≡ ok expected m')
      × (m' ≡ record m { dc_tab = m'.dc_tab })
      × IsCoherent m.memory m.ram_size m'.dc_tab

  refilled : decode pc (with_table old_table) ≡ ok expected (with_table old_table)
  refilled =
      decode_open (with_table old_table) (ppn * 4096) pc small low
        (record { tag = o.tag; at_base = o.at_base })

  overwritten :
      let twice =
        update
          (update m.dc_tab ppn (some old_table))
          ppn
          (some (update old_table (offset_of pc) expected)) in
      ok expected (record m { dc_tab = twice })
      ≡ ok expected (with_table (update old_table (offset_of pc) expected))
  overwritten =
      ap (λ tab. ok expected (record m { dc_tab = tab }))
        (update-update m.dc_tab ppn (some old_table)
          (some (update old_table (offset_of pc) expected)))

  cached_entry_lem : Returns (cached_entry pc ppn m)
  unfolding cached_entry Returns
  cached_entry_lem = elim (Bool-cases ((old_table (offset_of pc)).len != 0)) [
    | inl full ↦ (
      with_table old_table,
      rw full (
          ap (λ e. ok e (with_table old_table))
            (old-IsRight (m.dc_tab ppn) (offset_of pc) refl (ne_zero _ full)).0),
      refl,
      with_table-IsCoherent old_table (λ off. old-IsRight (m.dc_tab ppn) off refl),
    )
    | inr empty ↦ (
      with_table (update old_table (offset_of pc) expected),
      rw
          (
            empty,
            refilled,
            le→leb (offset_of pc + op_len (m.memory (ppn * 4096 + offset_of pc))) 4096
                (omega (arith, op_len_bounds (m.memory (ppn * 4096 + offset_of pc)))),
          )
          overwritten,
      refl,
      with_table-IsCoherent _ new-IsRight,
    )
  ]

  chosen :
      (on same low : Bool) (p : Option ℕ)
      → on ≡ true
      → same ≡ true
      → low ≡ true
      → p ≡ some ppn
      → (if on && same && low then through_cache p pc m else decode pc m) ≡ cached_entry pc ppn m
  unfolding through_cache
  chosen on same low p e f g h = rw (e, f, g, h)

  -- For an address below 2 ^ 32, at most 0xFFA into its page: with the window on that page, which
  -- lies in RAM, and the cache on and coherent, a step gets the
  -- very entry that it gets with the cache off, the step changes nothing but the tables of the
  -- cache, and the cache is coherent afterwards.
  pub next_entry_lem :
      m.dc_on ≡ true
      → m.f_ppn ≡ some ppn
      → (m' : Machine) × (next_entry pc m ≡ ok expected m')
        × (next_entry pc (record m { dc_on = false }) ≡ ok expected (record m { dc_on = false }))
        × (m' ≡ record m { dc_tab = m'.dc_tab })
        × IsCoherent m.memory m.ram_size m'.dc_tab
  unfolding next_entry Returns
  next_entry_lem on at_page =
      let (m', returns, frame, coherent) = cached_entry_lem in
      (
        m',
        chosen m.dc_on (page_of pc == m.f_tag) (leb (offset_of pc) 0xFFA) m.f_ppn on
              ((==_iff (page_of pc) m.f_tag).1 o.tag) (le→leb (offset_of pc) 0xFFA low) at_page
            ∙ returns,
        decode_open (record m { dc_on = false }) (ppn * 4096) pc small low
            (record { tag = o.tag; at_base = o.at_base }),
        frame,
        coherent,
      )
