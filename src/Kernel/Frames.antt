-- ===== src/Kernel/Frames.antt =====
-- The page frames of os/kernel/mm.c: `frame_alloc`, `frame_alloc_contig`, `frame_free`, `frame_ref`
-- and `frame_count`. `fbits` is the predicate that bit `i % 32` of its word `i / 32` is set; `fref`
-- has 16-bit counts, LOWMEM is 1024 pages, and clearing a frame is left out.
pub mod Count
pub mod Refs
pub mod Alloc
pub mod Contig
use tortoise.Kernel.Lowmem.{first_fit}
use tortoise.Base.{
  ℕ, zero, suc, ◌+◌, ◌-◌, ◌*◌, ◌/◌, ◌%◌, ◌^◌, Bool, true, false, not, ◌&&◌, ◌||◌, Option, none,
  some, ltb, leb, ◌==◌, if◌then◌else◌, update, u16, u32, sub32,
}

pub record Frames : Type 0 where
  pub fbits : ℕ → Bool
  pub fref : ℕ → ℕ
  pub nframes : ℕ
  pub nfree : ℕ
  pub fhint : ℕ

-- The frame that the loop of `frame_alloc` finds, in its `k` rounds from round `n` on.
unfoldable pub next_clear : ℕ → ℕ → Frames → Option ℕ
next_clear zero n s = none
next_clear (suc k) n s =
    let i = (s.fhint + n) % s.nframes in
    let rest = next_clear k (n + 1) s in if s.fbits i then rest else some i

-- LOWMEM + i * PAGE.
unfoldable pub frame_address : ℕ → ℕ
frame_address i = u32 (0x400000 + i * 4096)

unfoldable pub frame_alloc : Frames → ℕ × Frames
unfolding next_clear frame_address
frame_alloc s = elim (next_clear s.nframes 0 s) [
  | none ↦ (0, s)
  | some i ↦ (
    frame_address i,
    record s {
      fbits = update s.fbits i true;
      fref = update s.fref i 1;
      fhint = i + 1;
      nfree = sub32 s.nfree 1;
    },
  )
]

-- The inner loop of `frame_alloc_contig` on one of its arrays: `n` items from `i` on are set.
unfoldable pub set_run {ℓ} : {A : Type ℓ} → ℕ → ℕ → A → (ℕ → A) → ℕ → A
set_run zero i v f = f
set_run (suc n) i v f = set_run n (i + 1) v (update f i v)

-- The search is that of `low_alloc_n`, from frame 0 on.
unfoldable pub frame_alloc_contig : ℕ → Frames → ℕ × Frames
unfolding first_fit set_run frame_address
frame_alloc_contig n s = elim (first_fit (s.nframes + 1) s.nframes n 0 s.fbits) [
  | none ↦ (0, s)
  | some i ↦ (
    frame_address i,
    record s {
      fbits = set_run n i true s.fbits;
      fref = set_run n i 1 s.fref;
      nfree = sub32 s.nfree n;
    },
  )
]

-- `none` is the panic.
unfoldable pub fidx : ℕ → Frames → Option ℕ
fidx pa s =
    let i = sub32 pa 0x400000 / 4096 in
    if ltb pa 0x400000 || leb s.nframes i || not (s.fbits i) then none else some i

unfoldable pub drop_ref : ℕ → Frames → Frames
drop_ref i s =
    let left = (s.fref i + 65535) % 2 ^ 16 in
    if left == 0
    then record s {
      fref = update s.fref i left;
      fbits = update s.fbits i false;
      nfree = u32 (s.nfree + 1);
    }
    else record s { fref = update s.fref i left }

unfoldable pub frame_free : ℕ → Frames → Option Frames
unfolding fidx drop_ref
frame_free pa s = elim (fidx pa s) [ none ↦ none | some i ↦ some (drop_ref i s) ]

unfoldable pub frame_ref : ℕ → Frames → Option Frames
unfolding fidx
frame_ref pa s = elim (fidx pa s) [
  | none ↦ none
  | some i ↦ some (record s { fref = update s.fref i (u16 (s.fref i + 1)) })
]

unfoldable pub frame_count : ℕ → Frames → Option ℕ
unfolding fidx
frame_count pa s = elim (fidx pa s) [ none ↦ none | some i ↦ some (s.fref i) ]
