-- ===== src/Libc/Malloc.antt =====
-- `malloc`, `free`, `calloc` and `realloc` of lib/stdlib.c, with `sbrk` of lib/sys.c. The heap is the list of free
-- blocks in the order of its links, and the break; a block is its address and its size, with the 8
-- bytes of its header. Whether the kernel grants more memory is an argument.
pub mod Partition
pub mod Heaps
use tortoise.Base.{
  ℕ, ◌+◌, ◌-◌, ◌*◌, ◌/◌, Bool, true, false, ◌&&◌, List, [], ◌∷◌, ◌++◌, Option, none, some, ltb, leb,
  ◌==◌, if◌then◌else◌, ◌!=◌, u32, sub32,
}

pub record Block : Type 0 where
  pub addr : ℕ
  pub size : ℕ

-- `(n + sizeof(Block) + 7) & ~7u`.
unfoldable pub needed : ℕ → ℕ
needed n = (n + 8 + 7) / 8 * 8

-- The loop of `malloc`: the block that it takes, and the list that it leaves.
unfoldable pub take_fit : ℕ → List Block → Option (Block × List Block)
take_fit need [] = none
take_fit need (b ∷ bs) =
    let later : Option (Block × List Block) = elim (take_fit need bs) [
      | none ↦ none
      | some (a, left) ↦ some (a, b ∷ left)
    ] in
    if leb need b.size
    then if leb 32 (b.size - need)
      then some
          (record b { size = need }, record { addr = b.addr + need; size = b.size - need } ∷ bs)
      else some (b, bs)
    else later

pub record Heap : Type 0 where
  pub free_list : List Block
  pub brk : ℕ

-- `malloc`: the block, or `none` for the null pointer; the pointer is 8 bytes behind its address.
unfoldable pub malloc : ℕ → Bool → Heap → Option Block × Heap
unfolding take_fit needed
malloc n granted h =
    let n' = if n == 0 then 1 else n in
    let fresh : Option Block × Heap =
      if granted
      then (some (record { addr = h.brk; size = needed n' }), record h { brk = h.brk + needed n' })
      else (none, h) in
    if ltb 0x7FFFFFF0 n' then (none, h) else elim (take_fit (needed n') h.free_list) [
      | some (b, left) ↦ (some b, record h { free_list = left })
      | none ↦ fresh
    ]

-- The free blocks before an address, and those from it on.
unfoldable pub before : ℕ → List Block → List Block
before a [] = []
before a (b ∷ bs) = let rest = before a bs in if ltb b.addr a then b ∷ rest else []

unfoldable pub behind : ℕ → List Block → List Block
behind a [] = []
behind a (b ∷ bs) = let rest = behind a bs in if ltb b.addr a then rest else b ∷ bs

-- The block joined with the next one if that starts where it ends.
unfoldable pub join : Block → List Block → List Block
join b [] = b ∷ []
join b (c ∷ cs) =
    if b.addr + b.size == c.addr then record b { size = b.size + c.size } ∷ cs else b ∷ c ∷ cs

-- The last of the blocks before joined with the first behind, in the same way.
unfoldable pub link : List Block → List Block → List Block
unfolding join
link [] l = l
link (p ∷ []) l = join p l
link (p ∷ q ∷ ps) l = p ∷ link (q ∷ ps) l

unfoldable pub free : Block → Heap → Heap
unfolding before behind join link
free b h = record h {
  free_list = link (before b.addr h.free_list) (join b (behind b.addr h.free_list));
}

-- `calloc`; the clearing of the bytes is left out.
unfoldable pub calloc : ℕ → ℕ → Bool → Heap → Option Block × Heap
unfolding malloc
calloc n m granted h =
    if m != 0 && ltb (0x7FFFFFFF / m) n then (none, h) else malloc (u32 (n * m)) granted h

-- The end of `realloc` of a block that is too small; the copying of the bytes is left out.
unfoldable pub moved : Block → Option Block × Heap → Option Block × Heap
unfolding free
moved b (none, h) = (none, h)
moved b (some q, h) = (some q, free b h)

-- `realloc`, where `none` is the null pointer.
unfoldable pub realloc : Option Block → ℕ → Bool → Heap → Option Block × Heap
unfolding malloc free moved
realloc none n granted h = malloc n granted h
realloc (some b) n granted h =
    if n == 0
    then (none, free b h)
    else if leb n (sub32 b.size 8)
    then (some b, h)
    else moved b (malloc n granted h)
