-- ===== src/Libc/Malloc/Heaps.antt =====
-- Programs that use `malloc` and its kin of lib/stdlib.c, as the heaps and the blocks they hold that
-- their calls lead to.
use tortoise.Base.{
  refl, true, false, ◌!=◌, u32, sub32, ◌/◌, ◌*◌, ◌≡◌, arith, ℕ, ◌+◌, ◌≤◌, inl, inr, Bool, ◌&&◌,
  List, [], ◌∷◌, ◌++◌, Option, none, some, ltb, leb, ◌==◌, if◌then◌else◌, Bool-cases, Option-cases,
}
use tortoise.Libc.Malloc.{Block, needed, take_fit, Heap, malloc, calloc, moved, realloc, free}
use tortoise.Libc.Malloc.Partition.{holds, owners, take_fit-Taken, owners-free}

-- The allocator and the blocks that the program holds.
pub record Program : Type 0 where
  pub heap : Heap
  pub held : List Block

abbrev pub empty : ℕ → Program
empty base = record { heap = record { free_list = []; brk = base }; held = [] }

-- A block that `malloc` returns is held.
abbrev pub hold : Option Block × Heap → List Block → Program
hold (some b, h) held = record { heap = h; held = b ∷ held }
hold (none, h) held = record { heap = h; held = held }

-- A block of `n` bytes instead of `b`, or both given back, or `b` kept where `realloc` fails.
abbrev pub hold_instead : Block → ℕ → List Block → List Block → Option Block × Heap → Program
hold_instead b n l1 l2 (some q, h) = record { heap = h; held = q ∷ l1 ++ l2 }
hold_instead b n l1 l2 (none, h) =
    if n == 0
    then record { heap = h; held = l1 ++ l2 }
    else record { heap = h; held = l1 ++ b ∷ l2 }

-- The programs that calls lead to, which give back only a block that they hold.
pub data Reach (base : ℕ) : Program → Type 0 where
  start : Reach base (empty base)
  allocates :
      (h : Heap) (held : List Block) (n : ℕ) (granted : Bool)
      → Reach base (record { heap = h; held = held })
      → Reach base (hold (malloc n granted h) held)
  clears :
      (h : Heap) (held : List Block) (n m : ℕ) (granted : Bool)
      → Reach base (record { heap = h; held = held })
      → Reach base (hold (calloc n m granted h) held)
  reallocates :
      (h : Heap) (l1 l2 : List Block) (b : Block) (n : ℕ) (granted : Bool)
      → Reach base (record { heap = h; held = l1 ++ b ∷ l2 })
      → Reach base (hold_instead b n l1 l2 (realloc (some b) n granted h))
  frees :
      (h : Heap) (l1 l2 : List Block) (b : Block)
      → Reach base (record { heap = h; held = l1 ++ b ∷ l2 })
      → Reach base (record { heap = free b h; held = l1 ++ l2 })

-- 1 for the addresses from the start of the heap to the break.
abbrev pub in_heap : ℕ → ℕ → ℕ → ℕ
in_heap base brk x = if leb base x && ltb x brk then 1 else 0

-- The break is not before the start, and an address between them is in exactly one of the blocks
-- that are held or free, an address outside in none.
abbrev pub Partitioned : ℕ → Program → Type 0
Partitioned base p =
    (base ≤ p.heap.brk)
    × ((x : ℕ) → owners x p.held + owners x p.heap.free_list ≡ in_heap base p.heap.brk x)

owners-++ : (x : ℕ) (l1 l2 : List Block) → owners x (l1 ++ l2) ≡ owners x l1 + owners x l2
owners-++ x [] l2 = omega arith
owners-++ x (b ∷ l1) l2 = omega (arith, owners-++ x l1 l2)

in_heap-grow :
    (base brk n x : ℕ)
    → base ≤ brk
    → in_heap base (brk + n) x ≡ in_heap base brk x + holds x (record { addr = brk; size = n })
in_heap-grow base brk n x h = ground arith

Partitioned-fresh :
    (base : ℕ) (h : Heap) (held : List Block) (n : ℕ)
    → Partitioned base (record { heap = h; held = held })
    → Partitioned base (record {
      heap = record h { brk = h.brk + n };
      held = record { addr = h.brk; size = n } ∷ held;
    })
Partitioned-fresh base h held n (le, part) =
    (omega (arith, le), λ x. omega (arith, part x, in_heap-grow base h.brk n x le))

Partitioned-malloc :
    (base : ℕ) (h : Heap) (held : List Block) (n : ℕ) (granted : Bool)
    → Partitioned base (record { heap = h; held = held })
    → Partitioned base (hold (malloc n granted h) held)
unfolding malloc
Partitioned-malloc base h held n granted (le, part) =
    let n' = if n == 0 then 1 else n in
    elim (Bool-cases (ltb 0x7FFFFFF0 n')) [
      | inl huge ↦ rw huge (le, part)
      | inr fits ↦ elim (Option-cases (take_fit (needed n') h.free_list)) [
        | inl nothing ↦ elim (Bool-cases granted) [
          | inl e ↦ rw (fits, nothing, e) (Partitioned-fresh base h held (needed n') (le, part))
          | inr e ↦ rw (fits, nothing, e) (le, part)
        ]
        | inr ((b, left), found) ↦
            rw (fits, found)
              (
                le,
                λ x.
                    omega
                      (arith, part x, (take_fit-Taken x (needed n') h.free_list (b, left) found).0),
              )
      ]
    ]

Partitioned-free :
    (base : ℕ) (h : Heap) (l1 l2 : List Block) (b : Block)
    → Partitioned base (record { heap = h; held = l1 ++ b ∷ l2 })
    → Partitioned base (record { heap = free b h; held = l1 ++ l2 })
unfolding free
Partitioned-free base h l1 l2 b (le, part) =
    (le, λ x. omega (arith, part x, owners-++ x l1 l2, owners-++ x l1 (b ∷ l2), owners-free x b h))

Partitioned-calloc :
    (base : ℕ) (h : Heap) (held : List Block) (n m : ℕ) (granted : Bool)
    → Partitioned base (record { heap = h; held = held })
    → Partitioned base (hold (calloc n m granted h) held)
unfolding calloc
Partitioned-calloc base h held n m granted p =
    elim (Bool-cases (m != 0 && ltb (0x7FFFFFFF / m) n)) [
      | inl huge ↦ rw huge p
      | inr fits ↦ rw fits (Partitioned-malloc base h held (u32 (n * m)) granted p)
    ]

-- The order of the blocks held does not matter.
Partitioned-reorder :
    (base : ℕ) (h : Heap) (l1 l2 : List Block) (b : Block)
    → Partitioned base (record { heap = h; held = l1 ++ b ∷ l2 })
    → Partitioned base (record { heap = h; held = b ∷ l1 ++ l2 })
Partitioned-reorder base h l1 l2 b (le, part) =
    (le, λ x. omega (arith, part x, owners-++ x l1 l2, owners-++ x l1 (b ∷ l2)))

Partitioned-moved :
    (base : ℕ) (l1 l2 : List Block) (b : Block) (n : ℕ) (r : Option Block × Heap)
    → (n == 0) ≡ false
    → Partitioned base (hold r (l1 ++ b ∷ l2))
    → Partitioned base (hold_instead b n l1 l2 (moved b r))
unfolding moved
Partitioned-moved base l1 l2 b n (none, h) some_bytes p = rw some_bytes p
Partitioned-moved base l1 l2 b n (some q, h) some_bytes p = Partitioned-free base h (q ∷ l1) l2 b p

Partitioned-given_back :
    (base : ℕ) (h : Heap) (l1 l2 : List Block) (b : Block) (n : ℕ)
    → (n == 0) ≡ true
    → Partitioned base (record { heap = h; held = l1 ++ b ∷ l2 })
    → Partitioned base (hold_instead b n l1 l2 (none, free b h))
Partitioned-given_back base h l1 l2 b n nothing p = rw nothing (Partitioned-free base h l1 l2 b p)

-- What holds in each of three branches holds of the choice among them.
of_three :
    {A : Type 0} (Q : A → Type 0) (b c : Bool) (x y z : A)
    → (b ≡ true → Q x)
    → Q y
    → (b ≡ false → Q z)
    → Q (if b then x else if c then y else z)
of_three Q true c x y z hx hy hz = hx refl
of_three Q false true x y z hx hy hz = hy
of_three Q false false x y z hx hy hz = hz refl

Partitioned-realloc :
    (base : ℕ) (h : Heap) (l1 l2 : List Block) (b : Block) (n : ℕ) (granted : Bool)
    → Partitioned base (record { heap = h; held = l1 ++ b ∷ l2 })
    → Partitioned base (hold_instead b n l1 l2 (realloc (some b) n granted h))
unfolding realloc
Partitioned-realloc base h l1 l2 b n granted p =
    of_three (λ r. Partitioned base (hold_instead b n l1 l2 r)) (n == 0) (leb n (sub32 b.size 8))
      (none, free b h) (some b, h) (moved b (malloc n granted h))
      (λ nothing. Partitioned-given_back base h l1 l2 b n nothing p)
      (Partitioned-reorder base h l1 l2 b p)
      (λ e.
        Partitioned-moved base l1 l2 b n (malloc n granted h) e
          (Partitioned-malloc base h (l1 ++ b ∷ l2) n granted p))

-- A program that gives back only blocks that it holds, each once, with `free` or `realloc`, leaves
-- every byte of the heap in exactly one block that is held or free, and no block has a byte outside
-- the heap: blocks do not overlap, and no byte is lost. Addresses do not wrap around, since the
-- kernel grants none past the top.
pub Reach-Partitioned : (base : ℕ) (p : Program) → Reach base p → Partitioned base p
Reach-Partitioned base _ start = (omega arith, λ x. ground arith)
Reach-Partitioned base _ (allocates h held n granted r) =
    Partitioned-malloc base h held n granted (Reach-Partitioned base _ r)
Reach-Partitioned base _ (clears h held n m granted r) =
    Partitioned-calloc base h held n m granted (Reach-Partitioned base _ r)
Reach-Partitioned base _ (reallocates h l1 l2 b n granted r) =
    Partitioned-realloc base h l1 l2 b n granted (Reach-Partitioned base _ r)
Reach-Partitioned base _ (frees h l1 l2 b r) =
    Partitioned-free base h l1 l2 b (Reach-Partitioned base _ r)
