-- ===== src/Kernel/Timer/Slots.antt =====
-- The slots of the timers of os/kernel/kmem.c.
use tortoise.Base.{
  ◌≡◌, refl, arith, ℕ, zero, suc, ◌+◌, ◌≤◌, ◌<◌, ◌⊎◌, inl, inr, true, false, none, some, Bool-cases,
  update, u32, ◌==◌,
}
use tortoise.Kernel.Timer.{Timers, free_slot, timer_add}

-- The slot found is free and every slot before it is in use; if none is found, all are in use.
free_slot-first :
    (n i : ℕ) (t : Timers)
    → ((free_slot n i t ≡ none) × ((j : ℕ) → i ≤ j → j < i + n → (t j).used ≡ true))
      ⊎ ((j : ℕ) × (free_slot n i t ≡ some j) × (j < i + n) × ((t j).used ≡ false))
unfolding free_slot
free_slot-first zero i t = inl (refl, λ j low high. absurd (omega arith))
free_slot-first (suc n) i t = elim (Bool-cases (t i).used) [
  | inr free ↦ inr (i, rw free refl, omega arith, free)
  | inl busy ↦ elim (free_slot-first n (i + 1) t) [
    | inl (full, all) ↦ inl (rw busy full, λ j low high. all_used all j low high busy)
    | inr (j, found, below, free) ↦ inr (j, rw busy found, omega arith, free)
  ]
]
  where
    all_used :
        ((j : ℕ) → i + 1 ≤ j → j < i + 1 + n → (t j).used ≡ true)
        → (j : ℕ) → i ≤ j
        → j < i + suc n
        → (t i).used ≡ true
        → (t j).used ≡ true
    all_used all j low high busy = elim (Bool-cases (j == i)) [
      | inl e ↦ let same : j ≡ i = ground arith in rw same busy
      | inr m ↦ all j (ground arith) (omega arith)
    ]

-- Setting a timer gives 0 and changes nothing when all 128 are in use; otherwise it takes a slot
-- that was not, and gives its number from 1 on.
pub timer_add-cases :
    (ticks n f value : ℕ) (t : Timers)
    → ((timer_add ticks n f value t ≡ (0, t)) × ((j : ℕ) → j < 128 → (t j).used ≡ true))
      ⊎ ((j : ℕ) × (timer_add ticks n f value t ≡ (
        j + 1,
        update t j (record { expire = u32 (ticks + n); fn = f; arg = value; used = true }),
      ))
          × (j < 128)
          × ((t j).used ≡ false))
unfolding timer_add
timer_add-cases ticks n f value t = elim (free_slot-first 128 0 t) [
  | inl (full, all) ↦ inl (rw (full, timer_add) refl, λ j h. all j (omega arith) (omega arith))
  | inr (j, found, below, free) ↦ inr (j, rw (found, timer_add) refl, omega arith, free)
]
