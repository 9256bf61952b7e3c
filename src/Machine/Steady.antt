-- ===== src/Machine/Steady.antt =====
-- Calls that keep the nesting of exceptions: from depth `d` they are not stuck, they return at
-- depth `d`, and they leave only at depth 0 or with the machine stopped.
use tortoise.Base.{◌≡◌, arith, ℕ, Bool, true, false, if◌then◌else◌, Option, none, some, ◌⊎◌}
use tortoise.Machine.{Machine}
use tortoise.Machine.Monad.{M, Outcome, ok, abort, stuck, and_then}

abbrev pub IsSettled : Machine → Type 0
IsSettled m = (m.depth ≡ 0) ⊎ (m.halted ≡ true)

pub data KeepsDepth {A : Type 0} (d : ℕ) : Outcome A → Type 0 where
  returns : {a : A} {m : Machine} → m.depth ≡ d → KeepsDepth d (ok a m)
  leaves : {m : Machine} → IsSettled m → KeepsDepth d (abort m)

-- The depth after a call that returns.
abbrev pub depth_after : {A : Type 0} → Outcome A → Option ℕ
depth_after (ok a m) = some m.depth
depth_after (abort m) = none
depth_after stuck = none

-- A call whose depth is known to stay.
pub KeepsDepth-after :
    {A : Type 0} (d : ℕ) (r : Outcome A) (m : Machine)
    → m.depth ≡ d
    → depth_after r ≡ some m.depth
    → KeepsDepth d r
KeepsDepth-after d (ok a m') m h e = returns (ground arith)
KeepsDepth-after d (abort m') m h e = ground arith
KeepsDepth-after d stuck m h e = ground arith

module _ {A : Type 0} {d : ℕ} where
  pub and_then-KeepsDepth :
      {B : Type 0} (r : Outcome A) (k : A → M B)
      → KeepsDepth d r
      → ((a : A) (m : Machine) → m.depth ≡ d → KeepsDepth d (k a m))
      → KeepsDepth d (and_then r k)
  and_then-KeepsDepth (ok a m) k (returns p) next = next a m p
  and_then-KeepsDepth (abort m) k (leaves q) next = leaves q
  and_then-KeepsDepth stuck k keeps next = elim keeps [ ]

  pub if-KeepsDepth :
      (c : Bool) (r s : Outcome A)
      → KeepsDepth d r
      → KeepsDepth d s
      → KeepsDepth d (if c then r else s)
  if-KeepsDepth true r s p q = p
  if-KeepsDepth false r s p q = q

  -- An `if` between two calls.
  pub if_call-KeepsDepth :
      (c : Bool) (f g : M A) (m : Machine)
      → KeepsDepth d (f m)
      → KeepsDepth d (g m)
      → KeepsDepth d ((if c then f else g) m)
  if_call-KeepsDepth true f g m p q = p
  if_call-KeepsDepth false f g m p q = q

pub ruleset sequencing = (and_then-KeepsDepth, if-KeepsDepth, if_call-KeepsDepth, returns)
