-- ===== src/Mem/Tlb/Permissions.antt =====
-- Accesses through an entry of the TLB of src/cpu.c, by the permissions of the page.
use tortoise.Base.{ℕ, ◌/◌, ◌%◌, ◌≡◌, refl, arith, ◌⊎◌, inr, Bool, true, false, if◌then◌else◌}
use tortoise.Mem.Tlb.{Access, acc_r, acc_w, acc_x, fault_code, pte_denied}

-- The page is not the user's, not writable or not executable: bits 2, 1 and 3 of its entry.
abbrev pub Forbids : ℕ → Access → Bool → Type 0
Forbids pte acc_r false = ⊥
Forbids pte acc_r true = pte / 4 % 2 ≡ 0
Forbids pte acc_w false = pte / 2 % 2 ≡ 0
Forbids pte acc_w true = (pte / 4 % 2 ≡ 0) ⊎ (pte / 2 % 2 ≡ 0)
Forbids pte acc_x false = pte / 8 % 2 ≡ 0
Forbids pte acc_x true = (pte / 4 % 2 ≡ 0) ⊎ (pte / 8 % 2 ≡ 0)

-- Present, and 2 for a write, 4 for a user's access and 8 for a fetch.
abbrev pub error_code : Access → Bool → ℕ
error_code acc_r user = if user then 5 else 1
error_code acc_w user = if user then 7 else 3
error_code acc_x user = if user then 13 else 9

pub error_code_lem : (acc : Access) (user : Bool) → fault_code acc user true ≡ error_code acc user
error_code_lem acc_r true = refl
error_code_lem acc_r false = refl
error_code_lem acc_w true = refl
error_code_lem acc_w false = refl
error_code_lem acc_x true = refl
error_code_lem acc_x false = refl

pub denied_or_not :
    (pte : ℕ) (acc : Access) (user : Bool)
    → ((pte_denied pte acc user ≡ true) × Forbids pte acc user)
      ⊎ ((pte_denied pte acc user ≡ false) × ¬ Forbids pte acc user)
unfolding pte_denied
denied_or_not pte acc_r false = inr (refl, λ f. f)
denied_or_not pte acc_r true = ground arith
denied_or_not pte acc_w false = ground arith
denied_or_not pte acc_w true = ground arith
denied_or_not pte acc_x false = ground arith
denied_or_not pte acc_x true = ground arith
