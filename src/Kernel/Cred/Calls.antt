-- ===== src/Kernel/Cred/Calls.antt =====
-- Refusals, and giving up an id for a while, with the calls of os/kernel/cred.c.
use tortoise.Base.{
  ◌≡◌, ◌≢◌, refl, ap, ◌∙◌, arith, ℕ, ◌⊎◌, inl, inr, true, false, Option, none, some, ◌&&◌, ◌||◌,
  ◌==◌, ◌!=◌, if◌then◌else◌, Bool-cases,
}
use tortoise.Base.Int.{ℤ, pos, ltb_ℤ, eq_ℤ, is_neg, pos_part}
use tortoise.Kernel.Cred.{
  Cred, Call, setuid, setgid, setreuid, setregid, setgroups, call, refused, sys_setuid, sys_setgid,
  sys_setreuid, sys_setregid, sys_setgroups, nochange, efault, copy_groups,
}

-- A call either succeeds, or gives an error and changes nothing.
abbrev Atomic : Cred → ℤ × Cred → Type 0
Atomic p r = (r.0 ≡ pos 0) ⊎ ((is_neg r.0 ≡ true) × (r.1 ≡ p))

setuid-Atomic : (u : ℕ) (p : Cred) → Atomic p (sys_setuid u p)
unfolding sys_setuid
setuid-Atomic u p = elim (Bool-cases (p.euid == 0)) [
  | inl root ↦ rw root (inl refl)
  | inr user ↦ elim (Bool-cases (u != p.uid && u != p.suid)) [
    | inl denied ↦ rw (user, denied) (inr (refl, refl))
    | inr granted ↦ rw (user, granted) (inl refl)
  ]
]

setgid-Atomic : (g : ℕ) (p : Cred) → Atomic p (sys_setgid g p)
unfolding sys_setgid
setgid-Atomic g p = elim (Bool-cases (p.euid == 0)) [
  | inl root ↦ rw root (inl refl)
  | inr user ↦ elim (Bool-cases (g != p.gid && g != p.sgid)) [
    | inl denied ↦ rw (user, denied) (inr (refl, refl))
    | inr granted ↦ rw (user, granted) (inl refl)
  ]
]

setreuid-Atomic : (r e : ℕ) (p : Cred) → Atomic p (sys_setreuid r e p)
unfolding sys_setreuid
setreuid-Atomic r e p = elim (Bool-cases (p.euid != 0 && refused r e p.uid p.euid p.suid)) [
  | inl denied ↦ rw denied (inr (refl, refl))
  | inr granted ↦ rw granted (inl refl)
]

setregid-Atomic : (r e : ℕ) (p : Cred) → Atomic p (sys_setregid r e p)
unfolding sys_setregid
setregid-Atomic r e p = elim (Bool-cases (p.euid != 0 && refused r e p.gid p.egid p.sgid)) [
  | inl denied ↦ rw denied (inr (refl, refl))
  | inr granted ↦ rw granted (inl refl)
]

setgroups-Atomic :
    (n : ℤ) (copied : Option (ℕ → ℕ)) (p : Cred) → Atomic p (sys_setgroups n copied p)
unfolding sys_setgroups
setgroups-Atomic n copied p = elim (Bool-cases (p.euid != 0)) [
  | inl user ↦ rw user (inr (refl, refl))
  | inr root ↦ elim (Bool-cases (is_neg n || ltb_ℤ (pos 16) n)) [
    | inl bad ↦ rw (root, bad) (inr (refl, refl))
    | inr good ↦ elim (Bool-cases (eq_ℤ n (pos 0))) [
      | inl none_left ↦ rw (root, good, none_left) (inl refl)
      | inr more ↦ rw (root, good, more) (copying copied)
    ]
  ]
]
  where
    copying :
        (copied' : Option (ℕ → ℕ))
        → Atomic p (elim copied' as (λ _. ℤ × Cred) [
          | none ↦ (efault, p)
          | some g ↦ (pos 0, record p { groups = copy_groups (pos_part n) g p.groups; ngroups = n })
        ])
    copying none = inr (refl, refl)
    copying (some g) = inl refl

-- Each of the calls that set ids or groups succeeds with 0, or gives a negative error and changes
-- nothing.
pub call-Atomic :
    (c : Call) (p : Cred)
    → ((call c p).0 ≡ pos 0) ⊎ ((is_neg (call c p).0 ≡ true) × ((call c p).1 ≡ p))
unfolding call
call-Atomic (setuid u) p = setuid-Atomic u p
call-Atomic (setgid g) p = setgid-Atomic g p
call-Atomic (setreuid r e) p = setreuid-Atomic r e p
call-Atomic (setregid r e) p = setregid-Atomic r e p
call-Atomic (setgroups n copied) p = setgroups-Atomic n copied p

not_refused :
    (p : Cred) (e : ℕ)
    → (e ≡ p.uid) ⊎ (e ≡ p.suid)
    → (p.euid != 0 && refused nochange e p.uid p.euid p.suid) ≡ false
unfolding refused
not_refused p e (inl own) = ground arith
not_refused p e (inr saved) = ground arith

-- An effective id that is the real or the saved one is granted.
switch_to :
    (p : Cred) (e : ℕ)
    → e ≢ nochange
    → (e ≡ p.uid) ⊎ (e ≡ p.suid)
    → sys_setreuid nochange e p
      ≡ (pos 0, record p { euid = e; suid = if e != p.uid then e else p.suid })
unfolding sys_setreuid
switch_to p e changes allowed =
    let granted : (p.euid != 0 && refused nochange e p.uid p.euid p.suid) ≡ false =
      not_refused p e allowed in
    let changed : (e != nochange) ≡ true = ground arith in rw (granted, changed) refl

answer : {p q : Cred} → p ≡ q → ◌≡◌ {A = ℤ × Cred} (pos 0, p) (pos 0, q)
answer h i = (pos 0, h i)

if_same : (u e s : ℕ) → s ≡ e → e ≡ (if u != u then u else s)
if_same u e s h = ground arith

as_before :
    (p : Cred)
    → p.suid ≡ p.euid
    → record p {
      euid = p.euid;
      suid = if p.euid != p.uid then p.euid else if p.uid != p.uid then p.uid else p.suid;
    }
      ≡ p
as_before p saved =
    let suid' : (if p.euid != p.uid then p.euid else if p.uid != p.uid then p.uid else p.suid)
        ≡ p.suid =
      ground arith in
    rw suid' refl

-- A process whose saved user id is its effective one can give up its effective id for its real one,
-- and then get it back: it is as it was. This is for ids other than `NOCHANGE`.
pub setreuid-setreuid :
    (p : Cred)
    → p.uid ≢ nochange
    → p.euid ≢ nochange
    → p.suid ≡ p.euid
    → (sys_setreuid nochange p.uid p).1.euid ≡ p.uid
      × (sys_setreuid nochange p.euid (sys_setreuid nochange p.uid p).1 ≡ (pos 0, p))
setreuid-setreuid p real effective saved =
    let away = switch_to p p.uid real (inl refl) in
    let back =
      switch_to (sys_setreuid nochange p.uid p).1 p.euid effective
        (inr (rw away (if_same p.uid p.euid p.suid saved))) in
    (ap (λ r. r.1.euid) away, back ∙ rw away (answer (as_before p saved)))
