-- ===== src/Kernel/Cred/Ids.antt =====
-- What a process without privileges can do to its ids, by the calls of os/kernel/cred.c.
use tortoise.Base.{
  ◌≡◌, ◌≢◌, refl, arith, ℕ, ◌⊎◌, inl, inr, Option, Bool, true, false, ◌&&◌, ◌==◌, ◌!=◌,
  if◌then◌else◌, Bool-cases,
}
use tortoise.Base.Int.{ℤ}
use tortoise.Kernel.Cred.{
  Cred, Call, setuid, setgid, setreuid, setregid, setgroups, call, refused, sys_setuid, sys_setgid,
  sys_setreuid, sys_setregid, sys_setgroups, nochange, Reaches, start, then_call,
}

-- Three ids are all among some ids.
abbrev pub Within : (ℕ → Type 0) → ℕ → ℕ → ℕ → Type 0
Within Ok a b c = Ok a × Ok b × Ok c

module _ (Ok : ℕ → Type 0) where
  one_of_two : (u a b : ℕ) → Ok a → Ok b → (u != a && u != b) ≡ false → Ok u
  one_of_two u a b ha hb h = elim (Bool-cases (u == a)) [
    | inl e ↦ let same : u ≡ a = ground arith in rw same ha
    | inr n ↦ let same : u ≡ b = ground arith in rw same hb
  ]

  either : (b : Bool) (x y : ℕ) → Ok x → Ok y → Ok (if b then x else y)
  either true x y hx hy = hx
  either false x y hx hy = hy

  -- An id asked for by `setreuid` or `setregid`, when it is not refused.
  asked :
      (u real effective saved old : ℕ)
      → Within Ok real effective saved
      → Ok old
      → (u != nochange && u != real && u != effective && u != saved) ≡ false
      → Ok (if u != nochange then u else old)
  asked u real effective saved old (hr, he, hs) ho h = elim (Bool-cases (u == nochange)) [
    | inl e ↦ let kept : (u != nochange) ≡ false = ground arith in rw kept ho
    | inr n ↦
        let changed : (u != nochange) ≡ true = ground arith in
        rw changed (elim (Bool-cases (u == real)) [
          | inl e ↦ let same : u ≡ real = ground arith in rw same hr
          | inr m ↦ one_of_two u effective saved he hs (ground arith)
        ])
  ]

  set_both :
      (r e real effective saved : ℕ) (other : Bool)
      → Within Ok real effective saved
      → refused r e real effective saved ≡ false
      → Within Ok
          (if r != nochange then r else real)
          (if e != nochange then e else effective)
          (if other then if e != nochange then e else effective else saved)
  unfolding refused
  set_both r e real effective saved other ok h =
      let euid' = asked e real effective saved effective ok ok.1 (ground arith) in
      (
        asked r real effective saved real ok ok.0 (ground arith),
        euid',
        either other (if e != nochange then e else effective) saved euid' ok.2,
      )

-- The ids of `p` that a process without privileges can choose from.
abbrev pub UserIds : (ℕ → Type 0) → Cred → Type 0
UserIds Ok p = Within Ok p.uid p.euid p.suid

abbrev pub GroupIds : (ℕ → Type 0) → Cred → Type 0
GroupIds Ok p = Within Ok p.gid p.egid p.sgid

module _ (U G : ℕ → Type 0) (no_root : (u : ℕ) → U u → u ≢ 0) (g : ℕ → ℕ) (n : ℤ) where
  abbrev Held : Cred → Type 0
  Held p = UserIds U p × GroupIds G p × (p.groups ≡ g) × (p.ngroups ≡ n)

  not_root : (p : Cred) → Held p → (p.euid == 0) ≡ false
  not_root p h = let ne = no_root p.euid h.0.1 in ground arith

  setuid-Held : (u : ℕ) (p : Cred) → Held p → Held (sys_setuid u p).1
  unfolding sys_setuid
  setuid-Held u p h = elim (Bool-cases (u != p.uid && u != p.suid)) [
    | inl denied ↦ rw (not_root p h, denied) h
    | inr granted ↦
        rw (not_root p h, granted)
          ((h.0.0, one_of_two U u p.uid p.suid h.0.0 h.0.2 granted, h.0.2), h.1, h.2, h.3)
  ]

  setgid-Held : (new : ℕ) (p : Cred) → Held p → Held (sys_setgid new p).1
  unfolding sys_setgid
  setgid-Held new p h = elim (Bool-cases (new != p.gid && new != p.sgid)) [
    | inl denied ↦ rw (not_root p h, denied) h
    | inr granted ↦
        rw (not_root p h, granted)
          (h.0, (h.1.0, one_of_two G new p.gid p.sgid h.1.0 h.1.2 granted, h.1.2), h.2, h.3)
  ]

  setreuid-Held : (r e : ℕ) (p : Cred) → Held p → Held (sys_setreuid r e p).1
  unfolding sys_setreuid
  setreuid-Held r e p h =
      let user : (p.euid != 0) ≡ true = (let ne = not_root p h in ground arith) in
      elim (Bool-cases (refused r e p.uid p.euid p.suid)) [
        | inl denied ↦ rw (user, denied) h
        | inr granted ↦
            rw (user, granted) (set_both U r e p.uid p.euid p.suid _ h.0 granted, h.1, h.2, h.3)
      ]

  setregid-Held : (r e : ℕ) (p : Cred) → Held p → Held (sys_setregid r e p).1
  unfolding sys_setregid
  setregid-Held r e p h =
      let user : (p.euid != 0) ≡ true = (let ne = not_root p h in ground arith) in
      elim (Bool-cases (refused r e p.gid p.egid p.sgid)) [
        | inl denied ↦ rw (user, denied) h
        | inr granted ↦
            rw (user, granted) (h.0, set_both G r e p.gid p.egid p.sgid _ h.1 granted, h.2, h.3)
      ]

  setgroups_same :
      (many : ℤ) (copied : Option (ℕ → ℕ)) (p : Cred) → Held p → (sys_setgroups many copied p).1 ≡ p
  unfolding sys_setgroups
  setgroups_same many copied p h =
      let user : (p.euid != 0) ≡ true = (let ne = not_root p h in ground arith) in rw user refl

  call-Held : (c : Call) (p : Cred) → Held p → Held (call c p).1
  unfolding call
  call-Held (setuid u) p h = setuid-Held u p h
  call-Held (setgid new) p h = setgid-Held new p h
  call-Held (setreuid r e) p h = setreuid-Held r e p h
  call-Held (setregid r e) p h = setregid-Held r e p h
  call-Held (setgroups many copied) p h = rw (setgroups_same many copied p h) h

  reaches-Held : (p q : Cred) → Reaches p q → Held p → Held q
  reaches-Held p _ start h = h
  reaches-Held p _ (then_call {q = q} c r) h = call-Held c q (reaches-Held p q r h)

-- The three user ids, and the three group ids, of a process.
abbrev pub UserIdOf : Cred → ℕ → Type 0
UserIdOf p u = (u ≡ p.uid) ⊎ ((u ≡ p.euid) ⊎ (u ≡ p.suid))

abbrev pub GroupIdOf : Cred → ℕ → Type 0
GroupIdOf p g = (g ≡ p.gid) ⊎ ((g ≡ p.egid) ⊎ (g ≡ p.sgid))

-- A process none of whose three user ids is root's, whatever calls that set ids or groups it makes
-- and however many, only ever holds user ids and group ids that it held at the start, each as its
-- real, effective or saved one, and keeps its supplementary groups and their number.
pub reaches-UserIds :
    (p q : Cred)
    → p.uid ≢ 0
    → p.euid ≢ 0
    → p.suid ≢ 0
    → Reaches p q
    → UserIds (UserIdOf p) q
      × GroupIds (GroupIdOf p) q
      × (q.groups ≡ p.groups)
      × (q.ngroups ≡ p.ngroups)
reaches-UserIds p q real effective saved r =
    reaches-Held (UserIdOf p) (GroupIdOf p) no_root p.groups p.ngroups p q r (
      (inl refl, inr (inl refl), inr (inr refl)),
      (inl refl, inr (inl refl), inr (inr refl)),
      refl,
      refl,
    )
  where
    no_root : (u : ℕ) → UserIdOf p u → u ≢ 0
    no_root u (inl e) z = absurd (real (omega (arith, e, z)))
    no_root u (inr (inl e)) z = absurd (effective (omega (arith, e, z)))
    no_root u (inr (inr e)) z = absurd (saved (omega (arith, e, z)))
