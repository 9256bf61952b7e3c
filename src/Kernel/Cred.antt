-- ===== src/Kernel/Cred.antt =====
-- os/kernel/cred.c: the user and group ids of the running process and the calls that set them. What
-- `copyin` and `copyout` give is an argument: the groups read from the caller's memory, or `none`
-- for a bad address, and whether the write worked.
pub mod Ids
pub mod Calls
use tortoise.Base.{
  ℕ, ◌+◌, Bool, true, false, not, ◌&&◌, ◌||◌, Option, none, some, leb, ◌==◌, ◌!=◌, if◌then◌else◌,
}
use tortoise.Base.Int.{ℤ, pos, negsuc, ltb_ℤ, eq_ℤ, is_neg, pos_part}

-- The fields of `Proc` that these calls use.
pub record Cred : Type 0 where
  pub uid : ℕ
  pub euid : ℕ
  pub suid : ℕ
  pub gid : ℕ
  pub egid : ℕ
  pub sgid : ℕ
  pub groups : ℕ → ℕ
  pub ngroups : ℤ

-- `NOCHANGE`: -1, for an id that a call leaves alone.
abbrev pub nochange : ℕ
nochange = 0xFFFFFFFF

-- `-EPERM`, `-EFAULT` and `-EINVAL`.
abbrev pub eperm : ℤ
eperm = negsuc 0

abbrev pub efault : ℤ
efault = negsuc 13

abbrev pub einval : ℤ
einval = negsuc 21

unfoldable pub sys_setuid : ℕ → Cred → ℤ × Cred
sys_setuid u p =
    if p.euid == 0
    then (pos 0, record p { uid = u; euid = u; suid = u })
    else if u != p.uid && u != p.suid
    then (eperm, p)
    else (pos 0, record p { euid = u })

unfoldable pub sys_setgid : ℕ → Cred → ℤ × Cred
sys_setgid g p =
    if p.euid == 0
    then (pos 0, record p { gid = g; egid = g; sgid = g })
    else if g != p.gid && g != p.sgid
    then (eperm, p)
    else (pos 0, record p { egid = g })

-- The two tests for a process that is not root, of the real and of the effective id asked for.
unfoldable pub refused : ℕ → ℕ → ℕ → ℕ → ℕ → Bool
refused r e real effective saved =
    (r != nochange && r != real && r != effective)
    || (e != nochange && e != real && e != effective && e != saved)

unfoldable pub sys_setreuid : ℕ → ℕ → Cred → ℤ × Cred
unfolding refused
sys_setreuid r e p =
    if p.euid != 0 && refused r e p.uid p.euid p.suid
    then (eperm, p)
    else (let uid' = if r != nochange then r else p.uid in
        let euid' = if e != nochange then e else p.euid in
        let suid' = if r != nochange || (e != nochange && e != p.uid) then euid' else p.suid in
        (pos 0, record p { uid = uid'; euid = euid'; suid = suid' }))

unfoldable pub sys_setregid : ℕ → ℕ → Cred → ℤ × Cred
unfolding refused
sys_setregid r e p =
    if p.euid != 0 && refused r e p.gid p.egid p.sgid
    then (eperm, p)
    else (let gid' = if r != nochange then r else p.gid in
        let egid' = if e != nochange then e else p.egid in
        let sgid' = if r != nochange || (e != nochange && e != p.gid) then egid' else p.sgid in
        (pos 0, record p { gid = gid'; egid = egid'; sgid = sgid' }))

unfoldable pub sys_getgroups : ℤ → Bool → Cred → ℤ
sys_getgroups n written p =
    if eq_ℤ n (pos 0)
    then p.ngroups
    else if ltb_ℤ n p.ngroups
    then einval
    else if not (eq_ℤ p.ngroups (pos 0)) && not written
    then efault
    else p.ngroups

-- `memcpy` of the first `n` groups.
abbrev pub copy_groups : ℕ → (ℕ → ℕ) → (ℕ → ℕ) → ℕ → ℕ
copy_groups n g old i = if leb n i then old i else g i

unfoldable pub sys_setgroups : ℤ → Option (ℕ → ℕ) → Cred → ℤ × Cred
sys_setgroups n copied p =
    if p.euid != 0
    then (eperm, p)
    else if is_neg n || ltb_ℤ (pos 16) n
    then (einval, p)
    else if eq_ℤ n (pos 0)
    then (pos 0, record p { ngroups = n })
    else elim copied [
      | none ↦ (efault, p)
      | some g ↦ (pos 0, record p { groups = copy_groups (pos_part n) g p.groups; ngroups = n })
    ]

-- The calls that set ids or groups, with their arguments.
pub data Call : Type 0 where
  setuid : ℕ → Call
  setgid : ℕ → Call
  setreuid : ℕ → ℕ → Call
  setregid : ℕ → ℕ → Call
  setgroups : ℤ → Option (ℕ → ℕ) → Call

unfoldable pub call : Call → Cred → ℤ × Cred
unfolding sys_setuid sys_setgid sys_setreuid sys_setregid sys_setgroups
call (setuid u) p = sys_setuid u p
call (setgid g) p = sys_setgid g p
call (setreuid r e) p = sys_setreuid r e p
call (setregid r e) p = sys_setregid r e p
call (setgroups n copied) p = sys_setgroups n copied p

-- What a process can come to by calls of its own.
pub data Reaches : Cred → Cred → Type 0 where
  start : {p : Cred} → Reaches p p
  then_call : {p q : Cred} (c : Call) → Reaches p q → Reaches p (call c q).1
