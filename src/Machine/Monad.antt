-- ===== src/Machine/Monad.antt =====
-- How a C function of the emulator ends: it returns, it leaves by `longjmp` to the loop of
-- `cpu_run` with the state as it is then, or (only in the model) its recursion ran out of fuel.
use tortoise.Base.{◌≡◌, ℕ, Bool, true, if◌then◌else◌, update}
use tortoise.Machine.{Cpu, Dev, DiskUnit, Net, Host, Machine}

pub data Outcome (A : Type 0) : Type 0 where
  ok : A → Machine → Outcome A
  abort : Machine → Outcome A
  stuck : Outcome A

abbrev pub M : Type 0 → Type 0
M A = Machine → Outcome A

-- `void`.
abbrev pub Void : Type 0
Void = Unit {0}

abbrev pub pure : {A : Type 0} → A → M A
pure a m = ok a m

abbrev pub and_then : {A B : Type 0} → Outcome A → (A → M B) → Outcome B
and_then (ok a m) k = k a m
and_then (abort m) k = abort m
and_then stuck k = stuck

infixl 5 ◌>>=◌ ◌>>◌
abbrev pub ◌>>=◌ : {A B : Type 0} → M A → (A → M B) → M B
◌>>=◌ f k m = and_then (f m) k

abbrev pub ◌>>◌ : {B : Type 0} → M Void → M B → M B
◌>>◌ f k m = and_then (f m) (λ _. k)

abbrev pub skip : M Void
skip m = ok tt m

abbrev pub when : Bool → M Void → M Void
when c f = if c then f else skip

abbrev pub get : {A : Type 0} → (Machine → A) → M A
get f m = ok (f m) m

abbrev pub modify : (Machine → Machine) → M Void
modify f m = ok tt (f m)

-- An assignment to fields of `cpu`.
abbrev pub on_cpu : (Cpu → Cpu) → Machine → Machine
on_cpu f m = record m { cpu = f (m.cpu) }

abbrev pub modify_cpu : (Cpu → Cpu) → M Void
modify_cpu f m = ok tt (on_cpu f m)

abbrev pub set_pc : ℕ → M Void
set_pc v = modify_cpu (λ c. record c { pc = v })

abbrev pub set_sp : ℕ → M Void
set_sp v = modify_cpu (λ c. record c { sp = v })

abbrev pub set_reg : ℕ → ℕ → M Void
set_reg r v = modify_cpu (λ c. record c { registers = update (c.registers) r v })

abbrev pub set_cr : ℕ → ℕ → M Void
set_cr n v = modify_cpu (λ c. record c { cr = update (c.cr) n v })

abbrev pub reg_of : ℕ → M ℕ
reg_of r m = ok (m.registers r) m

abbrev pub modify_dev : (Dev → Dev) → M Void
modify_dev f m = ok tt (record m { dev = f (m.dev) })

abbrev pub modify_disk : ℕ → (DiskUnit → DiskUnit) → M Void
modify_disk u f = modify_dev (λ d. record d { disk = update (d.disk) u (f (d.disk u)) })

abbrev pub modify_net : (Net → Net) → M Void
modify_net f m = ok tt (record m { net = f (m.net) })

abbrev pub modify_host : (Host → Host) → M Void
modify_host f m = ok tt (record m { host = f (m.host) })

-- `cpu_stop`.
abbrev pub cpu_stop : ℕ → M Void
cpu_stop code = modify_cpu (λ c. record c { halted = true; exit_code = code })

-- `cpu_abort` inside `cpu_run` or `cpu_step`: the `longjmp` to their loop.
abbrev pub cpu_abort : M Void
cpu_abort m = abort m

-- The rest of a sequence after a call that returned, by the equation for that call.
pub bind_ok :
    {A B : Type 0} (f : M A) (k : A → M B) (m m' : Machine) (a : A)
    → f m ≡ ok a m'
    → (f >>= k) m ≡ k a m'
bind_ok f k m m' a h = rw (h, ◌>>=◌)
