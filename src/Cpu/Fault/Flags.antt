-- ===== src/Cpu/Fault/Flags.antt =====
-- The flags word of an exception's frame.
use tortoise.Base.{◌≡◌, arith, ap, ◌∙◌, ℕ, ◌+◌, ◌*◌, ◌%◌, ◌<◌, Bool, if◌then◌else◌, has_bit, bit_of}
use tortoise.Machine.{Mode, user, supervisor, Machine}
use tortoise.Machine.Monad.{Void, Outcome, ok, on_cpu}
use tortoise.Mem.Tlb.{fetch_inval}
use tortoise.Mem.Virtual.{is_user}
use tortoise.Cpu.Fault.{cpu_get_flags, cpu_set_flags}

module _ (flags : ℕ) (on : Bool) (small : flags < 16) where
  abbrev word : Mode → ℕ
  word mode = flags % 16 + 16 * bit_of on + 32 * bit_of (is_user mode)

  word-flags : (mode : Mode) → word mode % 16 ≡ flags
  word-flags user = ground arith
  word-flags supervisor = ground arith

  word-on : (mode : Mode) → has_bit 4 (word mode) ≡ on
  word-on user = ground arith
  word-on supervisor = ground arith

  word-mode : (mode : Mode) → (if has_bit 5 (word mode) then user else supervisor) ≡ mode
  word-mode user = ground arith
  word-mode supervisor = ground arith

-- Loading the flags word that the processor saves restores the arithmetic flags, the interrupt
-- flag and the mode, and changes nothing else but the fetch window, which it closes.
pub cpu_set_flags-cpu_get_flags :
    (m : Machine) → m.flags < 16 → cpu_set_flags (cpu_get_flags m) m ≡ ok tt (fetch_inval m)
unfolding cpu_get_flags cpu_set_flags
cpu_set_flags-cpu_get_flags m small =
    ap
      (λ f.
        loaded f (has_bit 4 (cpu_get_flags m))
          (if has_bit 5 (cpu_get_flags m) then user else supervisor))
      (word-flags m.flags m.int_enabled small m.mode)
    ∙ ap (λ on. loaded m.flags on (if has_bit 5 (cpu_get_flags m) then user else supervisor))
        (word-on m.flags m.int_enabled small m.mode)
    ∙ ap (λ mode. loaded m.flags m.int_enabled mode) (word-mode m.flags m.int_enabled small m.mode)
  where
    loaded : ℕ → Bool → Mode → Outcome Void
    loaded f on mode =
        ok tt (fetch_inval (on_cpu (λ c. record c { flags = f; int_enabled = on; mode = mode }) m))
