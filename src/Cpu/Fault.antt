-- ===== src/Cpu/Fault.antt =====
-- Exceptions of src/cpu.c. `enter` pushes a frame and jumps through the exception vector table;
-- `cpu_fault` calls it, and a fault inside `enter` calls `cpu_fault` again, at `depth` 1 as a
-- double fault and at `depth` 2 to stop the machine. The recursion is on fuel: `cpu_fault` starts
-- with 3, since the depth grows with every call and ends it at 2.
pub mod Steady
pub mod Privilege
pub mod Paging
pub mod Flags
pub mod Memory
use tortoise.Base.{
  ℕ, zero, suc, ◌+◌, ◌*◌, ◌%◌, ◌^◌, false, ◌==◌, ◌!=◌, if◌then◌else◌, has_bit, bit_of, u32, sub32,
}
use tortoise.Machine.{supervisor, user, Machine}
use tortoise.Machine.Monad.{
  M, Void, ok, stuck, ◌>>=◌, ◌>>◌, get, modify, modify_cpu, on_cpu, set_pc, set_sp, set_cr,
  cpu_stop, cpu_abort,
}
use tortoise.Mem.Tlb.{fetch_inval}
use tortoise.Mem.Virtual.{is_user, vm_read, vm_write, mem_read_by, mem_write_by}

unfoldable pub cpu_get_flags : Machine → ℕ
cpu_get_flags m = m.flags % 16 + 16 * bit_of m.int_enabled + 32 * bit_of (is_user m.mode)

unfoldable pub cpu_set_flags : ℕ → M Void
cpu_set_flags f = modify (λ m. fetch_inval (
    on_cpu
      (λ c. record c {
        flags = f % 16;
        int_enabled = has_bit 4 f;
        mode = (if has_bit 5 f then user else supervisor);
      })
      m))

unfoldable pub set_depth : ℕ → M Void
set_depth d = modify_cpu (λ c. record c { depth = d })

module _ (fault : ℕ → ℕ → M Void) where
  unfoldable pub sup_read : ℕ → M ℕ
  sup_read va = vm_read fault va 4 false

  unfoldable pub sup_write : ℕ → ℕ → M Void
  sup_write va v = vm_write fault va v 4 false

  -- From user mode the frame goes to the kernel stack, above it the user's stack pointer.
  unfoldable pub switch_stack : M ℕ
  unfolding sup_write
  switch_stack m =
      if is_user m.mode
      then (do sup_write (sub32 (m.cr 4) 4) m.sp; get (λ _. sub32 (m.cr 4) 4)) m
      else ok m.sp m

  unfoldable pub enter : ℕ → ℕ → ℕ → M Void
  unfolding sup_read sup_write switch_stack
  enter vec savepc code m =
      let of = cpu_get_flags m in
      (do
        sp ← switch_stack
        sup_write (sub32 sp 4) of
        sup_write (sub32 sp 8) savepc
        evt ← get (λ m. m.cr 1)
        h ← sup_read (u32 (evt + 4 * vec))
        set_sp (sub32 sp 8)
        set_cr 7 (vec % 256 + code % 256 * 2 ^ 8)
        modify_cpu (λ c. record c { mode = supervisor; int_enabled = false; pc = h })
        modify fetch_inval)
        m

-- `cpu_fault` by the exceptions that may still nest: every path ends in `cpu_abort`.
unfoldable pub cpu_fault_by : ℕ → ℕ → ℕ → M Void
unfolding enter set_depth
cpu_fault_by zero vec code m = stuck
cpu_fault_by (suc nest) vec code m =
    let inner = cpu_fault_by nest in
    (do
      set_pc m.inst_pc
      if m.depth == 0
          then (do set_depth 1; enter inner vec m.inst_pc code)
          else if m.depth == 1
          then (do set_depth 2; enter inner 6 m.inst_pc 0)
          else cpu_stop 3
      set_depth 0
      cpu_abort)
      m

unfoldable pub cpu_fault : ℕ → ℕ → M Void
cpu_fault = cpu_fault_by 3

unfoldable pub cpu_deliver : ℕ → ℕ → ℕ → M Void
unfolding set_depth
cpu_deliver vec savepc code m =
    if m.depth != 0
    then cpu_fault vec code m
    else (do set_depth 1; enter cpu_fault vec savepc code; set_depth 0) m

unfoldable pub mem_read : ℕ → ℕ → M ℕ
mem_read = mem_read_by cpu_fault

unfoldable pub mem_write : ℕ → ℕ → ℕ → M Void
mem_write = mem_write_by cpu_fault
