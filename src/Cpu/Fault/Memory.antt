-- ===== src/Cpu/Fault/Memory.antt =====
-- `mem_write` and `mem_read` of src/cpu.c on RAM.
use tortoise.Base.{◌≡◌, ap, ℕ, ◌*◌, ◌%◌, ◌^◌, true, false}
use tortoise.Machine.{Machine}
use tortoise.Machine.Monad.{ok}
use tortoise.Mem.Phys.{ext_on, in_range, write_ram, phys_write}
use tortoise.Mem.Virtual.{mem_read_by, mem_write_by, vm_write}
use tortoise.Mem.Bytes.{IsSize, load-store}
use tortoise.Cpu.Fault.{mem_read, mem_write}

-- Without extended mode, and in RAM: a write of 1, 2 or 4 bytes returns, and a read of the same
-- size from the state that it leaves returns the value cut to that size and changes nothing.
pub mem_read-mem_write :
    (m : Machine) (va v n : ℕ)
    → IsSize n
    → ext_on m ≡ false
    → in_range va m.ram_size n ≡ true
    → (mem_write va v n m ≡ ok tt (write_ram va v n m))
      × (mem_read va n (write_ram va v n m) ≡ ok (v % 2 ^ (8 * n)) (write_ram va v n m))
unfolding mem_read mem_write mem_read_by mem_write_by vm_write phys_write
mem_read-mem_write m va v n size legacy inside = (
  rw (legacy, inside),
  rw (legacy, inside) (ap (λ x. ok x (write_ram va v n m)) (load-store m.memory va v n size)),
)
