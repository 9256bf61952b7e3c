-- ===== src/Lib.antt =====
-- The TORTOISE machine and parts of the system that runs on it. The machine is an emulator of a
-- 32-bit processor with byte-coded instructions of 1 to 6 bytes, paged memory, and devices behind
-- registers in memory; the system is a kernel and a library for that processor, which talk 9P.
--
-- Parts. The state that the C code keeps in global variables is one record `Machine` (Machine);
-- a C function is a function from it to an `Outcome`: it returns (`ok`), it leaves by `longjmp` to
-- the loop of `cpu_run` (`abort`), or the model's recursion ended early (`stuck`). The operations
-- are named as in C:
--   * Alu: arithmetic, flags and branch conditions of src/cpu.c.
--   * Isa: the opcodes of include/cpu.h and the tables of src/dis.c.
--   * Dcache: the cache of decoded instructions of src/cpu.c.
--   * Dev: src/dev.c and src/net.c; Dev/Bus is `dev_access`, the devices' registers by address.
--   * Mem: physical memory, the TLB and the page tables, and virtual accesses of src/cpu.c.
--   * Cpu: exceptions, the instructions (Cpu/Exec), the fetch window, the step, of src/cpu.c.
-- The machine's network controller can be wired to a switch, and the system's parts are on their
-- own records, since they are other programs:
--   * Tswitch: the learning switch tools/tswitch.c, which passes frames between machines.
--   * NineP: the messages of the file protocol, lib/9pconv.c, which the kernel includes as well:
--     `conv_s2m`, `conv_m2s`, `conv_d2m` and `conv_m2d` are convS2M, convM2S, convD2M and convM2D.
--   * Kernel: os/kernel/cred.c (Cred), the log and the timers of os/kernel/kmem.c (Klog, Timer), the
--     low memory and the page frames of os/kernel/mm.c (Lowmem, Frames), the pipes of
--     os/kernel/file.c (Pipe), the line discipline of os/kernel/tty.c (Tty); Ring is the buffer that
--     pipes and terminals share, 512 bytes behind counters of 32 bits.
--   * Libc: the allocator of lib/stdlib.c (Malloc), and lib/fnmatch.c (Fnmatch).
-- Proofs stand in child modules named for what they prove; the modules Steady are
-- about how memory accesses, exceptions and instructions end. Tests holds concrete machines, a
-- program, and the theorems at concrete inputs. Machine/Monad is the sequencing of calls, and
-- Base holds the numbers, words and bits that all parts share.
-- A step runs the events of the devices that are due, takes a pending interrupt, and executes one
-- instruction. An instruction reads its operands from the decoded entry, and memory through Mem,
-- which calls the devices, and on an error calls `cpu_fault`, which itself writes memory.
--
-- Modelling. A word is a native natural number below 2 ^ 32 with its wrap-around written out.
-- Arrays are functions from the index. What the program gets from outside (input, the clock,
-- random numbers, datagrams, disk contents) is a part of the state, `Host`, in the order in which
-- it arrives. `cpu_fault` nests at most three deep, by the counter `depth`; its recursion is on
-- fuel 3. `cpu_run` has a number of steps as its fuel and is `none` when it runs out, and the idle
-- loop `dev_wfi` polls at most `patience` times for input that has not come: C waits for ever, so
-- no bound is enough for every host, and the theorems on instructions leave WFI out. The searches
-- for pages of low memory and for frames in a row have one round more as fuel than there are pages
-- or frames, and go forward by one or more in a round. A pointer into a 9P buffer is the list of
-- the bytes from it on, which has no address, so the sum of a pointer and a length never wraps. The
-- functions that a kernel timer calls are a parameter: what they do to the table of timers. A call
-- that sleeps is modelled as its runs between sleeps, and what others do meanwhile as further steps:
-- a reader or writer of a pipe starts or is woken at any time. The blocks of `malloc` are numbers
-- with their sizes, and the list of free blocks is in the order of its links. `match` of
-- lib/fnmatch.c has one round more as fuel than the pattern has bytes, and each round takes one.
--
-- Not modelled: the SDL display and keyboard (the build without them is), the debuggers, the
-- instruction trace, saving and restoring the machine, configuration of the network and its
-- packet dump, terminal modes, and failures of the host's allocation; the assembler, the compiler
-- and the linker; the rest of the kernel, of it `kmalloc` and the address spaces of os/kernel/mm.c,
-- and of the library; the programs; the set-up of the switch's socket.
pub mod Base
pub mod Machine
pub mod Alu
pub mod Dcache
pub mod Dev
pub mod Mem
pub mod Cpu
pub mod Isa
pub mod Tswitch
pub mod Kernel
pub mod NineP
pub mod Libc
pub mod Tests
