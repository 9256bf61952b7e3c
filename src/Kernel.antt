-- ===== src/Kernel.antt =====
-- Parts of the kernel of os/kernel: the credentials of a process, the log, the timers, the pages of
-- low memory, the page frames, pipes and terminals.
pub mod Cred
pub mod Klog
pub mod Timer
pub mod Lowmem
pub mod Frames
pub mod Ring
pub mod Pipe
pub mod Tty
