-- ===== src/Dev.antt =====
-- The devices of src/dev.c and src/net.c behind `dev_access`, the event scheduler, the idle loop
-- and the legacy ports. The emulator is the build without SDL: there is no display, and the
-- registers of the framebuffer and of the keyboard read 0. Flushing the host's stdout, terminal
-- modes and error messages are left out.
pub mod Pic
pub mod Timer
pub mod Uart
pub mod Disk
pub mod Net
pub mod Bus
pub mod Events
pub mod Reset
pub mod Depth
