-- ===== src/Libc.antt =====
-- Parts of the C library of the system, lib/stdlib.c and lib/fnmatch.c.
pub mod Malloc
pub mod Fnmatch
