-- ===== src/Libc.antt =====
-- The C library of libc/*.c. A C string is the list of its bytes, without the terminator.
pub mod Str
pub mod Strtok
pub mod Conv
pub mod Output
pub mod Printf
