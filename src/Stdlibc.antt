-- ===== src/Stdlibc.antt =====
-- lib/stdlibc/string.c: the functions on blocks of bytes, on a memory of bytes. Ctype has
-- lib/stdlibc/ctype.c, Pathname has
-- apps/lib/stdlibc/pathname.c, and Env has env.c from there.
pub mod Memory
pub mod Copies
pub mod Moves
pub mod Strings
pub mod StringCopy
pub mod Bounded
pub mod Ctype
pub mod Pathname
pub mod Env
mod Tests
