-- ===== src/Libmeinos.antt =====
-- apps/lib/libmeinos: the library of the programs. Path has path.c, Ringbuf has ringbuf.c.
pub mod Path
pub mod Ringbuf
