-- ===== src/Procm.antt =====
-- kernel2/procm.c, the processes of the kernel: their states, the scheduler, and the system calls
-- on them.
pub mod State
pub mod Sample
pub mod Sched
pub mod Lookup
pub mod Calls
pub mod Inv
pub mod Life
pub mod Exit
pub mod Keep
pub mod Upcall
pub mod Switch
pub mod Turn
pub mod Fair
mod Tests
