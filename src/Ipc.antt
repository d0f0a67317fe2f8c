-- ===== src/Ipc.antt =====
-- kernel2/ipc.c, msg.c and sem.c: the registry of IPC objects, message queues and semaphore sets.
pub mod State
pub mod Registry
pub mod Msg
pub mod Sem
pub mod Shm
mod Tests
