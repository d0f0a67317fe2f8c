-- ===== src/Llist.antt =====
-- lib/libmeinos/llist.c, the singly linked list that the kernel keeps its objects in.
pub mod Mem
pub mod Ops
pub mod Seq
pub mod Chain
pub mod Stack
pub mod Walk
pub mod Relink
pub mod Edit
pub mod Remove
pub mod Search
pub mod Destroy
pub mod Delete
mod Tests
