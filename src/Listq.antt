-- ===== src/Listq.antt =====
-- libnettool/src/listq.c and listq_local.h: a list of user data on the TAILQ macros of
-- <sys/queue.h>. Heap is the memory it works in, Tailq the three macros it uses, Ops its
-- functions, Queue the abstract list; the others prove what an operation does, and Session what a
-- whole life of a list does.
pub mod Heap
pub mod Tailq
pub mod Ops
pub mod Queue
pub mod Add
pub mod Unlink
pub mod Find
pub mod Remove
pub mod Clean
pub mod Walk
pub mod Session
pub mod Client
mod Examples
