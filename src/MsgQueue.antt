-- ===== src/MsgQueue.antt =====
-- kernel/ipc/msgqueue.c: System V style message queues.
pub mod State
pub mod Table
pub mod Message
pub mod Invariant
pub mod Api
mod Tests
