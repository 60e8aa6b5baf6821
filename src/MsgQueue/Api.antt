-- ===== src/MsgQueue/Api.antt =====
-- kernel/ipc/msgqueue.c as its callers see it.
pub mod Directory
pub mod Transfer
