-- ===== src/Shm.antt =====
-- kernel/ipc/shm.c: creating and removing segments of shared memory, on any source of pages.
pub mod Segment
pub mod Pages
mod Tests
