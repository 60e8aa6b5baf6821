-- ===== src/Files.antt =====
-- kernel/fs/file.c and the descriptor tables of kernel/proc/process.c: open files, their reference
-- counts, descriptors, and the buffer helpers.
pub mod State
pub mod Reference
pub mod Descriptor
pub mod Table
pub mod Buffer
pub mod Invariant
mod Tests
