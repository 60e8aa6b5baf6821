-- ===== src/BlockCache.antt =====
-- kernel/fs/axiomfs/cache.c: the cache of disk blocks, with the oldest entry evicted first.
pub mod Tree
pub mod State
pub mod Slots
pub mod Order
pub mod Removal
pub mod Balance
pub mod Search
pub mod Entries
pub mod Invariant
pub mod Lru
mod Tests
