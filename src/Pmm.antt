-- ===== src/Pmm.antt =====
-- kernel/mm/pmm.c: the physical page allocator, a bitmap over page frames in three zones.
pub mod State
pub mod Bits
pub mod Alloc
pub mod Region
pub mod Invariant
pub mod Find
pub mod Single
pub mod Marking
pub mod Init
pub mod FindRegion
pub mod Multi
pub mod Source
pub mod Metadata
pub mod Reachable
mod Tests
