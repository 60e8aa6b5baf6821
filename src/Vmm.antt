-- ===== src/Vmm.antt =====
-- kernel/mm/vmm.c: the areas of an address space, and mapping and unmapping memory.
pub mod Area
pub mod Pages
pub mod Unmap
pub mod Map
pub mod User
pub mod Heap
pub mod Fault
mod Table
mod Tests
pub mod Clone
