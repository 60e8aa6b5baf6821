-- ===== src/RbTree.antt =====
-- kernel/lib/rbtree.c: red-black trees.
pub mod Tree
pub mod Insert
pub mod Erase
pub mod Order
pub mod Removal
pub mod Balance
pub mod Rebalance
pub mod Kept
pub mod Walk
mod Tests
