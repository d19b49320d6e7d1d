-- ===== src/Buddy.antt =====
-- kernel/buddy.rs and kernel/list.rs: the allocator of memory.
pub mod Links
pub mod Ring
pub mod Calls
pub mod Circles
pub mod Lists
pub mod Defs
pub mod Index
pub mod Nodes
pub mod Split
pub mod Alloc
pub mod Sizes
pub mod Give
pub mod Merge
pub mod Pairs
pub mod Free
pub mod Apart
mod Tests
