-- ===== src/Layout.antt =====
-- kernel/memlayout.rs: where the kernel puts what it maps.
pub mod Defs
pub mod Stacks
mod Tests
