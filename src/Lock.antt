-- ===== src/Lock.antt =====
-- kernel/spinlock.rs and kernel/sleeplock.rs: locks of one holder.
pub mod Defs
pub mod Spin
pub mod Sleep
mod Tests
