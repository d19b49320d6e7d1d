-- ===== src/Rwlock.antt =====
-- kernel/rwlock.rs: the spinning lock of readers and writers, and its upgrade.
pub mod Defs
pub mod Agree
pub mod Exclusion
pub mod Stuck
mod Tests
