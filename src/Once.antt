-- ===== src/Once.antt =====
-- kernel/sync.rs: the state machine of `Once`, on which OnceLock and LazyLock stand.
pub mod Defs
pub mod Single
mod Tests
