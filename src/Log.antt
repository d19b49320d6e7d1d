-- ===== src/Log.antt =====
-- kernel/log.rs: the write-ahead log of the file system.
pub mod Defs
pub mod Blocks
pub mod Recovery
pub mod Writing
pub mod Commit
pub mod Admission
pub mod Absorb
mod Tests
