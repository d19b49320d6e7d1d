-- ===== src/Mode.antt =====
-- kernel/fcntl.rs: the modes in which a file is opened.
pub mod Defs
pub mod Bits
mod Tests
