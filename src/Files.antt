-- ===== src/Files.antt =====
-- kernel/file.rs, kernel/pipe.rs and the descriptors of kernel/syscall.rs.
pub mod Defs
pub mod Counts
pub mod Counted
pub mod Last
pub mod Leak
pub mod Descriptors
pub mod Duplicate
mod Tests
