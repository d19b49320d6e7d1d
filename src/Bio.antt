-- ===== src/Bio.antt =====
-- kernel/bio.rs: the buffer cache and its list in order of use.
pub mod Defs
pub mod Chain
pub mod Walk
pub mod Release
pub mod Faults
pub mod Pick
pub mod Get
mod Tests
