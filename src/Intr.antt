-- ===== src/Intr.antt =====
-- kernel/proc.rs: the nesting of IntrLock on one processor.
pub mod Defs
pub mod Nesting
mod Tests
