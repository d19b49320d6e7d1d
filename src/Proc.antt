-- ===== src/Proc.antt =====
-- kernel/proc.rs: the table of processes.
pub mod Defs
pub mod Pool
pub mod Exit
pub mod Handover
pub mod Reap
pub mod Wakeup
mod Tests
