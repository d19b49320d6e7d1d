-- ===== src/Console.antt =====
-- kernel/console.rs: the input line buffer of the console.
pub mod Defs
pub mod Ring
pub mod Edit
pub mod Refine
pub mod Read
pub mod Write
mod Tests
