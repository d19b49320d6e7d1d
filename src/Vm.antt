-- ===== src/Vm.antt =====
-- kernel/vm.rs: page tables of three levels.
pub mod Defs
pub mod Tree
pub mod Grow
pub mod Slots
pub mod Map
pub mod Pages
pub mod Range
pub mod Translate
pub mod Copy
pub mod CopyOut
pub mod RoundTrip
mod Tests
