-- ===== src/Virtio.antt =====
-- kernel/virtio_disk.rs: the disk driver's descriptors, requests and interrupts.
pub mod Defs
pub mod Alloc
pub mod Chain
pub mod Intr
pub mod Faults
mod Tests
