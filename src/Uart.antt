-- ===== src/Uart.antt =====
-- kernel/uart.rs: the ring of bytes to send.
pub mod Defs
pub mod Order
mod Tests
