-- ===== src/Channel.antt =====
-- kernel/mpmc.rs over kernel/semaphore.rs: bounded channels of many senders and receivers.
pub mod Defs
pub mod Order
mod Tests
