-- ===== src/Fs.antt =====
-- kernel/fs.rs: blocks and the contents of inodes.
pub mod Defs
pub mod Bits
pub mod Balloc
pub mod Bmap
pub mod Indirect
pub mod Contents
pub mod Read
pub mod Path
pub mod Names
pub mod Inode
pub mod Layout
pub mod Ialloc
pub mod Table
pub mod Named
pub mod Shared
pub mod Aligned
mod Tests
mod Samples
