-- ===== src/Fs.antt =====
-- The file system of kernel/kernel.c and kernel/fs.h.
pub mod Disk
pub mod Alloc
pub mod Inode
pub mod Blockmap
pub mod Dirs
pub mod Copy
mod Tests
