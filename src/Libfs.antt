-- ===== src/Libfs.antt =====
-- The file systems of libfs/: what `struct inode` holds, and a module per file.
pub mod Inode
pub mod Devfs
pub mod Ramfs
pub mod Wrap
pub mod Disk
mod Tests
