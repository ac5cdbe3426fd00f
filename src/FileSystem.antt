-- ===== src/FileSystem.antt =====
-- TP File System: an in-memory file system with inodes, direct blocks and directories.
pub mod State
pub mod Intmap
pub mod Inode
pub mod Memory
pub mod Directory
pub mod Errno
pub mod Table
pub mod Paths
pub mod Create
pub mod ReadWrite
pub mod Remove
pub mod Attributes
pub mod Fuse
pub mod Invariant
mod Tests
