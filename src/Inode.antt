-- ===== src/Inode.antt =====
-- project/projet_PNL/inode.c and the inode part of super.c: inodes on disk and in memory.
pub mod Store
pub mod RoundTrip
pub mod Lookup
pub mod Create
pub mod Unlink
pub mod Rename
