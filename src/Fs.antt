-- ===== src/Fs.antt =====
-- The state that the handlers share: the superblock, the buffer cache with the blocks marked dirty,
-- the inodes in memory with those marked dirty, and the memory of the calling process.
-- A handler is a state transformer with a result. An error does not undo what was done before it.
use pnl.Base.{ℕ, Bool, true, update}
use pnl.Kernel.{Timespec}
use pnl.Memory.{Bytes}
use pnl.Superblock.{SbInfo}

-- The `struct inode` of the VFS with the field of `struct ouichefs_inode_info`.
pub record Inode : Type 0 where
  pub i_mode : ℕ
  pub i_uid : ℕ
  pub i_gid : ℕ
  pub i_size : ℕ
  pub i_blocks : ℕ
  pub i_nlink : ℕ
  pub i_ctime : Timespec
  pub i_atime : Timespec
  pub i_mtime : Timespec
  pub index_block : ℕ

pub record Fs : Type 0 where
  pub sbi : SbInfo
  -- `b_data` of the buffer of each block
  pub buffer : ℕ → Bytes
  pub buffer_dirty : ℕ → Bool
  pub inode : ℕ → Inode
  -- the inodes that are in the inode cache
  pub cached : ℕ → Bool
  pub inode_dirty : ℕ → Bool
  pub user : Bytes

pub data Errno : Type 0 where
  eperm eio ebadf enomem efault eexist enotdir einval enotty efbig enospc espipe emlink : Errno
  enametoolong enotempty : Errno

-- `fault` is an access through a variable that was never set, or outside its object.
pub data Result (A : Type 0) : Type 0 where
  ok : A → Result A
  err : Errno → Result A
  fault : Result A

abbrev pub M : Type 0 → Type 0
M A = Fs → Result A × Fs

-- What follows a step that may fail.
abbrev pub on_ok : {A B : Type 0} → Result A × Fs → (A → M B) → Result B × Fs
on_ok (ok a, fs) f = f a fs
on_ok (err e, fs) f = (err e, fs)
on_ok (fault, fs) f = (fault, fs)

abbrev pub set_buffer : Fs → ℕ → Bytes → Fs
set_buffer fs b data' = record fs { buffer = update fs.buffer b data' }

abbrev pub mark_buffer_dirty : Fs → ℕ → Fs
mark_buffer_dirty fs b = record fs { buffer_dirty = update fs.buffer_dirty b true }

abbrev pub set_inode : Fs → ℕ → Inode → Fs
set_inode fs ino i = record fs { inode = update fs.inode ino i }

abbrev pub mark_inode_dirty : Fs → ℕ → Fs
mark_inode_dirty fs ino = record fs { inode_dirty = update fs.inode_dirty ino true }

-- project/projet_PNL/ouichefs.h
abbrev pub block_size : ℕ
block_size = 4096

abbrev pub max_block_size : ℕ
max_block_size = 4095

abbrev pub max_filesize : ℕ
max_filesize = 4194304

abbrev pub filename_len : ℕ
filename_len = 28

abbrev pub max_subfiles : ℕ
max_subfiles = 128

abbrev pub max_blocks_per_file : ℕ
max_blocks_per_file = 1024
