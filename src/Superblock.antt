-- ===== src/Superblock.antt =====
-- `struct ouichefs_sb_info` (project/projet_PNL/ouichefs.h): the superblock in memory.
use pnl.Base.{ℕ}
use pnl.Kernel.{Bits}

pub record SbInfo : Type 0 where
  pub magic : ℕ
  pub nr_blocks : ℕ
  pub nr_inodes : ℕ
  pub nr_istore_blocks : ℕ
  pub nr_ifree_blocks : ℕ
  pub nr_bfree_blocks : ℕ
  pub nr_free_inodes : ℕ
  pub nr_free_blocks : ℕ
  pub ifree_bitmap : Bits
  pub bfree_bitmap : Bits
