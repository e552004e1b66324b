-- ===== src/Fileinfo.antt =====
-- project/projet_PNL/fileinfo.c: how much of a file's blocks is in use. The result is what the code
-- prints at the end: partially filled blocks, and the bytes not in use of all blocks.
pub mod Waste
use pnl.Base.{
  ltb, ℕ, zero, suc, ◌+◌, ◌-◌, Bool, true, false, Option, none, some, ◌==◌, if◌then◌else◌, not,
}
use pnl.Block.{get_block_size}
use pnl.File.Content.{entry}
use pnl.File.Page.{data_blocks}
use pnl.Fs.{max_blocks_per_file, fault, Fs, M, ok, err, eio, ebadf, enotty, max_block_size}
use pnl.Kernel.{DeviceApi}
use pnl.Memory.{Bytes}

-- The loop, at the entry `i` with `k` rounds left.
unfoldable pub scan : Bytes → (k i partially_filled_blocks total : ℕ) → ℕ × ℕ
scan index zero i partially_filled_blocks total = (partially_filled_blocks, total)
scan index (suc k) i partially_filled_blocks total =
    let waste = max_block_size - get_block_size (entry index i) in
    scan index k (i + 1)
      (if waste == 0 then partially_filled_blocks else partially_filled_blocks + 1) (total + waste)

module _ ⦃dev : DeviceApi⦄ where
  -- The loop goes to `i_blocks - 1`, an unsigned number; past the index block it reads outside its
  -- buffer.
  unfoldable pub fileinfo : (ino : ℕ) → M (ℕ × ℕ)
  fileinfo ino fs =
      let inode = fs.inode ino in
      let rounds = data_blocks inode.i_blocks in
      if not (dev.bread_ok inode.index_block)
      then (err eio, fs)
      else if ltb max_blocks_per_file rounds
      then (fault, fs)
      else (ok (scan (fs.buffer inode.index_block) rounds 0 0 0), fs)

  -- `read_cmd` says whether the command is READ_CMD, and `inode_of` gives the inode behind a file
  -- descriptor. `arg` is `none` for the descriptor -1.
  unfoldable pub fileinfo_ioctl : (read_cmd : Bool) → (ℕ → ℕ) → (arg : Option ℕ) → M (ℕ × ℕ)
  fileinfo_ioctl false inode_of arg fs = (err enotty, fs)
  fileinfo_ioctl true inode_of none fs = (err ebadf, fs)
  fileinfo_ioctl true inode_of (some fd) fs = fileinfo (inode_of fd) fs
