-- ===== src/Super/Fill.antt =====
-- `ouichefs_fill_super` of super.c: mounting. The reference counts of buffers are not modelled, and
-- on an error the kernel drops the superblock, with the bitmaps that the code has freed.
use pnl.Base.{ℕ, ◌+◌, ◌*◌, Bool, false, Option, none, some, ◌==◌, if◌then◌else◌, not}
use pnl.Fs.{Fs, M, Result, ok, err, fault, eio, eperm, enomem, set_inode}
use pnl.Inode.Store.{VfsApi, ouichefs_iget}
use pnl.Kernel.{DeviceApi}
use pnl.Memory.{Bytes, load32}
use pnl.Super.{bytes_bitmap, load_sb, ouichefs_magic, read_bitmap}

module _ ⦃dev : DeviceApi⦄ ⦃vfs : VfsApi⦄ where
  open dev use {bread_ok}
  open vfs use {init_owner_root, iput}

  -- With what `ouichefs_iget` returned for the root. `root_ok` says whether `d_make_root` succeeds.
  unfoldable pub make_root : (root_ok : Bool) → Result ℕ × Fs → Result (Unit {0}) × Fs
  make_root root_ok (err e, fs) = (err e, fs)
  make_root root_ok (fault, fs) = (fault, fs)
  make_root root_ok (ok ino, fs) =
      let root = fs.inode ino in
      let owned = set_inode fs ino (init_owner_root root root.i_mode) in
      if root_ok then (ok tt, owned) else (err enomem, iput ino owned)

  -- With the outcome of the loop over the blocks of the bitmap of blocks.
  unfoldable pub with_bfree : (root_ok : Bool) → Option Bytes → M (Unit {0})
  with_bfree root_ok none fs = (err eio, fs)
  with_bfree root_ok (some bytes) fs =
      make_root root_ok
        (ouichefs_iget 1 (record fs { sbi = record fs.sbi { bfree_bitmap = bytes_bitmap bytes } }))

  -- With the outcome of the loop over the blocks of the bitmap of inodes. `memory` says which of the
  -- three allocations succeed.
  unfoldable pub with_ifree : (memory : ℕ → Bool) (root_ok : Bool) → Option Bytes → M (Unit {0})
  with_ifree memory root_ok none fs = (err eio, fs)
  with_ifree memory root_ok (some bytes) fs =
      let sbi = record fs.sbi { ifree_bitmap = bytes_bitmap bytes } in
      let filled = record fs { sbi = sbi } in
      if not (memory 2)
      then (err enomem, filled)
      else with_bfree root_ok
          (read_bitmap fs.buffer (sbi.nr_istore_blocks + sbi.nr_ifree_blocks + 1)
            sbi.nr_bfree_blocks 0 (λ a. 0))
          filled

  unfoldable pub ouichefs_fill_super : (memory : ℕ → Bool) (root_ok : Bool) → M (Unit {0})
  ouichefs_fill_super memory root_ok fs =
      let sbi = load_sb (fs.buffer 0) (λ i. false) (λ i. false) in
      let filled = record fs { sbi = sbi } in
      if not (bread_ok 0)
      then (err eio, fs)
      else if not (load32 (fs.buffer 0) (4 * 0) == ouichefs_magic)
      then (err eperm, fs)
      else if not (memory 0)
      then (err enomem, fs)
      else if not (memory 1)
      then (err enomem, filled)
      else with_ifree memory root_ok
          (read_bitmap fs.buffer (sbi.nr_istore_blocks + 1) sbi.nr_ifree_blocks 0 (λ a. 0)) filled
