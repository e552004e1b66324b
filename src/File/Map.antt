-- ===== src/File/Map.antt =====
-- `ouichefs_file_get_block` of file.c: the block of a file for the page cache.
-- This path stores a bare block number in the index block, without a size.
pub mod Laws
use pnl.Base.{ℕ, ◌*◌, Bool, Option, none, some, leb, ◌==◌, if◌then◌else◌, not}
use pnl.Bitmap.{get_free_block}
use pnl.Fs.{Fs, M, ok, err, eio, efbig, enospc, set_buffer}
use pnl.Kernel.{BitmapApi, DeviceApi}
use pnl.Memory.{store32}
use pnl.File.Content.{entry}

module _ ⦃api : BitmapApi⦄ ⦃dev : DeviceApi⦄ where
  open dev use {bread_ok}

  -- The result is the block to which `bh_result` is mapped, if it is mapped.
  -- The index block is not marked dirty.
  unfoldable pub file_get_block : (ino iblock : ℕ) → Bool → M (Option ℕ)
  file_get_block ino iblock create fs =
      let inode = fs.inode ino in
      let index = fs.buffer inode.index_block in
      let taken = get_free_block fs.sbi in
      if leb 1024 iblock
      then (err efbig, fs)
      else if not (bread_ok inode.index_block)
      then (err eio, fs)
      else if not (entry index iblock == 0)
      then (ok (some (entry index iblock)), fs)
      else if not create
      then (ok none, fs)
      else if taken.0 == 0
      then (err enospc, record fs { sbi = taken.1 })
      else (
        ok (some taken.0),
        set_buffer (record fs { sbi = taken.1 }) inode.index_block
            (store32 index (4 * iblock) taken.0),
      )
