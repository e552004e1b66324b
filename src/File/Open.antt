-- ===== src/File/Open.antt =====
-- `ouichefs_open` of file.c: opening a file with O_TRUNC empties it.
pub mod Laws
pub mod Truncate
use pnl.Base.{
  ℕ, zero, suc, ◌+◌, ◌*◌, Bool, Option, none, some, ◌==◌, ◌&&◌, ◌||◌, if◌then◌else◌, not,
}
use pnl.Bitmap.{put_block}
use pnl.Fs.{Fs, M, Result, ok, err, fault, eio, set_buffer, set_inode}
use pnl.Kernel.{BitmapApi, DeviceApi}
use pnl.Memory.{Bytes, store32}
use pnl.Superblock.{SbInfo}
use pnl.File.Content.{entry}

-- What follows the loop. The index block is not marked dirty.
unfoldable pub truncated : (ino : ℕ) → Fs → Option (SbInfo × Bytes) → Result (Unit {0}) × Fs
truncated ino fs none = (fault, fs)
truncated ino fs (some (sbi, index)) =
    let inode = fs.inode ino in
    (
      ok tt,
      set_inode (set_buffer (record fs { sbi = sbi }) inode.index_block index) ino
          (record inode { i_size = 0; i_blocks = 0 }),
    )

module _ ⦃api : BitmapApi⦄ where
  -- The loop, at the entry `iblock` with `k` entries of the index block left. It ends at an entry
  -- that is 0; `none` means that it runs past the end of the index block.
  unfoldable pub put_entries : ℕ → ℕ → SbInfo × Bytes → Option (SbInfo × Bytes)
  put_entries zero iblock s = none
  put_entries (suc k) iblock (sbi, index) =
      let rest =
        put_entries k (iblock + 1)
          (put_block sbi (entry index iblock), store32 index (4 * iblock) 0) in
      if entry index iblock == 0 then some (sbi, index) else rest

  module _ ⦃dev : DeviceApi⦄ where
    open dev use {bread_ok}

    -- `wronly`, `rdwr` and `trunc` say which flags are set in `f_flags`.
    unfoldable pub ouichefs_open : (wronly rdwr trunc : Bool) (ino : ℕ) → M (Unit {0})
    ouichefs_open wronly rdwr trunc ino fs =
        let inode = fs.inode ino in
        if (wronly || rdwr) && trunc && not (inode.i_size == 0)
        then if not (bread_ok inode.index_block)
          then (err eio, fs)
          else truncated ino fs (put_entries 1024 0 (fs.sbi, fs.buffer inode.index_block))
        else (ok tt, fs)
