-- ===== src/File/Page.antt =====
-- `ouichefs_write_begin` and `ouichefs_write_end` of file.c, with what the page cache does as a
-- parameter. `i_blocks` is an unsigned 64-bit number.
pub mod Laws
use pnl.Base.{
  ℕ, zero, suc, ◌+◌, ◌-◌, ◌*◌, ◌/◌, ◌%◌, ◌^◌, max, Bool, true, Option, ltb, if◌then◌else◌, not,
  u32_mod,
}
use pnl.Bitmap.{put_block}
use pnl.Fs.{
  Fs, M, Result, ok, err, fault, enospc, set_buffer, set_inode, mark_buffer_dirty, mark_inode_dirty,
  max_filesize, block_size,
}
use pnl.Kernel.{BitmapApi, DeviceApi}
use pnl.Memory.{Bytes, store32}
use pnl.Superblock.{SbInfo}
use pnl.File.Content.{entry}
use pnl.File.Map.{file_get_block}

-- linux/buffer_head.h: what the generic code does with the pages of the inode `ino`.
-- `generic_write_end` returns the number of bytes written, and sets the size of the inode.
pub record PageApi : Type 0 where
  pub block_write_begin : (ino pos len : ℕ) → (ℕ → Bool → M (Option ℕ)) → M (Unit {0})
  pub generic_write_end : (ino pos len copied : ℕ) → Fs → ℕ × Fs
  pub truncate_pagecache : (ino size : ℕ) → Fs → Fs

-- `i_blocks - 1`
abbrev pub data_blocks : ℕ → ℕ
data_blocks i_blocks = (i_blocks + 2 ^ 64 - 1) % 2 ^ 64

-- The number of blocks to allocate, in the 32 bits of `nr_allocs`.
unfoldable pub nr_allocs : (pos len i_size i_blocks : ℕ) → ℕ
nr_allocs pos len i_size i_blocks =
    let nr = max (pos + len) i_size / block_size % u32_mod in
    if ltb (data_blocks i_blocks) nr then nr - data_blocks i_blocks else 0

module _ ⦃api : BitmapApi⦄ where
  -- The loop that frees the entries from `i` on, with `k` rounds left.
  unfoldable pub put_tail : ℕ → ℕ → SbInfo × Bytes → SbInfo × Bytes
  put_tail zero i s = s
  put_tail (suc k) i (sbi, index) =
      put_tail k (i + 1) (put_block sbi (entry index i), store32 index (4 * i) 0)

module _ ⦃api : BitmapApi⦄ ⦃dev : DeviceApi⦄ (pages : PageApi) where
  open dev use {bread_ok, current_time}
  open pages use {block_write_begin, generic_write_end, truncate_pagecache}

  unfoldable pub write_begin : (ino pos len : ℕ) → M (Unit {0})
  write_begin ino pos len fs =
      let inode = fs.inode ino in
      if ltb max_filesize (pos + len)
      then (err enospc, fs)
      else if ltb fs.sbi.nr_free_blocks (nr_allocs pos len inode.i_size inode.i_blocks)
      then (err enospc, fs)
      else block_write_begin ino pos len (file_get_block ino) fs

  -- The part for a file that has become smaller.
  unfoldable pub shrink : (ino nr_blocks_old : ℕ) → Fs → Fs
  shrink ino nr_blocks_old fs =
      let inode = fs.inode ino in
      let cut = truncate_pagecache ino inode.i_size fs in
      let freed =
        put_tail (nr_blocks_old - inode.i_blocks) (inode.i_blocks - 1)
          (cut.sbi, cut.buffer inode.index_block) in
      if not (bread_ok inode.index_block)
      then cut
      else mark_buffer_dirty (set_buffer (record cut { sbi = freed.0 }) inode.index_block freed.1)
          inode.index_block

  -- The new metadata of an inode that was written.
  unfoldable pub update_metadata : (ino : ℕ) → Fs → Fs
  update_metadata ino fs =
      let inode = fs.inode ino in
      mark_inode_dirty
        (set_inode fs ino (record inode {
          i_blocks = inode.i_size / block_size + 2;
          i_mtime = current_time;
          i_ctime = current_time;
        }))
        ino

  unfoldable pub write_end : (ino pos len copied : ℕ) → Fs → ℕ × Fs
  write_end ino pos len copied fs =
      let (ret, fs') = generic_write_end ino pos len copied fs in
      let nr_blocks_old = (fs'.inode ino).i_blocks % u32_mod in
      let updated = update_metadata ino fs' in
      if ltb ret len
      then (ret, fs')
      else if ltb (updated.inode ino).i_blocks nr_blocks_old
      then (ret, shrink ino nr_blocks_old updated)
      else (ret, updated)
