-- ===== src/File/Page/Laws.antt =====
-- The space check of `ouichefs_write_begin`, and what `ouichefs_write_end` frees.
use pnl.Base.{
  ℕ, zero, suc, ◌+◌, ◌-◌, ◌*◌, ◌/◌, ◌%◌, ◌^◌, max, ◌≤◌, ◌<◌, ◌≡◌, ◌≢◌, true, arith, u32_mod,
}
use pnl.Bitmap.{put_block, put_free_bit}
use pnl.Bitmap.Put.{one_bit}
use pnl.Fs.{Fs, err, enospc, max_filesize, block_size}
use pnl.Kernel.{BitmapApi, DeviceApi}
use pnl.Memory.{Bytes, store32}
use pnl.Superblock.{SbInfo}
use pnl.File.Content.{entry}
use pnl.File.Map.{file_get_block}
use pnl.File.Page.{PageApi, nr_allocs, write_begin, put_tail, shrink, update_metadata, write_end}

module _ ⦃api : BitmapApi⦄ ⦃dev : DeviceApi⦄ (pages : PageApi) (ino pos len : ℕ) (fs : Fs) where
  open pages use {block_write_begin}

  -- For a file of at most the largest size, with an index block: `write_begin` refuses with ENOSPC and
  -- no change exactly if the write goes beyond the largest file, or if its data blocks and the free
  -- blocks are fewer than the whole blocks before the end, that is, the larger of the file's end and
  -- the write's; any other write goes on to the page cache.
  pub write_begin_lem :
      let inode = fs.inode ino in
      let whole = max (pos + len) inode.i_size / 4096 in
      0 < inode.i_blocks
      → inode.i_blocks < 2 ^ 64
      → inode.i_size ≤ max_filesize
      → (max_filesize < pos + len → write_begin pages ino pos len fs ≡ (err enospc, fs))
        × ((inode.i_blocks - 1) + fs.sbi.nr_free_blocks < whole
            → write_begin pages ino pos len fs ≡ (err enospc, fs))
        × (pos + len ≤ max_filesize
            → whole ≤ (inode.i_blocks - 1) + fs.sbi.nr_free_blocks
            → write_begin pages ino pos len fs
              ≡ block_write_begin ino pos len (file_get_block ino) fs)
  unfolding write_begin nr_allocs
  write_begin_lem some_blocks small size =
      (λ h. ground arith, λ h. ground arith, λ h k. ground arith)

-- The count is one block short for a write that ends inside a block: if the file has `d` data blocks,
-- no more than the whole blocks before that end, then `d` and the count together are fewer than
-- the blocks that hold the bytes up to the end.
pub nr_allocs-short :
    (pos len i_size d : ℕ)
    → i_size ≤ pos + len
    → pos + len ≤ max_filesize
    → (pos + len) % block_size ≢ 0
    → d ≤ (pos + len) / block_size
    → (nr_allocs pos len i_size (d + 1) + d) * block_size < pos + len
unfolding nr_allocs
nr_allocs-short pos len i_size d h k r le = ground arith

module _ ⦃api : BitmapApi⦄ where
  put_block-keeps :
      (sbi : SbInfo) (b i : ℕ) → sbi.bfree_bitmap i ≡ true → (put_block sbi b).bfree_bitmap i ≡ true
  unfolding put_block put_free_bit
  put_block-keeps sbi b i h = ground (arith, one_bit sbi.bfree_bitmap b i)

  put_zero : (sbi : SbInfo) → (put_block sbi 0).bfree_bitmap 0 ≡ true
  unfolding put_block put_free_bit
  put_zero sbi = ground (arith, one_bit sbi.bfree_bitmap 0 0)

  put_tail-keeps :
      (k j i : ℕ) (sbi : SbInfo) (index : Bytes)
      → sbi.bfree_bitmap i ≡ true
      → (put_tail k j (sbi, index)).0.bfree_bitmap i ≡ true
  unfolding put_tail
  put_tail-keeps zero j i sbi index h = h
  put_tail-keeps (suc k) j i sbi index h =
      put_tail-keeps k (j + 1) i (put_block sbi (entry index j)) (store32 index (4 * j) 0)
        (put_block-keeps sbi (entry index j) i h)

  put_tail-hole :
      (k i : ℕ) (sbi : SbInfo) (index : Bytes)
      → 0 < k
      → entry index i ≡ 0
      → (put_tail k i (sbi, index)).0.bfree_bitmap 0 ≡ true
  unfolding put_tail
  put_tail-hole zero i sbi index h z = absurd (omega arith)
  put_tail-hole (suc k) i sbi index h z =
      put_tail-keeps k (i + 1) 0 (put_block sbi (entry index i)) (store32 index (4 * i) 0)
        (rw z (put_zero sbi))

module _ ⦃api : BitmapApi⦄ ⦃dev : DeviceApi⦄ (pages : PageApi) where
  open pages use {truncate_pagecache}

  shrink-hole :
      (ino old : ℕ) (s : Fs)
      → truncate_pagecache ino (s.inode ino).i_size s ≡ s
      → dev.bread_ok (s.inode ino).index_block ≡ true
      → (s.inode ino).i_blocks < old
      → entry (s.buffer (s.inode ino).index_block) ((s.inode ino).i_blocks - 1) ≡ 0
      → (shrink pages ino old s).sbi.bfree_bitmap 0 ≡ true
  unfolding shrink
  shrink-hole ino old s keeps readable smaller hole =
      rw (keeps, readable)
        (put_tail-hole (old - (s.inode ino).i_blocks) ((s.inode ino).i_blocks - 1) s.sbi
          (s.buffer (s.inode ino).index_block) (omega arith) hole)

module _ ⦃api : BitmapApi⦄ ⦃dev : DeviceApi⦄ (pages : PageApi) (ino pos len copied : ℕ)
    (fs : Fs) where
  open pages use {generic_write_end, truncate_pagecache}

  -- If the generic code wrote all `len` bytes, and the file then has fewer blocks than its inode
  -- counted, and the first entry behind them is 0, then `write_end` marks block 0, the superblock's
  -- own block, as free. (The page cache does not touch bitmap, inodes or buffers when it is cut, and
  -- the index block can be read.)
  pub write_end-frees_superblock :
      let done = generic_write_end ino pos len copied fs in
      let inode = done.1.inode ino in
      let blocks = inode.i_size / block_size + 2 in
      len ≤ done.0
      → blocks < inode.i_blocks % u32_mod
      → ((i size : ℕ) (s : Fs) → truncate_pagecache i size s ≡ s)
      → dev.bread_ok inode.index_block ≡ true
      → entry (done.1.buffer inode.index_block) (blocks - 1) ≡ 0
      → (write_end pages ino pos len copied fs).1.sbi.bfree_bitmap 0 ≡ true
  unfolding write_end update_metadata
  write_end-frees_superblock all smaller keeps readable hole = ground (
    arith,
    shrink-hole pages ino
        (((generic_write_end ino pos len copied fs).1.inode ino).i_blocks % u32_mod)
        (update_metadata pages ino (generic_write_end ino pos len copied fs).1),
    keeps ino ((generic_write_end ino pos len copied fs).1.inode ino).i_size
        (update_metadata pages ino (generic_write_end ino pos len copied fs).1),
  )
