-- ===== src/File/Open/Truncate.antt =====
-- `ouichefs_open` with O_TRUNC: on plain block numbers, and on entries that carry a size.
use pnl.Base.{ℕ, ◌+◌, ◌^◌, ◌<◌, ◌≡◌, ◌≢◌, refl, Bool, true, arith, ◌||◌}
use pnl.Bitmap.Consistent.{IsConsistent}
use pnl.Block.{get_block_size}
use pnl.Block.Laws.{size_lem}
use pnl.Fs.{Fs, ok, set_buffer, set_inode}
use pnl.Kernel.{BitmapApi, DeviceApi}
use pnl.Memory.{Bytes}
use pnl.Superblock.{SbInfo}
use pnl.File.Content.{entry}
use pnl.File.Open.{put_entries, truncated, ouichefs_open}
use pnl.File.Open.Laws.{Cleared, Owned, Freed, put_entries-Freed, Lost, put_entries-Lost}

-- The state after truncation, with the new superblock and index block.
abbrev pub emptied : ℕ → Fs → SbInfo → Bytes → Fs
emptied ino fs sbi index =
    set_inode (set_buffer (record fs { sbi = sbi }) (fs.inode ino).index_block index) ino
      (record (fs.inode ino) { i_size = 0; i_blocks = 0 })

module _ ⦃api : BitmapApi⦄ ⦃dev : DeviceApi⦄ (wronly rdwr : Bool) (ino n : ℕ) (fs : Fs) where
  open dev use {bread_ok}

  opens :
      (wronly || rdwr) ≡ true
      → (fs.inode ino).i_size ≢ 0
      → bread_ok (fs.inode ino).index_block ≡ true
      → ouichefs_open wronly rdwr true ino fs
        ≡ truncated ino fs (put_entries 1024 0 (fs.sbi, fs.buffer (fs.inode ino).index_block))
  unfolding ouichefs_open
  opens w nonempty readable = ground arith

  -- Opening a file of nonzero size for writing with O_TRUNC, where the index block can be read and
  -- holds the numbers of `n` distinct used blocks, then a 0, on a consistent superblock: the call
  -- succeeds, each of these blocks becomes free, no free block becomes used, the counter of free
  -- blocks rises by `n` and the superblock stays consistent; these entries become 0, the others
  -- stay; size and block count of the inode become 0, and nothing else changes.
  pub open-truncates :
      let index = fs.buffer (fs.inode ino).index_block in
      (wronly || rdwr) ≡ true
      → (fs.inode ino).i_size ≢ 0
      → bread_ok (fs.inode ino).index_block ≡ true
      → n < 1024
      → IsConsistent fs.sbi
      → Owned fs.sbi index 0 n
      → entry index n ≡ 0
      → (sbi' : SbInfo) × (index' : Bytes) × (ouichefs_open wronly rdwr true ino fs
          ≡ (ok tt, emptied ino fs sbi' index'))
        × IsConsistent sbi'
        × (sbi'.nr_free_blocks ≡ fs.sbi.nr_free_blocks + n)
        × ((j : ℕ) → j < n → sbi'.bfree_bitmap (entry index j) ≡ true)
        × ((b : ℕ) → fs.sbi.bfree_bitmap b ≡ true → sbi'.bfree_bitmap b ≡ true)
        × Cleared 0 n index index'
  open-truncates w nonempty readable small c o z = (
    f.sbi',
    f.index',
    rw (opens w nonempty readable, f.result) (unfold truncated in refl),
    f.consistent,
    omega (arith, f.counter),
    λ j p. f.free j (omega arith) p,
    f.kept,
    f.entries,
  )
    where
      f :
          Freed 0 n fs.sbi
            (fs.buffer (fs.inode ino).index_block)
            (put_entries 1024 0 (fs.sbi, fs.buffer (fs.inode ino).index_block))
      f =
          put_entries-Freed 1024 0 n fs.sbi (fs.buffer (fs.inode ino).index_block) (omega arith)
            small c o z

  -- If instead these `n` entries carry a size, as those that `ouichefs_write` makes do, and the device
  -- has fewer than 2^20 blocks, then the call succeeds and clears the entries, but the superblock
  -- stays as it was: none of the blocks is given back.
  pub open-loses_sized_blocks :
      let index = fs.buffer (fs.inode ino).index_block in
      (wronly || rdwr) ≡ true
      → (fs.inode ino).i_size ≢ 0
      → bread_ok (fs.inode ino).index_block ≡ true
      → n < 1024
      → fs.sbi.nr_blocks < 2 ^ 20
      → ((j : ℕ) → j < n → get_block_size (entry index j) ≢ 0)
      → entry index n ≡ 0
      → (index' : Bytes) × (ouichefs_open wronly rdwr true ino fs
          ≡ (ok tt, emptied ino fs fs.sbi index'))
        × Cleared 0 n index index'
  open-loses_sized_blocks w nonempty readable small blocks sized z =
      (f.index', rw (opens w nonempty readable, f.result) (unfold truncated in refl), f.entries)
    where
      f :
          Lost 0 n fs.sbi
            (fs.buffer (fs.inode ino).index_block)
            (put_entries 1024 0 (fs.sbi, fs.buffer (fs.inode ino).index_block))
      f =
          put_entries-Lost 1024 0 n fs.sbi (fs.buffer (fs.inode ino).index_block) (omega arith)
            small
            (λ j p q.
              omega (arith, sized j q, size_lem (entry (fs.buffer (fs.inode ino).index_block) j)))
            z
