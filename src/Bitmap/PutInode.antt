-- ===== src/Bitmap/PutInode.antt =====
-- `put_inode` keeps the superblock consistent, and undoes `get_free_inode`.
use pnl.Base.{
  ℕ, ◌+◌, ◌≤◌, ◌<◌, ◌≡◌, ◌≢◌, refl, ◌∙◌, fun_ext, true, false, arith, ◌==◌, if◌then◌else◌, inc32,
}
use pnl.Kernel.{BitmapApi}
use pnl.Superblock.{SbInfo}
use pnl.Bitmap.{put_free_bit, put_inode}
use pnl.Bitmap.Count.{count, count-update, count-le}
use pnl.Bitmap.Consistent.{IsConsistent, InodeTaken}
use pnl.Bitmap.Put.{one_bit}

-- What a release of the inode `ino` does to the superblock.
pub record InodePut (sbi : SbInfo) (ino : ℕ) (sbi' : SbInfo) : Type 0 where
  pub changes : (i : ℕ) → sbi'.ifree_bitmap i ≡ (if i == ino then true else sbi.ifree_bitmap i)
  pub counter : sbi'.nr_free_inodes ≡ sbi.nr_free_inodes + 1
  pub rest :
      record sbi { ifree_bitmap = sbi'.ifree_bitmap; nr_free_inodes = sbi'.nr_free_inodes } ≡ sbi'
  pub consistent : IsConsistent sbi'

module _ ⦃api : BitmapApi⦄ where
  open api use {bitmap_set}

  put_inode_in_range :
      (sbi : SbInfo) (ino : ℕ)
      → ino ≤ sbi.nr_inodes
      → put_inode sbi ino ≡ record sbi {
        ifree_bitmap = bitmap_set sbi.ifree_bitmap ino 1;
        nr_free_inodes = inc32 sbi.nr_free_inodes;
      }
  unfolding put_inode put_free_bit
  put_inode_in_range sbi ino h = ground arith

  -- An inode that was taken from a consistent superblock and is given back leaves it as it was.
  pub put_inode_taken :
      (sbi s : SbInfo) (ino : ℕ) → IsConsistent sbi → InodeTaken sbi ino s → put_inode s ino ≡ sbi
  put_inode_taken sbi s ino c t =
      put_inode_in_range s ino (ground (arith, t.takes.in_range, t.rest))
      ∙ ground (arith, t.rest, bits, counter)
    where
      bits : bitmap_set s.ifree_bitmap ino 1 ≡ sbi.ifree_bitmap
      bits =
          fun_ext
            λ i. ground (arith, one_bit s.ifree_bitmap ino i, t.takes.changes i, t.takes.was_free)

      counter : inc32 s.nr_free_inodes ≡ sbi.nr_free_inodes
      counter =
          omega (
            arith,
            t.counter,
            c.free_inodes,
            c.inodes_small,
            count-le sbi.ifree_bitmap sbi.nr_inodes,
          )

  -- Giving back an inode that is in use (other than inode 0) sets its bit, raises the counter by one,
  -- changes nothing else, and keeps the superblock consistent.
  pub put_inode_lem :
      (sbi : SbInfo) (ino : ℕ)
      → IsConsistent sbi
      → ino ≢ 0
      → ino < sbi.nr_inodes
      → sbi.ifree_bitmap ino ≡ false
      → InodePut sbi ino (put_inode sbi ino)
  put_inode_lem sbi ino c nz lt used = rw (put_inode_in_range sbi ino (omega arith)) (record {
    changes = one_bit sbi.ifree_bitmap ino;
    counter = counter;
    rest = refl;
    consistent = record {
      blocks_small = c.blocks_small;
      inodes_small = c.inodes_small;
      free_blocks = c.free_blocks;
      free_inodes = omega (arith, counter, counted, c.free_inodes);
      block_zero = c.block_zero;
      inode_zero = ground (arith, one_bit sbi.ifree_bitmap ino 0, c.inode_zero);
    };
  })
    where
      counted :
          count (bitmap_set sbi.ifree_bitmap ino 1) sbi.nr_inodes
          ≡ count sbi.ifree_bitmap sbi.nr_inodes + 1
      counted = ground (
        arith,
        count-update sbi.ifree_bitmap (bitmap_set sbi.ifree_bitmap ino 1) ino true
            (one_bit sbi.ifree_bitmap ino) sbi.nr_inodes lt,
      )

      counter : inc32 sbi.nr_free_inodes ≡ sbi.nr_free_inodes + 1
      counter = omega (
        arith,
        counted,
        c.free_inodes,
        c.inodes_small,
        count-le (bitmap_set sbi.ifree_bitmap ino 1) sbi.nr_inodes,
      )
