-- ===== src/Bitmap/Consistent.antt =====
-- The bitmaps agree with the counters of the superblock: what bitmap.h keeps.
use pnl.Base.{
  ℕ, ◌+◌, ◌<◌, ◌≡◌, ◌≢◌, ◌⊎◌, inl, inr, refl, true, false, arith, ◌==◌, Bool-cases, if◌then◌else◌,
  u32_mod, dec32,
}
use pnl.Kernel.{Bits, BitmapApi}
use pnl.Superblock.{SbInfo}
use pnl.Bitmap.{get_first_free_bit, get_free_inode, get_free_block}
use pnl.Bitmap.Count.{count, count-update, count-le}

-- The first block and the first inode are never free, as the comment in bitmap.h assumes.
pub record IsConsistent (sbi : SbInfo) : Type 0 where
  pub blocks_small : sbi.nr_blocks < u32_mod
  pub inodes_small : sbi.nr_inodes < u32_mod
  pub free_blocks : count sbi.bfree_bitmap sbi.nr_blocks ≡ sbi.nr_free_blocks
  pub free_inodes : count sbi.ifree_bitmap sbi.nr_inodes ≡ sbi.nr_free_inodes
  pub block_zero : sbi.bfree_bitmap 0 ≡ false
  pub inode_zero : sbi.ifree_bitmap 0 ≡ false

-- What an allocation from a bitmap of `size` bits does.
pub record Takes (size : ℕ) (old : Bits) (ret : ℕ) (new : Bits) : Type 0 where
  pub in_range : ret < size
  pub nonzero : ret ≢ 0
  pub was_free : old ret ≡ true
  pub least : (i : ℕ) → i < ret → old i ≡ false
  pub changes : (i : ℕ) → new i ≡ (if i == ret then false else old i)

module _ ⦃api : BitmapApi⦄ where
  open api use {
    find_first_bit, find_first_bit-le, find_first_bit-set, find_first_bit-least, bitmap_clear,
    bitmap_clear_lem, bitmap_set, bitmap_set_lem,
  }

  -- Either no bit is free and the bitmap is left alone, or the least free one is taken.
  pub get_first_free_bit_lem :
      (bits : Bits) (size : ℕ)
      → bits 0 ≡ false
      → (get_first_free_bit bits size ≡ (0, bits)) × ((i : ℕ) → i < size → bits i ≡ false)
        ⊎ Takes size bits (get_first_free_bit bits size).0 (get_first_free_bit bits size).1
  unfolding get_first_free_bit
  get_first_free_bit_lem bits size z = elim (Bool-cases (find_first_bit bits size == size)) [
    | inl e ↦ inl (rw e, λ i p. find_first_bit-least bits size i (ground arith))
    | inr e ↦ rw e (
        inr (record {
          in_range = ground (arith, find_first_bit-le bits size);
          nonzero = λ q. ground (arith, find_first_bit-le bits size, find_first_bit-set bits size);
          was_free = ground (arith, find_first_bit-le bits size, find_first_bit-set bits size);
          least = λ i p. find_first_bit-least bits size i p;
          changes = λ i. ground (arith, bitmap_clear_lem bits (find_first_bit bits size) 1 i);
        }))
  ]

-- What an allocation of the block `bno` does to the superblock.
pub record BlockTaken (sbi : SbInfo) (bno : ℕ) (sbi' : SbInfo) : Type 0 where
  pub takes : Takes sbi.nr_blocks sbi.bfree_bitmap bno sbi'.bfree_bitmap
  pub counter : sbi'.nr_free_blocks + 1 ≡ sbi.nr_free_blocks
  pub rest :
      record sbi { bfree_bitmap = sbi'.bfree_bitmap; nr_free_blocks = sbi'.nr_free_blocks } ≡ sbi'
  pub consistent : IsConsistent sbi'

pub record InodeTaken (sbi : SbInfo) (ino : ℕ) (sbi' : SbInfo) : Type 0 where
  pub takes : Takes sbi.nr_inodes sbi.ifree_bitmap ino sbi'.ifree_bitmap
  pub counter : sbi'.nr_free_inodes + 1 ≡ sbi.nr_free_inodes
  pub rest :
      record sbi { ifree_bitmap = sbi'.ifree_bitmap; nr_free_inodes = sbi'.nr_free_inodes } ≡ sbi'
  pub consistent : IsConsistent sbi'

module _ {sbi : SbInfo} (c : IsConsistent sbi) where
  take_block :
      (ret : ℕ) (new : Bits)
      → Takes sbi.nr_blocks sbi.bfree_bitmap ret new
      → BlockTaken sbi ret
          (record sbi { bfree_bitmap = new; nr_free_blocks = dec32 sbi.nr_free_blocks })
  take_block ret new t = record {
    takes = t;
    counter = ground (arith, counted, c.free_blocks, count-le sbi.bfree_bitmap sbi.nr_blocks);
    rest = refl;
    consistent = record {
      blocks_small = c.blocks_small;
      inodes_small = c.inodes_small;
      free_blocks = ground (arith, counted, c.free_blocks, count-le sbi.bfree_bitmap sbi.nr_blocks);
      free_inodes = c.free_inodes;
      block_zero = ground (arith, t.changes 0, c.block_zero);
      inode_zero = c.inode_zero;
    };
  }
    where
      counted : count new sbi.nr_blocks + 1 ≡ count sbi.bfree_bitmap sbi.nr_blocks
      counted = ground (
        arith,
        t.was_free,
        count-update sbi.bfree_bitmap new ret false t.changes sbi.nr_blocks t.in_range,
      )

  take_inode :
      (ret : ℕ) (new : Bits)
      → Takes sbi.nr_inodes sbi.ifree_bitmap ret new
      → InodeTaken sbi ret
          (record sbi { ifree_bitmap = new; nr_free_inodes = dec32 sbi.nr_free_inodes })
  take_inode ret new t = record {
    takes = t;
    counter = ground (arith, counted, c.free_inodes, count-le sbi.ifree_bitmap sbi.nr_inodes);
    rest = refl;
    consistent = record {
      blocks_small = c.blocks_small;
      inodes_small = c.inodes_small;
      free_inodes = ground (arith, counted, c.free_inodes, count-le sbi.ifree_bitmap sbi.nr_inodes);
      free_blocks = c.free_blocks;
      inode_zero = ground (arith, t.changes 0, c.inode_zero);
      block_zero = c.block_zero;
    };
  }
    where
      counted : count new sbi.nr_inodes + 1 ≡ count sbi.ifree_bitmap sbi.nr_inodes
      counted = ground (
        arith,
        t.was_free,
        count-update sbi.ifree_bitmap new ret false t.changes sbi.nr_inodes t.in_range,
      )

module _ ⦃api : BitmapApi⦄ {sbi : SbInfo} (c : IsConsistent sbi) where
  -- `get_free_block` on a consistent superblock: with no block free it returns 0 and changes
  -- nothing; otherwise it takes the least free block, which is not block 0, clears its bit and no
  -- other, lowers the counter by one, changes nothing else, and keeps the superblock consistent.
  pub get_free_block_lem :
      (get_free_block sbi ≡ (0, sbi)) × ((i : ℕ) → i < sbi.nr_blocks → sbi.bfree_bitmap i ≡ false)
      ⊎ BlockTaken sbi (get_free_block sbi).0 (get_free_block sbi).1
  unfolding get_free_block
  get_free_block_lem = elim (get_first_free_bit_lem sbi.bfree_bitmap sbi.nr_blocks c.block_zero) [
    | inl (e, none_free) ↦ inl (rw e, none_free)
    | inr t ↦ inr (
        ground (
          arith,
          t.nonzero,
          take_block c (get_first_free_bit sbi.bfree_bitmap sbi.nr_blocks).0
              (get_first_free_bit sbi.bfree_bitmap sbi.nr_blocks).1 t,
        ))
  ]

  -- `get_free_inode` on a consistent superblock: with no inode free it returns 0 and changes
  -- nothing; otherwise it takes the least free inode, which is not inode 0, clears its bit and no
  -- other, lowers the counter by one, changes nothing else, and keeps the superblock consistent.
  pub get_free_inode_lem :
      (get_free_inode sbi ≡ (0, sbi)) × ((i : ℕ) → i < sbi.nr_inodes → sbi.ifree_bitmap i ≡ false)
      ⊎ InodeTaken sbi (get_free_inode sbi).0 (get_free_inode sbi).1
  unfolding get_free_inode
  get_free_inode_lem = elim (get_first_free_bit_lem sbi.ifree_bitmap sbi.nr_inodes c.inode_zero) [
    | inl (e, none_free) ↦ inl (rw e, none_free)
    | inr t ↦ inr (
        ground (
          arith,
          t.nonzero,
          take_inode c (get_first_free_bit sbi.ifree_bitmap sbi.nr_inodes).0
              (get_first_free_bit sbi.ifree_bitmap sbi.nr_inodes).1 t,
        ))
  ]
