-- ===== src/Bitmap/Put.antt =====
-- `put_block` and `put_inode`: what they keep, and where their guard is one too wide.
use pnl.Base.{
  ℕ, ◌+◌, ◌≤◌, ◌<◌, ◌≡◌, ◌≢◌, inl, inr, refl, ap, ◌∙◌, fun_ext, true, false, arith, ◌==◌,
  if◌then◌else◌, inc32,
}
use pnl.Kernel.{Bits, BitmapApi}
use pnl.Superblock.{SbInfo}
use pnl.Bitmap.{get_free_block, put_free_bit, put_block}
use pnl.Bitmap.Count.{count, count-update, count-le, count-outside}
use pnl.Bitmap.Consistent.{IsConsistent, BlockTaken, get_free_block_lem}

-- What a release of the block `bno` does to the superblock.
pub record BlockPut (sbi : SbInfo) (bno : ℕ) (sbi' : SbInfo) : Type 0 where
  pub changes : (i : ℕ) → sbi'.bfree_bitmap i ≡ (if i == bno then true else sbi.bfree_bitmap i)
  pub counter : sbi'.nr_free_blocks ≡ sbi.nr_free_blocks + 1
  pub rest :
      record sbi { bfree_bitmap = sbi'.bfree_bitmap; nr_free_blocks = sbi'.nr_free_blocks } ≡ sbi'
  pub consistent : IsConsistent sbi'

module _ ⦃api : BitmapApi⦄ where
  open api use {bitmap_set, bitmap_set_lem}

  pub one_bit : (bits : Bits) (b i : ℕ) → bitmap_set bits b 1 i ≡ (if i == b then true else bits i)
  one_bit bits b i = ground (arith, bitmap_set_lem bits b 1 i)

  put_in_range :
      (sbi : SbInfo) (bno : ℕ)
      → bno ≤ sbi.nr_blocks
      → put_block sbi bno ≡ record sbi {
        bfree_bitmap = bitmap_set sbi.bfree_bitmap bno 1;
        nr_free_blocks = inc32 sbi.nr_free_blocks;
      }
  unfolding put_block put_free_bit
  put_in_range sbi bno h = ground arith

  pub put_taken :
      (sbi s : SbInfo) (bno : ℕ) → IsConsistent sbi → BlockTaken sbi bno s → put_block s bno ≡ sbi
  put_taken sbi s bno c t =
      put_in_range s bno (ground (arith, t.takes.in_range, t.rest))
      ∙ ground (arith, t.rest, bits, counter)
    where
      bits : bitmap_set s.bfree_bitmap bno 1 ≡ sbi.bfree_bitmap
      bits =
          fun_ext
            λ i. ground (arith, one_bit s.bfree_bitmap bno i, t.takes.changes i, t.takes.was_free)

      counter : inc32 s.nr_free_blocks ≡ sbi.nr_free_blocks
      counter =
          omega (
            arith,
            t.counter,
            c.free_blocks,
            c.blocks_small,
            count-le sbi.bfree_bitmap sbi.nr_blocks,
          )

module _ ⦃api : BitmapApi⦄ (sbi : SbInfo) where
  open api use {bitmap_set}

  -- Giving back a block that is in use (other than block 0) sets its bit, raises the counter by
  -- one, changes nothing else, and keeps the superblock consistent.
  pub put_block_lem :
      (bno : ℕ)
      → IsConsistent sbi
      → bno ≢ 0
      → bno < sbi.nr_blocks
      → sbi.bfree_bitmap bno ≡ false
      → BlockPut sbi bno (put_block sbi bno)
  put_block_lem bno c nz lt used = rw (put_in_range sbi bno (omega arith)) (record {
    changes = one_bit sbi.bfree_bitmap bno;
    counter = counter;
    rest = refl;
    consistent = record {
      blocks_small = c.blocks_small;
      inodes_small = c.inodes_small;
      free_blocks = omega (arith, counter, counted, c.free_blocks);
      free_inodes = c.free_inodes;
      block_zero = ground (arith, one_bit sbi.bfree_bitmap bno 0, c.block_zero);
      inode_zero = c.inode_zero;
    };
  })
    where
      counted :
          count (bitmap_set sbi.bfree_bitmap bno 1) sbi.nr_blocks
          ≡ count sbi.bfree_bitmap sbi.nr_blocks + 1
      counted = ground (
        arith,
        count-update sbi.bfree_bitmap (bitmap_set sbi.bfree_bitmap bno 1) bno true
            (one_bit sbi.bfree_bitmap bno) sbi.nr_blocks lt,
      )

      counter : inc32 sbi.nr_free_blocks ≡ sbi.nr_free_blocks + 1
      counter = omega (
        arith,
        counted,
        c.free_blocks,
        c.blocks_small,
        count-le (bitmap_set sbi.bfree_bitmap bno 1) sbi.nr_blocks,
      )

  -- A block number beyond the bitmap is refused, and nothing changes.
  pub put_block_beyond : (bno : ℕ) → sbi.nr_blocks < bno → put_block sbi bno ≡ sbi
  unfolding put_block put_free_bit
  put_block_beyond bno h = ground arith

  -- The guard lets the number `nr_blocks` pass, which is no block: giving it back breaks the
  -- agreement of bitmap and counter on every consistent superblock.
  pub put_block_end : IsConsistent sbi → ¬ IsConsistent (put_block sbi sbi.nr_blocks)
  put_block_end c bad = ground (
    arith,
    bad.free_blocks,
    put_in_range sbi sbi.nr_blocks (omega arith),
    c.free_blocks,
    c.blocks_small,
    count-le sbi.bfree_bitmap sbi.nr_blocks,
    count-outside sbi.bfree_bitmap (bitmap_set sbi.bfree_bitmap sbi.nr_blocks 1) sbi.nr_blocks true
        (one_bit sbi.bfree_bitmap sbi.nr_blocks) sbi.nr_blocks (omega arith),
  )

  -- Giving back a block of the device that is free already breaks the agreement of bitmap and
  -- counter on every consistent superblock.
  pub put_block_twice :
      (bno : ℕ)
      → IsConsistent sbi
      → bno < sbi.nr_blocks
      → sbi.bfree_bitmap bno ≡ true
      → ¬ IsConsistent (put_block sbi bno)
  put_block_twice bno c lt free bad = ground (
    arith,
    bad.free_blocks,
    put_in_range sbi bno (omega arith),
    c.free_blocks,
    c.blocks_small,
    count-le sbi.bfree_bitmap sbi.nr_blocks,
    count-update sbi.bfree_bitmap (bitmap_set sbi.bfree_bitmap bno 1) bno true
        (one_bit sbi.bfree_bitmap bno) sbi.nr_blocks lt,
  )

  -- On a consistent superblock, a block that was just allocated and is given back leaves the
  -- superblock as it was.
  pub put-get :
      IsConsistent sbi
      → (get_free_block sbi).0 ≢ 0
      → put_block (get_free_block sbi).1 (get_free_block sbi).0 ≡ sbi
  put-get c got = elim (get_free_block_lem c) [
    | inl full ↦ absurd (got (ap (λ (p : ℕ × SbInfo). p.0) full.0))
    | inr t ↦ put_taken sbi (get_free_block sbi).1 (get_free_block sbi).0 c t
  ]
