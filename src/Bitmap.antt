-- ===== src/Bitmap.antt =====
-- project/projet_PNL/bitmap.h: allocation of inodes and blocks. A set bit means free.
-- A function that updates `*sbi` returns the new value beside its result.
pub mod Count
pub mod Consistent
pub mod Put
pub mod PutInode
use pnl.Base.{ℕ, ◌≡◌, Option, none, some, ltb, ◌==◌, if◌then◌else◌, inc32, dec32}
use pnl.Kernel.{Bits, BitmapApi}
use pnl.Superblock.{SbInfo}

module _ ⦃api : BitmapApi⦄ where
  open api use {find_first_bit, bitmap_clear, bitmap_set}

  unfoldable pub get_first_free_bit : Bits → ℕ → ℕ × Bits
  get_first_free_bit freemap size =
      let ino = find_first_bit freemap size in
      if ino == size then (0, freemap) else (ino, bitmap_clear freemap ino 1)

  unfoldable pub get_free_inode : SbInfo → ℕ × SbInfo
  get_free_inode sbi =
      let (ret, freemap) = get_first_free_bit sbi.ifree_bitmap sbi.nr_inodes in
      (
        ret,
        (if ret == 0
            then record sbi { ifree_bitmap = freemap }
            else record sbi { ifree_bitmap = freemap; nr_free_inodes = dec32 sbi.nr_free_inodes }),
      )

  unfoldable pub get_free_block : SbInfo → ℕ × SbInfo
  get_free_block sbi =
      let (ret, freemap) = get_first_free_bit sbi.bfree_bitmap sbi.nr_blocks in
      (
        ret,
        (if ret == 0
            then record sbi { bfree_bitmap = freemap }
            else record sbi { bfree_bitmap = freemap; nr_free_blocks = dec32 sbi.nr_free_blocks }),
      )

  -- `none` is the return value -1.
  unfoldable pub put_free_bit : Bits → ℕ → ℕ → Option Bits
  put_free_bit freemap size i = if ltb size i then none else some (bitmap_set freemap i 1)

  unfoldable pub put_inode : SbInfo → ℕ → SbInfo
  put_inode sbi ino = elim (put_free_bit sbi.ifree_bitmap sbi.nr_inodes ino) [
    | none ↦ sbi
    | some freemap ↦ record sbi {
      ifree_bitmap = freemap;
      nr_free_inodes = inc32 sbi.nr_free_inodes;
    }
  ]

  unfoldable pub put_block : SbInfo → ℕ → SbInfo
  put_block sbi bno = elim (put_free_bit sbi.bfree_bitmap sbi.nr_blocks bno) [
    | none ↦ sbi
    | some freemap ↦ record sbi {
      bfree_bitmap = freemap;
      nr_free_blocks = inc32 sbi.nr_free_blocks;
    }
  ]
