-- ===== src/Mkfs/Mount.antt =====
-- What is read back from the superblock and the bitmaps of a formatted image.
pub mod Fresh
use pnl.Base.{
  ℕ, zero, suc, ◌+◌, ◌-◌, ◌*◌, ◌/◌, ◌%◌, ◌^◌, ◌≤◌, ◌<◌, ◌≡◌, ◌≢◌, refl, ap, sym, subst, ◌∙◌, Bool,
  true, false, Option, none, some, arith, ltb, leb, ◌==◌, if◌then◌else◌, not, inl, inr, u32_mod,
  Bool-cases, within, update, update-at,
}
use pnl.Bitmap.Count.{count, count-ext}
use pnl.Dir.Layout.{Compact}
use pnl.Fs.{Fs, Inode, Result, ok, err, fault, block_size, set_inode}
use pnl.Inode.RoundTrip.{Fits, load-store_inode}
use pnl.Inode.Store.{VfsApi, load_inode, ouichefs_iget}
use pnl.Kernel.{Bits, DeviceApi}
use pnl.Memory.{Bytes, load32, store32}
use pnl.Memory.Laws.{load-store}
use pnl.Mkfs.{
  Image, PosixApi, first_data_block, first_inodes, format, ones, root_inode, sb_block, store_line,
  superblock, zeros,
}
use pnl.Mkfs.Bitmaps.{first_inodes_lem, ones_lem, other_inodes_lem}
use pnl.Mkfs.Layout.{Formatted, Sized, format-Formatted, used_blocks}
use pnl.Super.{bit_of, bytes_bitmap, load_sb, ouichefs_magic, read_bitmap, store_sb}
use pnl.Super.Fill.{make_root, ouichefs_fill_super, with_bfree, with_ifree}
use pnl.Super.RoundTrip.{read_bitmap_lem}
use pnl.Superblock.{SbInfo}

-- How many of the first `n` numbers are `m` or more.
pub count-from : (m n : ℕ) → count (leb m) n ≡ n - m
unfolding count
count-from m zero = omega arith
count-from m (suc n) = ground (arith, count-from m n)

-- The numbers of a superblock fit 32 bits.
pub record SbFits (sb : SbInfo) : Type 0 where
  pub magic : sb.magic < u32_mod
  pub nr_blocks : sb.nr_blocks < u32_mod
  pub nr_inodes : sb.nr_inodes < u32_mod
  pub istore : sb.nr_istore_blocks < u32_mod
  pub ifree : sb.nr_ifree_blocks < u32_mod
  pub bfree : sb.nr_bfree_blocks < u32_mod
  pub free_inodes : sb.nr_free_inodes < u32_mod
  pub free_blocks : sb.nr_free_blocks < u32_mod

pub load-store_sb :
    (b : Bytes) (sb : SbInfo) (ifree bfree : Bits)
    → SbFits sb
    → load_sb (store_sb b sb) ifree bfree
      ≡ record sb { magic = 0; ifree_bitmap = ifree; bfree_bitmap = bfree }
unfolding load_sb store_sb
load-store_sb b sb ifree bfree f = simp load-store (ground arith)

pub magic-store_sb : (b : Bytes) (sb : SbInfo) → load32 (store_sb b sb) (4 * 0) ≡ load32 b (4 * 0)
unfolding store_sb
magic-store_sb b sb = simp load-store

-- The bits of a bitmap that was read from blocks, the first of which is another than the rest.
pub bitmap_bits :
    (block : ℕ → Bytes) (base k : ℕ) (bytes first other : Bytes) (n : ℕ)
    → ((a : ℕ)
        → bytes a ≡ (
            if within (0 * block_size) (k * block_size) a
            then block (base + a / block_size) (a % block_size)
            else 0))
    → ((i : ℕ) → i < k → block (base + i) ≡ (if i == 0 then first else other))
    → n < k * 32768
    → bytes_bitmap bytes n
      ≡ (if ltb n 32768 then bytes_bitmap first n else bytes_bitmap other (n % 32768))
bitmap_bits block base k bytes first other n read at lt =
    let byte : bytes (n / 8) ≡ block (base + n / 32768) (n / 8 % block_size) =
      read (n / 8) ∙ ground (arith, ap (λ i. block (base + i) (n / 8 % block_size)) quotient) in
    let here : block (base + n / 32768) ≡ (if n / 32768 == 0 then first else other) =
      at (n / 32768) (omega arith) in
    ap (λ v. bit_of v (n % 8)) (byte ∙ ap (λ (b : Bytes). b (n / 8 % block_size)) here)
    ∙ elim (Bool-cases (ltb n 32768)) [
      | inl low ↦
          let z : n / 32768 ≡ 0 = ground arith in
          let m : n / 8 % block_size ≡ n / 8 = ground arith in rw (low, z, m) refl
      | inr high ↦
          let z : (n / 32768 == 0) ≡ false = ground arith in
          let m : n % 32768 / 8 ≡ n / 8 % block_size = omega arith in
          let o : n % 32768 % 8 ≡ n % 8 = omega arith in rw (high, z, m, o) refl
    ]
  where
    quotient : n / 8 / block_size ≡ n / 32768
    quotient = omega arith
