-- ===== src/Super.antt =====
-- project/projet_PNL/super.c: writing the superblock and the bitmaps to the disk, and what
-- `ouichefs_fill_super` reads of them. The sizes of the bitmaps are small enough for `int`.
-- `ouichefs_write_inode` is in Inode.Store.
pub mod RoundTrip
pub mod Fill
use pnl.Base.{
  ℕ, zero, suc, ◌+◌, ◌*◌, ◌/◌, ◌%◌, Bool, true, Option, none, some, ◌==◌, if◌then◌else◌, not,
}
use pnl.Fs.{
  Fs, Inode, M, Result, ok, err, fault, on_ok, eio, eperm, enomem, block_size, filename_len,
  mark_buffer_dirty, set_buffer, set_inode,
}
use pnl.Inode.Store.{VfsApi, ouichefs_iget}
use pnl.Kernel.{Bits, DeviceApi}
use pnl.Memory.{Bytes, load32, memmove, store32}
use pnl.Superblock.{SbInfo}

abbrev pub ouichefs_magic : ℕ
ouichefs_magic = 0x48434957

-- The number with the `k` bits from `o` on, the lowest first.
unfoldable pub bits_value : Bits → ℕ → ℕ → ℕ
bits_value bits o zero = 0
bits_value bits o (suc k) = (if bits o then 1 else 0) + 2 * bits_value bits (o + 1) k

-- The bit `j` of a number.
unfoldable pub bit_of : ℕ → ℕ → Bool
bit_of n zero = n % 2 == 1
bit_of n (suc j) = bit_of (n / 2) j

-- A bitmap in memory, byte by byte, and back.
abbrev pub bitmap_bytes : Bits → Bytes
bitmap_bytes bits a = bits_value bits (8 * a) 8

abbrev pub bytes_bitmap : Bytes → Bits
bytes_bitmap b i = bit_of (b (i / 8)) (i % 8)

-- The words of the superblock on the disk that `sync_sb_info` sets; the word 0 is the magic number.
unfoldable pub store_sb : Bytes → SbInfo → Bytes
store_sb b sbi =
    let b1 = store32 b (4 * 1) sbi.nr_blocks in
    let b2 = store32 b1 (4 * 2) sbi.nr_inodes in
    let b3 = store32 b2 (4 * 3) sbi.nr_istore_blocks in
    let b4 = store32 b3 (4 * 4) sbi.nr_ifree_blocks in
    let b5 = store32 b4 (4 * 5) sbi.nr_bfree_blocks in
    let b6 = store32 b5 (4 * 6) sbi.nr_free_inodes in store32 b6 (4 * 7) sbi.nr_free_blocks

-- The words that `ouichefs_fill_super` reads. It leaves the magic number of its copy 0.
unfoldable pub load_sb : Bytes → Bits → Bits → SbInfo
load_sb b ifree bfree = record {
  magic = 0;
  nr_blocks = load32 b (4 * 1);
  nr_inodes = load32 b (4 * 2);
  nr_istore_blocks = load32 b (4 * 3);
  nr_ifree_blocks = load32 b (4 * 4);
  nr_bfree_blocks = load32 b (4 * 5);
  nr_free_inodes = load32 b (4 * 6);
  nr_free_blocks = load32 b (4 * 7);
  ifree_bitmap = ifree;
  bfree_bitmap = bfree;
}

module _ ⦃dev : DeviceApi⦄ where
  open dev use {bread_ok}

  unfoldable pub sync_sb_info : M (Unit {0})
  sync_sb_info fs =
      if not (bread_ok 0)
      then (err eio, fs)
      else (ok tt, mark_buffer_dirty (set_buffer fs 0 (store_sb (fs.buffer 0) fs.sbi)) 0)

  -- The loop of `sync_ifree` and of `sync_bfree`, at the round `i` with `k` rounds left; `base` is the
  -- block of the first round.
  unfoldable pub sync_bitmap : Bits → (base k i : ℕ) → M (Unit {0})
  sync_bitmap bits base zero i fs = (ok tt, fs)
  sync_bitmap bits base (suc k) i fs =
      let idx = base + i in
      let copied =
        set_buffer fs idx
          (memmove (fs.buffer idx) 0 (bitmap_bytes bits) (i * block_size) block_size) in
      let rest = sync_bitmap bits base k (i + 1) (mark_buffer_dirty copied idx) in
      if not (bread_ok idx) then (err eio, fs) else rest

  unfoldable pub sync_ifree : M (Unit {0})
  sync_ifree fs =
      sync_bitmap fs.sbi.ifree_bitmap (fs.sbi.nr_istore_blocks + 1) fs.sbi.nr_ifree_blocks 0 fs

  unfoldable pub sync_bfree : M (Unit {0})
  sync_bfree fs =
      sync_bitmap fs.sbi.bfree_bitmap (fs.sbi.nr_istore_blocks + fs.sbi.nr_ifree_blocks + 1)
        fs.sbi.nr_bfree_blocks 0 fs

  unfoldable pub ouichefs_sync_fs : M (Unit {0})
  ouichefs_sync_fs fs =
      on_ok (sync_sb_info fs) λ _ fs1. on_ok (sync_ifree fs1) λ _ fs2. sync_bfree fs2

  -- The loops of `ouichefs_fill_super` that read a bitmap into the memory `bytes`; `none` is EIO.
  unfoldable pub read_bitmap : (ℕ → Bytes) → (base k i : ℕ) → Bytes → Option Bytes
  read_bitmap buffer base zero i bytes = some bytes
  read_bitmap buffer base (suc k) i bytes =
      let idx = base + i in
      let rest =
        read_bitmap buffer base k (i + 1)
          (memmove bytes (i * block_size) (buffer idx) 0 block_size) in
      if not (bread_ok idx) then none else rest

-- struct kstatfs
pub record Kstatfs : Type 0 where
  pub f_type : ℕ
  pub f_bsize : ℕ
  pub f_blocks : ℕ
  pub f_bfree : ℕ
  pub f_bavail : ℕ
  pub f_files : ℕ
  pub f_ffree : ℕ
  pub f_namelen : ℕ

unfoldable pub ouichefs_statfs : SbInfo → Kstatfs
ouichefs_statfs sbi = record {
  f_type = ouichefs_magic;
  f_bsize = block_size;
  f_blocks = sbi.nr_blocks;
  f_bfree = sbi.nr_free_blocks;
  f_bavail = sbi.nr_free_blocks;
  f_files = sbi.nr_inodes;
  f_ffree = sbi.nr_free_inodes;
  f_namelen = filename_len;
}
