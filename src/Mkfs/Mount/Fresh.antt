-- ===== src/Mkfs/Mount/Fresh.antt =====
-- A formatted image is mounted: what the superblock in memory then says of it.
use pnl.Base.{
  ℕ, ◌+◌, ◌*◌, ◌/◌, ◌%◌, ◌≤◌, ◌<◌, ◌≡◌, refl, ap, ◌∙◌, Bool, true, false, some, arith, leb, ◌==◌,
  u32_mod, update, update-at,
}
use pnl.Bitmap.Count.{count, count-ext}
use pnl.Dir.Layout.{Compact}
use pnl.Fs.{Fs, Inode, Result, ok, block_size, set_inode}
use pnl.Inode.RoundTrip.{Fits, load-store_inode}
use pnl.Inode.Store.{VfsApi, ouichefs_iget}
use pnl.Kernel.{DeviceApi}
use pnl.Memory.{Bytes, load32, store32}
use pnl.Memory.Laws.{load-store}
use pnl.Mkfs.{
  Image, PosixApi, first_inodes, format, ones, root_inode, store_line, superblock, zeros,
}
use pnl.Mkfs.Bitmaps.{first_inodes_lem, ones_lem, other_inodes_lem}
use pnl.Mkfs.Layout.{Formatted, Sized, superblock-Sized, format-Formatted, used_blocks}
use pnl.Super.{bytes_bitmap, load_sb, ouichefs_magic, read_bitmap}
use pnl.Super.Fill.{make_root, ouichefs_fill_super, with_bfree, with_ifree}
use pnl.Super.RoundTrip.{read_bitmap_lem}
use pnl.Superblock.{SbInfo}
use pnl.Mkfs.Mount.{SbFits, bitmap_bits, count-from, load-store_sb, magic-store_sb}

-- The outcome of mounting a fresh image with the superblock `sb`. The counter of free inodes is one
-- more than the bitmap has, and the counter of free blocks is as many.
pub record Mounted (sb : SbInfo) (r : Result (Unit {0}) × Fs) : Type 0 where
  pub done : r.0 ≡ ok tt
  pub numbers :
      record r.1.sbi {
        magic = sb.magic;
        ifree_bitmap = sb.ifree_bitmap;
        bfree_bitmap = sb.bfree_bitmap;
      }
      ≡ sb
  pub ifree : (i : ℕ) → i < sb.nr_inodes → r.1.sbi.ifree_bitmap i ≡ leb 2 i
  pub bfree : (i : ℕ) → i < sb.nr_blocks → r.1.sbi.bfree_bitmap i ≡ leb (used_blocks sb) i
  pub blocks_counted : count r.1.sbi.bfree_bitmap sb.nr_blocks ≡ sb.nr_free_blocks
  pub inodes_miscounted : count r.1.sbi.ifree_bitmap sb.nr_inodes + 1 ≡ sb.nr_free_inodes
  pub root :
      record (r.1.inode 1) {
        i_mode = (root_inode sb).i_mode;
        i_uid = (root_inode sb).i_uid;
        i_gid = (root_inode sb).i_gid;
      }
      ≡ root_inode sb
  pub root_empty : Compact 0 (r.1.buffer (root_inode sb).index_block)

module _ ⦃dev : DeviceApi⦄ ⦃vfs : VfsApi⦄ (readable : (b : ℕ) → dev.bread_ok b ≡ true)
    (iget_ok : vfs.iget_ok 1 ≡ true) (memory : ℕ → Bool)
    (allocated : (call : ℕ) → memory call ≡ true) (n : ℕ) (sb : SbInfo) (s : Sized n sb)
    (fits : SbFits sb) (magic : sb.magic ≡ ouichefs_magic) (one_block : used_blocks sb ≤ 32768)
    (img : Image) (f : Formatted sb img) (fs : Fs) (buffers : fs.buffer ≡ img.block)
    (evicted : fs.cached 1 ≡ false) where
  open vfs use {init_owner_root}

  -- The bitmaps that are read.
  ifree_read :
      (bytes : Bytes) × (read_bitmap fs.buffer
          (sb.nr_istore_blocks + 1)
          sb.nr_ifree_blocks
          0
          (λ a. 0)
        ≡ some bytes)
      × ((i : ℕ) → i < sb.nr_inodes → bytes_bitmap bytes i ≡ leb 2 i)
  ifree_read =
      let h =
        read_bitmap_lem fs.buffer (sb.nr_istore_blocks + 1) sb.nr_ifree_blocks 0 (λ a. 0)
          readable in
      (
        h.0,
        h.1,
        λ i p.
            bitmap_bits fs.buffer (sb.nr_istore_blocks + 1) sb.nr_ifree_blocks h.0
              (store_line ones 0 first_inodes) (store_line ones 0 (λ j. true)) i h.2
              (rw buffers f.ifree_at) (omega (arith, s.ifree.1))
            ∙ ground (arith, first_inodes_lem i, other_inodes_lem (i % 32768)),
      )

  bfree_read :
      (bytes : Bytes) × (read_bitmap fs.buffer
          (sb.nr_istore_blocks + sb.nr_ifree_blocks + 1)
          sb.nr_bfree_blocks
          0
          (λ a. 0)
        ≡ some bytes)
      × ((i : ℕ) → i < sb.nr_blocks → bytes_bitmap bytes i ≡ leb (used_blocks sb) i)
  bfree_read =
      let h =
        read_bitmap_lem fs.buffer (sb.nr_istore_blocks + sb.nr_ifree_blocks + 1) sb.nr_bfree_blocks
          0 (λ a. 0) readable in
      (
        h.0,
        h.1,
        λ i p.
            bitmap_bits fs.buffer (sb.nr_istore_blocks + sb.nr_ifree_blocks + 1) sb.nr_bfree_blocks
              h.0 f.bfree_first ones i h.2 (rw buffers f.bfree_at)
              (omega (arith, s.bfree.1, s.nr_blocks))
            ∙ ground (arith, f.bfree_bits i, ones_lem (i % 32768)),
      )

  -- The superblock in memory.
  mounted_sbi : SbInfo
  mounted_sbi = record sb {
    magic = 0;
    ifree_bitmap = bytes_bitmap ifree_read.0;
    bfree_bitmap = bytes_bitmap bfree_read.0;
  }

  -- The state when the root has been read.
  with_root : Fs
  with_root = record (set_inode (record fs { sbi = mounted_sbi }) 1 (root_inode sb)) {
    cached = update fs.cached 1 true;
  }

  root-Fits : Fits (root_inode sb)
  unfolding root_inode
  root-Fits = record {
    i_mode = omega arith;
    i_uid = omega arith;
    i_gid = omega arith;
    i_size = omega arith;
    i_blocks = omega arith;
    i_nlink = omega arith;
    index_block = omega arith;
    ctime = omega arith;
    cnsec = omega arith;
    atime = omega arith;
    ansec = omega arith;
    mtime = omega arith;
    mnsec = omega arith;
  }

  iget-root : ouichefs_iget 1 (record fs { sbi = mounted_sbi }) ≡ (ok 1, with_root)
  unfolding ouichefs_iget with_root mounted_sbi
  iget-root =
      rw
        (
          readable 1,
          iget_ok,
          evicted,
          buffers,
          f.root_at,
          load-store_inode zeros 80 (root_inode sb) root-Fits,
        )
        (ground (arith, s.nr_inodes, s.fits))

  fill-ok :
      ouichefs_fill_super memory true fs
      ≡ (ok tt, set_inode with_root 1 (init_owner_root (root_inode sb) (root_inode sb).i_mode))
  unfolding ouichefs_fill_super with_ifree with_bfree mounted_sbi with_root make_root
  fill-ok =
      rw (readable 0, magic_read, allocated 0, allocated 1, sb_read, ifree_read.1, with_ifree)
        (rw (allocated 2, bfree_read.1, with_bfree)
          (ap (make_root true) iget-root
            ∙ ap (λ (i : Inode). (ok tt, set_inode with_root 1 (init_owner_root i i.i_mode)))
                root_at))
    where
      magic_read : (load32 (fs.buffer 0) (4 * 0) == ouichefs_magic) ≡ true
      magic_read =
          rw
            (
              buffers,
              f.sb_at,
              magic-store_sb (store32 zeros 0 sb.magic) sb,
              load-store zeros 0 0 sb.magic,
            )
            (ground (arith, magic))

      sb_read :
          load_sb (fs.buffer 0) (λ i. false) (λ i. false)
          ≡ record sb { magic = 0; ifree_bitmap = λ i. false; bfree_bitmap = λ i. false }
      sb_read =
          rw (buffers, f.sb_at)
            (load-store_sb (store32 zeros 0 sb.magic) sb (λ i. false) (λ i. false) fits)

      root_at : update fs.inode 1 (root_inode sb) 1 ≡ root_inode sb
      root_at = update-at fs.inode 1 (root_inode sb)

  blocks_lem : count (bytes_bitmap bfree_read.0) sb.nr_blocks ≡ sb.nr_free_blocks
  blocks_lem =
      count-ext (bytes_bitmap bfree_read.0) (leb (used_blocks sb)) sb.nr_blocks bfree_read.2
      ∙ count-from (used_blocks sb) sb.nr_blocks
      ∙ omega (arith, s.free_blocks, s.nr_blocks)

  inodes_lem : count (bytes_bitmap ifree_read.0) sb.nr_inodes + 1 ≡ sb.nr_free_inodes
  inodes_lem = omega (
    arith,
    count-ext (bytes_bitmap ifree_read.0) (leb 2) sb.nr_inodes ifree_read.2
        ∙ count-from 2 sb.nr_inodes,
    s.free_inodes,
    s.nr_inodes,
    s.fits,
  )

  zeros-Compact : Compact 0 zeros
  unfolding load32
  zeros-Compact = record {
    fits = omega arith;
    used = λ i p e. absurd (omega arith);
    free = λ i p q. refl;
  }

  root_empty_lem : Compact 0 (fs.buffer (root_inode sb).index_block)
  unfolding root_inode
  root_empty_lem = rw (buffers, index, f.index_at) zeros-Compact
    where
      index :
          (1 + sb.nr_bfree_blocks + sb.nr_ifree_blocks + sb.nr_istore_blocks) % u32_mod
          ≡ 1 + sb.nr_bfree_blocks + sb.nr_ifree_blocks + sb.nr_istore_blocks
      index = omega arith

  fill_super-Mounted : Mounted sb (ouichefs_fill_super memory true fs)
  unfolding with_root mounted_sbi
  fill_super-Mounted = rw fill-ok (record {
    done = refl;
    numbers = refl;
    ifree = ifree_read.2;
    bfree = bfree_read.2;
    blocks_counted = blocks_lem;
    inodes_miscounted = inodes_lem;
    root = ap owner init_at ∙ vfs.init_owner_root_lem (root_inode sb) (root_inode sb).i_mode;
    root_empty = root_empty_lem;
  })
    where
      owner : Inode → Inode
      owner i = record i {
        i_mode = (root_inode sb).i_mode;
        i_uid = (root_inode sb).i_uid;
        i_gid = (root_inode sb).i_gid;
      }

      init_at :
          update with_root.inode 1 (init_owner_root (root_inode sb) (root_inode sb).i_mode) 1
          ≡ init_owner_root (root_inode sb) (root_inode sb).i_mode
      init_at = update-at with_root.inode 1 (init_owner_root (root_inode sb) (root_inode sb).i_mode)

superblock-SbFits :
    (n st_size : ℕ) → n < u32_mod → Sized n (superblock st_size) → SbFits (superblock st_size)
superblock-SbFits n st_size small s = record {
  magic = unfold superblock in omega arith;
  nr_blocks = omega (arith, s.nr_blocks);
  nr_inodes = unfold superblock in omega arith;
  istore = omega (arith, s.fits);
  ifree = omega (arith, s.fits);
  bfree = omega (arith, s.fits);
  free_inodes = unfold superblock in omega arith;
  free_blocks = omega (arith, s.free_blocks);
}

-- An image of `n` blocks, at least 100, whose used blocks fit the first block of the bitmap, is
-- formatted from its start, and all allocations, reads and writes succeed: the tool succeeds, and
-- mounting what it wrote succeeds. The superblock in memory has the tool's numbers and bitmaps that
-- mark the used blocks and the inodes 0 and 1; as many blocks are free as the counter says, but one
-- inode fewer than its counter says; inode 1 is the tool's root, an empty directory.
pub mount-format :
    ⦃posix : PosixApi⦄ ⦃dev : DeviceApi⦄ ⦃vfs : VfsApi⦄ (st_size : ℕ) (start : Image)
    (memory : ℕ → Bool) (fs : Fs)
    → ((b : ℕ) → posix.write_ok b ≡ true)
    → ((call : ℕ) → posix.malloc_ok call ≡ true)
    → ((b : ℕ) → dev.bread_ok b ≡ true)
    → vfs.iget_ok 1 ≡ true
    → ((call : ℕ) → memory call ≡ true)
    → 100 ≤ st_size / block_size
    → st_size / block_size + 51 < u32_mod
    → used_blocks (superblock st_size) ≤ 32768
    → start.pos ≡ 0
    → fs.cached 1 ≡ false
    → (img : Image) × (format st_size start ≡ some (true, img))
      × Mounted
          (superblock st_size)
          (ouichefs_fill_super memory true (record fs { buffer = img.block }))
mount-format st_size start memory fs written malloc readable iget_ok allocated large small one_block
      z evicted =
    let formatted = format-Formatted st_size start written malloc large small one_block z in
    let n = st_size / block_size in
    let s = superblock-Sized st_size large small in
    (
      formatted.0,
      formatted.1,
      fill_super-Mounted readable iget_ok memory allocated n (superblock st_size) s
          (superblock-SbFits n st_size (omega arith) s) (unfold superblock in refl) one_block
          formatted.0 formatted.2 (record fs { buffer = formatted.0.block }) refl evicted,
    )
