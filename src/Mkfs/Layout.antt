-- ===== src/Mkfs/Layout.antt =====
-- The image that the tool leaves, if nothing fails.
use pnl.Base.{
  ℕ, ◌+◌, ◌-◌, ◌*◌, ◌/◌, ◌%◌, ◌≤◌, ◌<◌, ◌≡◌, refl, ap, ◌∙◌, Bool, true, false, some, arith, ltb,
  leb, ◌==◌, if◌then◌else◌, u32_mod,
}
use pnl.Fs.{block_size}
use pnl.Inode.Store.{inode_bytes, store_inode}
use pnl.Memory.{Bytes}
use pnl.Mkfs.{
  Image, PosixApi, Step, and_then, first_inodes, format, idiv_ceil, ones, root_inode, sb_block,
  store_line, superblock, write_bfree_blocks, write_block, write_copies, write_ifree_blocks,
  write_inode_store, write_root_index_block, write_superblock, zeros,
}
use pnl.Mkfs.Bitmaps.{mark_used-ones}
use pnl.Mkfs.Writes.{Puts, Puts-at, and_then-Puts, write_block-Puts, write_blocks-Puts}
use pnl.Super.{bytes_bitmap}
use pnl.Superblock.{SbInfo}

-- The number of blocks that the bitmap of blocks counts as used.
abbrev pub used_blocks : SbInfo → ℕ
used_blocks sb = sb.nr_istore_blocks + sb.nr_ifree_blocks + sb.nr_bfree_blocks + 2

-- The numbers of the superblock of an image of `n` blocks.
pub record Sized (n : ℕ) (sb : SbInfo) : Type 0 where
  pub nr_blocks : sb.nr_blocks ≡ n
  pub nr_inodes : sb.nr_inodes ≡ n + n % 51
  pub istore : (0 < sb.nr_istore_blocks) × (sb.nr_inodes ≤ 51 * sb.nr_istore_blocks)
  pub ifree : (0 < sb.nr_ifree_blocks) × (sb.nr_inodes ≤ 32768 * sb.nr_ifree_blocks)
  pub bfree : (0 < sb.nr_bfree_blocks) × (n ≤ 32768 * sb.nr_bfree_blocks)
  pub fits : used_blocks sb ≤ n
  pub free_inodes : sb.nr_free_inodes + 1 ≡ sb.nr_inodes
  pub free_blocks : sb.nr_free_blocks + used_blocks sb ≡ n

-- `idiv_ceil` by the number of inodes in a block, and of bits in a block.
ceil51 :
    (a : ℕ)
    → 0 < a
    → a < u32_mod
    → (0 < idiv_ceil a 51) × (a ≤ 51 * idiv_ceil a 51) × (idiv_ceil a 51 ≤ a / 51 + 1)
unfolding idiv_ceil
ceil51 a p small = ground arith

ceil32768 :
    (a : ℕ)
    → 0 < a
    → a < u32_mod
    → (0 < idiv_ceil a 32768)
      × (a ≤ 32768 * idiv_ceil a 32768)
      × (idiv_ceil a 32768 ≤ a / 32768 + 1)
unfolding idiv_ceil
ceil32768 a p small = ground arith

-- An image of 100 blocks or more, and not so many that the count of inodes overflows.
pub superblock-Sized :
    (st_size : ℕ)
    → 100 ≤ st_size / block_size
    → st_size / block_size + 51 < u32_mod
    → Sized (st_size / block_size) (superblock st_size)
unfolding superblock
superblock-Sized st_size large small =
    let n = st_size / block_size in
    let e : n % u32_mod ≡ n = omega arith in
    let f : (n + n % 51) % u32_mod ≡ n + n % 51 = omega arith in
    let i = ceil51 (n + n % 51) (omega arith) (omega arith) in
    let j = ceil32768 (n + n % 51) (omega arith) (omega arith) in
    let b = ceil32768 n (omega arith) (omega arith) in
    rw (e, f)
      (record {
        nr_blocks = refl;
        nr_inodes = refl;
        istore = (i.0, i.1);
        ifree = (j.0, j.1);
        bfree = (b.0, b.1);
        fits = omega (arith, i.2, j.2, b.2);
        free_inodes = omega arith;
        free_blocks = omega (arith, i.2, j.2, b.2);
      })

-- What stands where on a formatted image.
pub record Formatted (sb : SbInfo) (img : Image) : Type 0 where
  pub sb_at : img.block 0 ≡ sb_block sb
  pub root_at : img.block 1 ≡ store_inode zeros (1 * inode_bytes) (root_inode sb)
  pub ifree_at :
      (i : ℕ)
      → i < sb.nr_ifree_blocks
      → img.block (sb.nr_istore_blocks + 1 + i)
        ≡ (if i == 0 then store_line ones 0 first_inodes else store_line ones 0 (λ j. true))
  pub bfree_first : Bytes
  pub bfree_bits : (n : ℕ) → n < 32768 → bytes_bitmap bfree_first n ≡ leb (used_blocks sb) n
  pub bfree_at :
      (i : ℕ)
      → i < sb.nr_bfree_blocks
      → img.block (sb.nr_istore_blocks + sb.nr_ifree_blocks + 1 + i)
        ≡ (if i == 0 then bfree_first else ones)
  pub index_at :
      img.block (1 + sb.nr_bfree_blocks + sb.nr_ifree_blocks + sb.nr_istore_blocks) ≡ zeros

and_then-true : (r : Bool × Image) (f : Step) → r.0 ≡ true → and_then r f ≡ f r.1
and_then-true (true, img) f e = refl
and_then-true (false, img) f e = absurd (ground arith)

paired : (r : Bool × Image) → r.0 ≡ true → r ≡ (true, r.1)
paired (true, img) e = refl
paired (false, img) e = absurd (ground arith)

module _ ⦃posix : PosixApi⦄ (written : (b : ℕ) → posix.write_ok b ≡ true)
    (memory : (call : ℕ) → posix.malloc_ok call ≡ true) (n : ℕ) (sb : SbInfo) (s : Sized n sb)
    (small : n < u32_mod) (one_block : used_blocks sb ≤ 32768) where
  bfree : Bytes
  bfree = (mark_used-ones (used_blocks sb) one_block).0

  -- The images after each function, from an image on which the descriptor stands at the start.
  after_sb : Image → Bool × Image
  after_sb img = write_superblock sb img

  after_istore : Image → Bool × Image
  after_istore img = write_inode_store sb (after_sb img).1

  after_ifree : Image → Bool × Image
  after_ifree img = write_ifree_blocks sb (after_istore img).1

  after_bfree : Image → Bool × Image
  after_bfree img =
      and_then (write_block bfree (after_ifree img).1) (write_copies ones (sb.nr_bfree_blocks - 1))

  after_root : Image → Bool × Image
  after_root img = write_root_index_block (after_bfree img).1

  sb-Puts : (img : Image) → Puts (sb_block sb) (sb_block sb) 1 img (after_sb img)
  unfolding after_sb write_superblock
  sb-Puts img = rw (memory 0) (write_block-Puts written (sb_block sb) img)

  istore-Puts :
      (img : Image)
      → Puts
          (store_inode zeros (1 * inode_bytes) (root_inode sb))
          zeros
          sb.nr_istore_blocks
          (after_sb img).1
          (after_istore img)
  unfolding after_istore write_inode_store
  istore-Puts img =
      write_blocks-Puts written 1 (store_inode zeros (1 * inode_bytes) (root_inode sb)) zeros
        sb.nr_istore_blocks (after_sb img).1 s.istore.0 (memory 1)

  ifree-Puts :
      (img : Image)
      → Puts
          (store_line ones 0 first_inodes)
          (store_line ones 0 (λ j. true))
          sb.nr_ifree_blocks
          (after_istore img).1
          (after_ifree img)
  unfolding after_ifree write_ifree_blocks
  ifree-Puts img =
      write_blocks-Puts written 2 (store_line ones 0 first_inodes) (store_line ones 0 (λ j. true))
        sb.nr_ifree_blocks (after_istore img).1 s.ifree.0 (memory 2)

  bfree-Puts :
      (img : Image) → Puts bfree ones sb.nr_bfree_blocks (after_ifree img).1 (after_bfree img)
  unfolding after_bfree
  bfree-Puts img = and_then-Puts written bfree ones sb.nr_bfree_blocks (after_ifree img).1 s.bfree.0

  root-Puts : (img : Image) → Puts zeros zeros 1 (after_bfree img).1 (after_root img)
  unfolding after_root write_root_index_block
  root-Puts img =
      write_blocks-Puts written 4 zeros zeros 1 (after_bfree img).1 (omega arith) (memory 4)

  after_root-Formatted : (img : Image) → img.pos ≡ 0 → Formatted sb (after_root img).1
  after_root-Formatted img z = record {
    sb_at =
        (root-Puts img).before 0 (omega (arith, p3))
        ∙ (bfree-Puts img).before 0 (omega (arith, p2))
        ∙ (ifree-Puts img).before 0 (omega (arith, p1))
        ∙ (istore-Puts img).before 0 (omega (arith, p0))
        ∙ Puts-at (sb_block sb) (sb_block sb) 1 img (after_sb img) 0 0 (sb-Puts img) (omega arith)
            (omega arith);
    root_at =
        (root-Puts img).before 1 (omega (arith, p3, s.bfree.0))
        ∙ (bfree-Puts img).before 1 (omega (arith, p2, s.ifree.0))
        ∙ (ifree-Puts img).before 1 (omega (arith, p1, s.istore.0))
        ∙ Puts-at (store_inode zeros (1 * inode_bytes) (root_inode sb)) zeros sb.nr_istore_blocks
            (after_sb img).1 (after_istore img) 1 0 (istore-Puts img) s.istore.0
            (omega (arith, p0));
    ifree_at = λ i q.
        (root-Puts img).before (sb.nr_istore_blocks + 1 + i) (omega (arith, p3))
        ∙ (bfree-Puts img).before (sb.nr_istore_blocks + 1 + i) (omega (arith, p2))
        ∙ Puts-at (store_line ones 0 first_inodes) (store_line ones 0 (λ j. true))
            sb.nr_ifree_blocks (after_istore img).1 (after_ifree img) (sb.nr_istore_blocks + 1 + i)
            i (ifree-Puts img) q (omega (arith, p1));
    bfree_first = bfree;
    bfree_bits = unfold bfree in (mark_used-ones (used_blocks sb) one_block).2;
    bfree_at = λ i q.
        (root-Puts img).before (sb.nr_istore_blocks + sb.nr_ifree_blocks + 1 + i)
          (omega (arith, p3))
        ∙ Puts-at bfree ones sb.nr_bfree_blocks (after_ifree img).1 (after_bfree img)
            (sb.nr_istore_blocks + sb.nr_ifree_blocks + 1 + i) i (bfree-Puts img) q
            (omega (arith, p2));
    index_at =
        Puts-at zeros zeros 1 (after_bfree img).1 (after_root img)
          (1 + sb.nr_bfree_blocks + sb.nr_ifree_blocks + sb.nr_istore_blocks) 0 (root-Puts img)
          (omega arith) (omega (arith, p3));
  }
    where
      p0 : (after_sb img).1.pos ≡ 1
      p0 = omega (arith, (sb-Puts img).pos)

      p1 : (after_istore img).1.pos ≡ sb.nr_istore_blocks + 1
      p1 = omega (arith, (istore-Puts img).pos, p0)

      p2 : (after_ifree img).1.pos ≡ sb.nr_istore_blocks + sb.nr_ifree_blocks + 1
      p2 = omega (arith, (ifree-Puts img).pos, p1)

      p3 :
          (after_bfree img).1.pos
          ≡ 1 + sb.nr_bfree_blocks + sb.nr_ifree_blocks + sb.nr_istore_blocks
      p3 = omega (arith, (bfree-Puts img).pos, p2)

  inodes-written :
      (img : Image)
      → and_then
          (write_superblock sb img)
          (λ img1. and_then (write_inode_store sb img1) (write_ifree_blocks sb))
        ≡ (true, (after_ifree img).1)
  unfolding after_sb after_istore after_ifree
  inodes-written img =
      and_then-true (after_sb img)
        (λ img1. and_then (write_inode_store sb img1) (write_ifree_blocks sb)) (sb-Puts img).done
      ∙ and_then-true (after_istore img) (write_ifree_blocks sb) (istore-Puts img).done
      ∙ paired (after_ifree img) (ifree-Puts img).done

  bfree-written :
      (img : Image) → write_bfree_blocks sb (after_ifree img).1 ≡ some (true, (after_bfree img).1)
  unfolding write_bfree_blocks after_bfree bfree
  bfree-written img =
      rw (memory 3, used, (mark_used-ones (used_blocks sb) one_block).1)
        (ap some (paired (after_bfree img) (bfree-Puts img).done))
    where
      used :
          (sb.nr_istore_blocks + sb.nr_ifree_blocks + sb.nr_bfree_blocks + 2) % u32_mod
          ≡ used_blocks sb
      used = omega arith

  root-written :
      (img : Image)
      → and_then (true, (after_bfree img).1) write_root_index_block ≡ (true, (after_root img).1)
  unfolding after_root
  root-written img = paired (after_root img) (root-Puts img).done

-- If every allocation and every write succeeds, the descriptor stands at the start of an image of `n`
-- blocks, at least 100, and the used blocks fit the first block of the bitmap: formatting succeeds.
pub format-Formatted :
    ⦃posix : PosixApi⦄ (st_size : ℕ) (img : Image)
    → ((b : ℕ) → posix.write_ok b ≡ true)
    → ((call : ℕ) → posix.malloc_ok call ≡ true)
    → 100 ≤ st_size / block_size
    → st_size / block_size + 51 < u32_mod
    → used_blocks (superblock st_size) ≤ 32768
    → img.pos ≡ 0
    → (img' : Image) × (format st_size img ≡ some (true, img'))
      × Formatted (superblock st_size) img'
format-Formatted st_size img written memory large small one_block z =
    let sb = superblock st_size in
    let s = superblock-Sized st_size large small in
    let n = st_size / block_size in
    let t : n < u32_mod = omega arith in
    let size : ltb st_size (100 * block_size) ≡ false = ground arith in
    (
      (after_root written memory n sb s t one_block img).1,
      (unfold format in
          rw
            (
              size,
              inodes-written written memory n sb s t one_block img,
              bfree-written written memory n sb s t one_block img,
            )
            (ap some (root-written written memory n sb s t one_block img))),
      after_root-Formatted written memory n sb s t one_block img z,
    )
