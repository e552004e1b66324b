-- ===== src/Mkfs.antt =====
-- project/projet_PNL/mkfs/mkfs-ouichefs.c: the tool that formats a disk image. Its structures have the
-- layout of those of the kernel, and a host in little-endian order writes them as they are.
pub mod Writes
pub mod Bitmaps
pub mod Layout
pub mod Mount
use pnl.Base.{
  ℕ, zero, suc, ◌+◌, ◌-◌, ◌*◌, ◌/◌, ◌%◌, Bool, true, false, Option, none, some, ltb, ◌==◌, within,
  if◌then◌else◌, not, update, u32_mod,
}
use pnl.Fs.{Inode, block_size}
use pnl.Inode.Store.{inodes_per_block, inode_bytes, store_inode}
use pnl.Kernel.{Bits}
use pnl.Memory.{Bytes, memset, store32}
use pnl.Super.{bits_value, ouichefs_magic, store_sb}
use pnl.Superblock.{SbInfo}

-- Which calls of `malloc`, counted from 0, give memory, and at which block of the image `write` takes
-- the whole block.
pub record PosixApi : Type 0 where
  pub malloc_ok : ℕ → Bool
  pub write_ok : ℕ → Bool

-- The image, and the block at which the file descriptor stands.
pub record Image : Type 0 where
  pub pos : ℕ
  pub block : ℕ → Bytes

-- A function that returns an `int`: whether it is 0.
abbrev pub Step : Type 0
Step = Image → Bool × Image

abbrev pub and_then : Bool × Image → Step → Bool × Image
and_then (true, img) next = next img
and_then (false, img) next = (false, img)

abbrev pub zeros : Bytes
zeros a = 0

unfoldable pub idiv_ceil : ℕ → ℕ → ℕ
idiv_ceil a b = let ret = a / b in if not (a % b == 0) then (ret + 1) % u32_mod else ret

-- `a - b` on 32 bits
abbrev pub sub32 : ℕ → ℕ → ℕ
sub32 a b = (a + u32_mod - b) % u32_mod

-- The superblock of an image of `st_size` bytes.
unfoldable pub superblock : ℕ → SbInfo
superblock st_size =
    let nr_blocks = st_size / block_size % u32_mod in
    let nr_inodes = (nr_blocks + nr_blocks % inodes_per_block) % u32_mod in
    let nr_istore_blocks = idiv_ceil nr_inodes inodes_per_block in
    let nr_ifree_blocks = idiv_ceil nr_inodes (block_size * 8) in
    let nr_bfree_blocks = idiv_ceil nr_blocks (block_size * 8) in
    let nr_data_blocks =
      sub32 (sub32 (sub32 (sub32 nr_blocks 1) nr_istore_blocks) nr_ifree_blocks) nr_bfree_blocks in
    record {
      magic = ouichefs_magic;
      nr_blocks = nr_blocks;
      nr_inodes = nr_inodes;
      nr_istore_blocks = nr_istore_blocks;
      nr_ifree_blocks = nr_ifree_blocks;
      nr_bfree_blocks = nr_bfree_blocks;
      nr_free_inodes = sub32 nr_inodes 1;
      nr_free_blocks = sub32 nr_data_blocks 1;
      ifree_bitmap = λ i. false;
      bfree_bitmap = λ i. false;
    }

-- The block of the superblock on the image.
abbrev pub sb_block : SbInfo → Bytes
sb_block sb = store_sb (store32 zeros 0 sb.magic) sb

-- The first data block, which holds the entries of the root directory.
abbrev pub first_data_block : SbInfo → ℕ
first_data_block sb = (1 + sb.nr_bfree_blocks + sb.nr_ifree_blocks + sb.nr_istore_blocks) % u32_mod

-- Mode 040775: a directory, readable and searchable by all, writable by owner and group.
unfoldable pub root_inode : SbInfo → Inode
root_inode sb = record {
  i_mode = 0x41fd;
  i_uid = 0;
  i_gid = 0;
  i_size = block_size;
  i_blocks = 1;
  i_nlink = 2;
  i_ctime = record { tv_sec = 0; tv_nsec = 0 };
  i_atime = record { tv_sec = 0; tv_nsec = 0 };
  i_mtime = record { tv_sec = 0; tv_nsec = 0 };
  index_block = first_data_block sb;
}

-- A 64-bit word bit by bit, stored as the word `i` of a block.
unfoldable pub store_line : Bytes → ℕ → Bits → Bytes
store_line b i line a = if within (8 * i) 8 a then bits_value line (8 * (a - 8 * i)) 8 else b a

-- The `for` loop over the bits of a word, at the bit `j` with `k` left: `line` and `nr_used`.
unfoldable pub clear_line : (k j : ℕ) → Bits → (nr_used : ℕ) → Bits × ℕ
clear_line zero j line nr_used = (line, nr_used)
clear_line (suc k) j line nr_used =
    let cleared = update line j false in
    let left = nr_used - 1 in
    let rest = clear_line k (j + 1) cleared left in if left == 0 then (cleared, left) else rest

-- The `while` loop, at the word `i` with `k` words of the block left; `none` is a write behind it.
unfoldable pub mark_used : (k i nr_used : ℕ) → Bytes → Option Bytes
mark_used zero i nr_used b = if nr_used == 0 then some b else none
mark_used (suc k) i nr_used b =
    let cleared = clear_line 64 0 (λ j. true) nr_used in
    let rest = mark_used k (i + 1) cleared.1 (store_line b i cleared.0) in
    if nr_used == 0 then some b else rest

abbrev pub ones : Bytes
ones = memset zeros 0 255 block_size

-- 0xfffffffffffffffc: the inodes 0 and 1 are in use.
abbrev pub first_inodes : Bits
first_inodes j = ltb 1 j

module _ ⦃posix : PosixApi⦄ where
  open posix use {malloc_ok, write_ok}

  unfoldable pub write_block : Bytes → Step
  write_block b img =
      if write_ok img.pos
      then (true, record { pos = img.pos + 1; block = update img.block img.pos b })
      else (false, img)

  -- The loops that write the same block again and again.
  unfoldable pub write_copies : Bytes → ℕ → Step
  write_copies b zero img = (true, img)
  write_copies b (suc k) img = and_then (write_block b img) (write_copies b k)

  -- One block, and `n - 1` copies of another. `call` is the number of the call of `malloc` before.
  unfoldable pub write_blocks : (call : ℕ) → (first other : Bytes) (n : ℕ) → Step
  write_blocks call first other n img =
      if not (malloc_ok call)
      then (false, img)
      else and_then (write_block first img) (write_copies other (n - 1))

  unfoldable pub write_superblock : SbInfo → Step
  write_superblock sb img =
      if not (malloc_ok 0) then (false, img) else write_block (sb_block sb) img

  unfoldable pub write_inode_store : SbInfo → Step
  write_inode_store sb =
      write_blocks 1 (store_inode zeros (1 * inode_bytes) (root_inode sb)) zeros sb.nr_istore_blocks

  unfoldable pub write_ifree_blocks : SbInfo → Step
  write_ifree_blocks sb =
      write_blocks 2 (store_line ones 0 first_inodes) (store_line ones 0 (λ j. true))
        sb.nr_ifree_blocks

  -- With the outcome of the `while` loop, which may write behind the block: `none` is a fault.
  unfoldable pub write_bfree_blocks : SbInfo → Image → Option (Bool × Image)
  write_bfree_blocks sb img =
      let nr_used = (sb.nr_istore_blocks + sb.nr_ifree_blocks + sb.nr_bfree_blocks + 2) % u32_mod in
      if not (malloc_ok 3)
      then some (false, img)
      else elim (mark_used (block_size / 8) 0 nr_used ones) [
        | none ↦ none
        | some b ↦ some (and_then (write_block b img) (write_copies ones (sb.nr_bfree_blocks - 1)))
      ]

  unfoldable pub write_root_index_block : Step
  write_root_index_block = write_blocks 4 zeros zeros 1

  -- What `main` does from the size of the image on; `none` is a fault. It writes no data blocks.
  unfoldable pub format : (st_size : ℕ) → Image → Option (Bool × Image)
  format st_size img =
      let sb = superblock st_size in
      let inodes =
        and_then (write_superblock sb img)
          (λ img1. and_then (write_inode_store sb img1) (write_ifree_blocks sb)) in
      if ltb st_size (100 * block_size)
      then some (false, img)
      else if not inodes.0
      then some inodes
      else elim (write_bfree_blocks sb inodes.1) [
        | none ↦ none
        | some written ↦ some (and_then written write_root_index_block)
      ]
