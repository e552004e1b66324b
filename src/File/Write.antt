-- ===== src/File/Write.antt =====
-- `ouichefs_write` of file.c: a write inserts its bytes at the offset and splits the block there.
-- The stages of the function, in its order; `index` is the buffer of the block `ib`.
-- `nr_blocks` is `i_blocks - 1`; for an inode without blocks that is -1, and every test on it below
-- is written with `i_blocks` instead. Shifts of signed numbers wrap, as the kernel is compiled.
pub mod Alloc
pub mod Fill
pub mod Insert
pub mod Outcome
pub mod Refine
pub mod Room
pub mod Run
pub mod Seek
pub mod Split
use pnl.Base.{
  ℕ, zero, suc, ◌+◌, ◌-◌, ◌*◌, ◌/◌, ◌%◌, Bool, true, false, Option, none, some, ltb, ◌==◌, ◌&&◌,
  ◌||◌, if◌then◌else◌, not,
}
use pnl.Bitmap.{get_free_block}
use pnl.Block.{get_block_number, set_block_number, get_block_size, set_block_size}
use pnl.File.Content.{entry}
use pnl.Fs.{
  Fs, M, Result, ok, err, fault, on_ok, eio, espipe, enospc, efbig, efault, set_buffer, set_inode,
  mark_buffer_dirty, mark_inode_dirty, block_size, max_block_size, max_filesize,
  max_blocks_per_file,
}
use pnl.Kernel.{BitmapApi, DeviceApi}
use pnl.Memory.{Bytes, store32, memmove, memset}

-- CEIL(a, b)
abbrev pub ceil : ℕ → ℕ → ℕ
ceil a b = a / b + (if a % b == 0 then 0 else 1)

-- The loop that looks for the block of the offset, with `k` rounds left: `block_jump` and `byte_jump`,
-- or `none` if it sets neither. `cur_len` is negative for an offset behind the last block; the
-- position in the block is then beyond the bytes in use.
unfoldable pub write_seek : Bytes → (offset nr_blocks k i nr_jumped_bytes : ℕ) → Option (ℕ × ℕ)
write_seek index offset nr_blocks zero i nr_jumped_bytes = none
write_seek index offset nr_blocks (suc k) i nr_jumped_bytes =
    let cur_block_size = get_block_size (entry index i) in
    let jumped = nr_jumped_bytes + cur_block_size in
    let rest = write_seek index offset nr_blocks k (i + 1) jumped in
    if ltb jumped offset && not (i == nr_blocks - 1)
    then rest
    else some (i, cur_block_size + offset - jumped)

-- The variables of the function that are set once.
pub record Plan : Type 0 where
  pub ino : ℕ
  pub ib : ℕ
  pub i_blocks : ℕ
  pub not_a_new_file : Bool
  pub block_jump : ℕ
  pub byte_jump : ℕ
  pub len : ℕ
  pub nr_blocks_to_allocate : ℕ

-- The shift: the `k` entries above `block_jump`, the last one first, move up by `n`.
unfoldable pub shift : (n block_jump k : ℕ) → Bytes → Bytes
shift n block_jump zero index = index
shift n block_jump (suc k) index =
    let j = block_jump + suc k in shift n block_jump k (store32 index (4 * (j + n)) (entry index j))

-- `set_block_size(&(index->blocks[i]), size)` and the like
abbrev pub set_entry_size : Bytes → ℕ → ℕ → Bytes
set_entry_size index i size = store32 index (4 * i) (set_block_size (entry index i) size)

abbrev pub set_entry_number : Bytes → ℕ → ℕ → Bytes
set_entry_number index i bno = store32 index (4 * i) (set_block_number (entry index i) bno)

module _ ⦃api : BitmapApi⦄ ⦃dev : DeviceApi⦄ where
  open dev use {bread_ok, current_time, copy_from_user}

  -- The loop that allocates, at the entry `i` with `k` blocks left. The result is the last entry and
  -- the last block allocated, `index_last_buf_alloc` and the block of `buf_alloc`.
  unfoldable pub alloc_blocks : (ib k i : ℕ) → (ℕ × ℕ) → M (ℕ × ℕ)
  alloc_blocks ib zero i last fs = (ok last, fs)
  alloc_blocks ib (suc k) i last fs =
      let taken = get_free_block fs.sbi in
      let index = fs.buffer ib in
      let numbered =
        set_buffer (record fs { sbi = taken.1 }) ib
          (set_entry_size (set_entry_number index i taken.0) i 0) in
      let rest = alloc_blocks ib k (i + 1) (i, taken.0) numbered in
      if taken.0 == 0
      then (err enospc, record fs { sbi = taken.1 })
      else if not (bread_ok taken.0)
      then (err enospc, numbered)
      else rest

  -- The memcpy: the part of the block behind the offset goes to the last block allocated. The result
  -- is the block of `buf_offset`. A negative length is a copy out of bounds.
  unfoldable pub split_block : Plan → (ℕ × ℕ) → M ℕ
  split_block p (last_entry, last_block) fs =
      let index = fs.buffer p.ib in
      let from = get_block_number (entry index (if p.not_a_new_file then p.block_jump else 0)) in
      let copied = set_buffer fs last_block (
        memmove (fs.buffer last_block) 0 (fs.buffer from) p.byte_jump
          (max_block_size - p.byte_jump)) in
      let tmp_block_size = get_block_size (entry (copied.buffer p.ib) p.block_jump) in
      let first = set_entry_size (copied.buffer p.ib) p.block_jump p.byte_jump in
      let sized = set_entry_size first last_entry (tmp_block_size - p.byte_jump) in
      if not (bread_ok from)
      then (err enospc, fs)
      else if not p.not_a_new_file
      then (ok from, fs)
      else if ltb max_block_size p.byte_jump
      then (fault, fs)
      else (ok from, set_buffer copied p.ib sized)

  -- The memset: padding behind a write that fits one block.
  unfoldable pub pad_block : Plan → (last_block from : ℕ) → Fs → Fs
  pad_block p last_block from fs =
      let to = p.byte_jump + p.len in
      mark_buffer_dirty
        (if ltb to max_block_size
          then set_buffer fs from
              (memset (fs.buffer from) to 0 (max_block_size - p.byte_jump - p.len))
          else fs)
        last_block

  -- The loop that writes, at the entry `i` with `k` rounds behind this one. The result is
  -- `write_bytes`. A copy out of the bounds of the buffer, or of a negative length, is a fault.
  unfoldable pub write_blocks : Plan → (k i byte_jump left_to_write space write_bytes : ℕ) → M ℕ
  write_blocks p zero i byte_jump left_to_write space write_bytes fs = (ok write_bytes, fs)
  write_blocks p (suc k) i byte_jump left_to_write space write_bytes fs =
      let cur_block_number = get_block_number (entry (fs.buffer p.ib) i) in
      let is_last = (k == 0) || (p.i_blocks == 2) in
      let n = if is_last then left_to_write else max_block_size - byte_jump in
      let copied = copy_from_user (fs.buffer cur_block_number) byte_jump fs.user space n in
      let filled = set_buffer fs cur_block_number copied.1 in
      let index = filled.buffer p.ib in
      let size =
        if is_last then get_block_size (entry index i) + left_to_write else max_block_size in
      let sized = set_buffer filled p.ib (set_entry_size index i size) in
      let rest =
        write_blocks p k (i + 1) (if i == p.block_jump then 0 else byte_jump) (left_to_write - n)
          (space + n) (write_bytes + n) (mark_buffer_dirty sized cur_block_number) in
      if left_to_write == 0
      then (ok write_bytes, fs)
      else if not (bread_ok cur_block_number)
      then (err eio, fs)
      else if ltb block_size (byte_jump + n) || (not is_last && ltb max_block_size byte_jump)
      then (fault, fs)
      else if not (copied.0 == 0)
      then (err efault, filled)
      else rest

  -- The metadata at the end. `empty_space` is counted from the size that the inode had at the start.
  unfoldable pub finish_write : Plan → (offset last_block write_bytes : ℕ) → M (ℕ × ℕ)
  finish_write p offset last_block write_bytes fs =
      let inode = fs.inode p.ino in
      let empty_space = offset - inode.i_size in
      (
        ok (write_bytes, offset + write_bytes),
        mark_inode_dirty
            (set_inode (mark_buffer_dirty fs last_block) p.ino (record inode {
              i_size = inode.i_size + write_bytes + empty_space;
              i_ctime = current_time;
              i_mtime = current_time;
            }))
            p.ino,
      )

  -- From the shift on.
  unfoldable pub run_plan : Plan → (space offset : ℕ) → M (ℕ × ℕ)
  run_plan p space offset fs =
      let n = p.nr_blocks_to_allocate in
      let shifted =
        set_buffer fs p.ib
          (shift n p.block_jump (p.i_blocks - 2 - p.block_jump) (fs.buffer p.ib)) in
      let first = p.block_jump + (if p.not_a_new_file then 1 else 0) in
      on_ok (alloc_blocks p.ib n first (0, 0) shifted) λ last fs1.
        let inode = fs1.inode p.ino in
        let counted = set_inode fs1 p.ino (record inode { i_blocks = inode.i_blocks + n }) in
        on_ok (split_block p last counted) λ from fs2.
          on_ok
            (write_blocks p n p.block_jump p.byte_jump p.len space 0 (pad_block p last.1 from fs2))
            (finish_write p offset last.1)

  -- With the outcome of the search; `nr_blocks_to_allocate` is cut so that the file has at most 1024
  -- blocks. An inode that has more already gives a negative number, which is compared as unsigned.
  unfoldable pub plan_write : (ino space len offset : ℕ) → (ℕ × ℕ) → M (ℕ × ℕ)
  plan_write ino space len offset (block_jump, byte_jump) fs =
      let inode = fs.inode ino in
      let wanted = ceil (byte_jump + len) max_block_size in
      let limit = max_blocks_per_file + 1 in
      let n = if ltb limit (inode.i_blocks + wanted) then limit - inode.i_blocks else wanted in
      let p : Plan = record {
        ino = ino;
        ib = inode.index_block;
        i_blocks = inode.i_blocks;
        not_a_new_file = ltb 0 inode.i_size;
        block_jump = block_jump;
        byte_jump = byte_jump;
        len = len;
        nr_blocks_to_allocate = n;
      } in
      if ltb limit inode.i_blocks
      then (err enospc, fs)
      else if n == 0
      then (err efbig, fs)
      else if ltb fs.sbi.nr_free_blocks n
      then (err enospc, fs)
      else run_plan p space offset fs

  -- `junk` is what `block_jump` and `byte_jump` hold before the search sets them.
  unfoldable pub ouichefs_write : (junk : ℕ × ℕ) → (ino space len offset : ℕ) → M (ℕ × ℕ)
  ouichefs_write junk ino space len offset fs =
      let inode = fs.inode ino in
      let nr_blocks = inode.i_blocks - 1 in
      let found = write_seek (fs.buffer inode.index_block) offset nr_blocks nr_blocks 0 0 in
      if len == 0
      then (ok (0, offset), fs)
      else if ltb (max_filesize - 1024) offset
      then (err espipe, fs)
      else if ltb (max_filesize - 1024) (offset + len)
      then (err enospc, fs)
      else if not (bread_ok inode.index_block)
      then (err eio, fs)
      else plan_write ino space len offset (elim found [ none ↦ junk | some found ↦ found ]) fs
