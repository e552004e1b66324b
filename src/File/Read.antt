-- ===== src/File/Read.antt =====
-- `ouichefs_read` of file.c.
-- `int` variables that never fall below 0 are natural numbers; `nr_blocks`, which is -1 for an inode
-- without blocks, is then 0, and the loops over it run no round either way.
pub mod Correct
use pnl.Base.{
  ℕ, zero, suc, ◌+◌, ◌-◌, ◌≤◌, ◌<◌, ◌≡◌, Option, none, some, true, false, min, ltb, leb, ◌==◌, ◌||◌,
  if◌then◌else◌, not,
}
use pnl.Block.{get_block_number, get_block_size}
use pnl.Fs.{Fs, M, Result, ok, err, fault, eio, espipe, efault, set_inode, max_filesize}
use pnl.Kernel.{DeviceApi}
use pnl.Memory.{Bytes}
use pnl.File.Content.{entry}

-- The loop that looks for the block of the offset: `k` rounds are left, and `nr_jumped_bytes` bytes
-- lie before the entry `i`. The result is the final `i` and `cur_jump`, or `none` if no block
-- was found; then `cur_jump` and `cur_bh` are never set.
unfoldable pub seek : Bytes → ℕ → ℕ → ℕ → ℕ → Option (ℕ × ℕ)
seek index offset zero i nr_jumped_bytes = none
seek index offset (suc k) i nr_jumped_bytes =
    let cur_block_size = get_block_size (entry index i) in
    let jumped = nr_jumped_bytes + cur_block_size in
    let cur_len = jumped - offset in
    if ltb jumped offset
    then seek index offset k (i + 1) jumped
    else some (i, cur_block_size - cur_len)

module _ ⦃dev : DeviceApi⦄ where
  open dev use {bread_ok, current_time, copy_to_user}

  -- The loop that copies, at the entry `j` with `k` rounds left; `i` is the entry of its first round.
  -- The result is `read_bytes`, with the user's memory.
  unfoldable pub copy_blocks :
      (ℕ → Bytes)
      → Bytes
      → ℕ
      → (k j cur_jump left_to_read space read_bytes : ℕ) → Bytes
      → Result ℕ × Bytes
  copy_blocks buffer index i zero j cur_jump left_to_read space read_bytes user =
      (ok read_bytes, user)
  copy_blocks buffer index i (suc k) j cur_jump left_to_read space read_bytes user =
      let cur_block_number = get_block_number (entry index j) in
      let cur_block_size = get_block_size (entry index j) in
      let bytes_to_read = min left_to_read (cur_block_size - cur_jump) in
      let copied = copy_to_user user space (buffer cur_block_number) cur_jump bytes_to_read in
      let rest =
        copy_blocks buffer index i k (j + 1) (if i == j then 0 else cur_jump)
          (left_to_read - bytes_to_read) (space + bytes_to_read) (read_bytes + bytes_to_read)
          copied.1 in
      if left_to_read == 0
      then (ok read_bytes, user)
      else if not (bread_ok cur_block_number)
      then (err eio, user)
      else if not (copied.0 == 0)
      then (err efault, copied.1)
      else rest

  -- The part behind the read of the index block. The result is `read_bytes` and the new `*offset`.
  unfoldable pub read_index : (ino space len offset : ℕ) → M (ℕ × ℕ)
  read_index ino space len offset fs =
      let inode = fs.inode ino in
      let index = fs.buffer inode.index_block in
      let nr_blocks = inode.i_blocks - 1 in
      let left_to_read = min len inode.i_size in
      elim (seek index offset nr_blocks 0 0) [
        | none ↦ (fault, fs)
        | some (i, cur_jump) ↦
            let copied =
              copy_blocks fs.buffer index i (nr_blocks - i) i cur_jump left_to_read space 0
                fs.user in
            elim copied.0 [
              | ok read_bytes ↦ (
                ok (read_bytes, offset + read_bytes),
                set_inode (record fs { user = copied.1 }) ino
                    (record inode { i_atime = current_time }),
              )
              | err e ↦ (err e, record fs { user = copied.1 })
              | fault ↦ (fault, record fs { user = copied.1 })
            ]
      ]

  -- `file->f_inode` is the inode `ino`.
  unfoldable pub ouichefs_read : (ino space len offset : ℕ) → M (ℕ × ℕ)
  ouichefs_read ino space len offset fs =
      let inode = fs.inode ino in
      if len == 0
      then (ok (0, offset), fs)
      else if ltb (max_filesize - 1024) offset
      then (err espipe, fs)
      else if leb inode.i_size offset || (inode.i_size == 0)
      then (err espipe, fs)
      else if not (bread_ok inode.index_block)
      then (err eio, fs)
      else read_index ino space len offset fs
