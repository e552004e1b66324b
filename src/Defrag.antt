-- ===== src/Defrag.antt =====
-- project/projet_PNL/defrag.c: moving the bytes of a file to the front of its blocks.
-- `nr_blocks` is `i_blocks - 1`; for an inode without blocks no loop runs, as with -1. The buffers of
-- the blocks are released in the code by `brelse`; their reference counts are not modelled.
pub mod Compact
pub mod Entry
pub mod Fill
pub mod Gaps
pub mod Live
pub mod Loops
pub mod Move
pub mod Packed
pub mod Rounds
pub mod Step
use pnl.Base.{
  ℕ, zero, suc, ◌+◌, ◌-◌, ◌*◌, min, Bool, true, false, ◌&&◌, Option, none, some, ltb, leb, ◌==◌,
  ◌||◌, if◌then◌else◌, not,
}
use pnl.Bitmap.{get_free_block, put_block}
use pnl.Block.{get_block_number, set_block_number, get_block_size, set_block_size}
use pnl.File.Content.{entry}
use pnl.File.Write.{set_entry_size, set_entry_number}
use pnl.Fs.{
  Fs, M, Result, ok, err, fault, on_ok, ebadf, enotty, set_buffer, set_inode, mark_buffer_dirty,
  mark_inode_dirty, max_block_size,
}
use pnl.Kernel.{BitmapApi, DeviceApi}
use pnl.Memory.{Bytes, store32, memmove}

-- How the function goes on: to the next round, or to a label that releases what was read and returns.
pub data Next (A : Type 0) : Type 0 where
  go : A → Next A
  stop : Next A
  out_of_fuel : Next A

-- The outcome of the search for a nonempty entry: `last` is the jump to `metadata`, and `outside` a
-- read past the end of the index block.
pub data Search : Type 0 where
  used : ℕ → Search
  last : Search
  outside : Search

abbrev pub clear_entry : Fs → ℕ → ℕ → Fs
clear_entry fs ib j = set_buffer fs ib (store32 (fs.buffer ib) (4 * j) 0)

-- The `while` loop of the search, at the entry `j` with `k` entries left in the index block.
unfoldable pub next_used : Bytes → (nr_blocks k j : ℕ) → Search
next_used index nr_blocks zero j = outside
next_used index nr_blocks (suc k) j =
    let rest = next_used index nr_blocks k (j + 1) in
    if not (get_block_size (entry index j) == 0)
    then used j
    else if j + 1 == nr_blocks - 1
    then last
    else rest

-- Whether an entry with bytes is among the `k` from the entry `j` on.
unfoldable pub reads_from : Bytes → (k j : ℕ) → Bool
reads_from index zero j = false
reads_from index (suc k) j =
    let rest = reads_from index k (j + 1) in
    if get_block_size (entry index j) == 0 then rest else true

-- Whether the first loop sets `bh_j`, from the entry `i` on with `k` entries left: the first entry with
-- room starts the inner loop, which reads the first entry with bytes behind it, or finds none and goes
-- to the end.
unfoldable pub sets_bh_j : Bytes → (k i : ℕ) → Bool
sets_bh_j index zero i = false
sets_bh_j index (suc k) i =
    let rest = sets_bh_j index k (i + 1) in
    if max_block_size - get_block_size (entry index i) == 0
    then rest
    else reads_from index k (i + 1)

module _ ⦃api : BitmapApi⦄ where
  -- The entry `j` moves to the entry `i`. The code then gives back the block whose number is the
  -- size in the entry.
  unfoldable pub close_gap : (ib i j : ℕ) → Fs → Fs
  close_gap ib i j fs =
      let placed = store32 (fs.buffer ib) (4 * i) (entry (fs.buffer ib) j) in
      set_buffer (record fs { sbi = put_block fs.sbi (get_block_size (entry placed j)) }) ib
        (store32 placed (4 * j) 0)

  -- The last loop, at the entry `i` with `k` rounds left, which closes the gaps in the index block.
  -- The result says whether the loop ran to its end or jumped to `metadata`.
  unfoldable pub close_gaps : (ib nr_blocks k i : ℕ) → M Bool
  close_gaps ib nr_blocks zero i fs = (ok true, fs)
  close_gaps ib nr_blocks (suc k) i fs =
      let index = fs.buffer ib in
      let skipped = close_gaps ib nr_blocks k (i + 1) fs in
      let closed = λ (j : ℕ). close_gaps ib nr_blocks k (i + 1) (close_gap ib i j fs) in
      if not (get_block_size (entry index i) == 0)
      then skipped
      else elim (next_used index nr_blocks (1024 - i) i) [
        | used j ↦ closed j
        | last ↦ (ok false, fs)
        | outside ↦ (fault, fs)
      ]

module _ ⦃api : BitmapApi⦄ ⦃dev : DeviceApi⦄ where
  open dev use {bread_ok, current_time}

  -- The bytes of the entry `j` that fit are moved to the block of the entry `i`, and the rest goes to
  -- a new block. The result is `left_empty_bytes`, and whether `j` became empty.
  unfoldable pub move_bytes : (ib i j left_empty_bytes : ℕ) → Fs → Next (ℕ × Bool) × Fs
  move_bytes ib i j left_empty_bytes fs =
      let index = fs.buffer ib in
      let i_number = get_block_number (entry index i) in
      let j_number = get_block_number (entry index j) in
      let i_size = get_block_size (entry index i) in
      let j_size = get_block_size (entry index j) in
      let bytes_to_move = min left_empty_bytes j_size in
      let left_bytes = j_size - bytes_to_move in
      let moved =
        set_buffer fs i_number
          (memmove (fs.buffer i_number) i_size (fs.buffer j_number) 0 bytes_to_move) in
      let grown =
        set_buffer moved ib (set_entry_size (moved.buffer ib) i (i_size + bytes_to_move)) in
      let taken = get_free_block grown.sbi in
      let copied =
        set_buffer (record grown { sbi = taken.1 }) taken.0
          (memmove (grown.buffer taken.0) 0 (grown.buffer j_number) bytes_to_move left_bytes) in
      let renumbered =
        set_buffer copied ib
          (set_entry_number (set_entry_size (copied.buffer ib) j left_bytes) j taken.0) in
      if not (bread_ok j_number)
      then (stop, fs)
      else if left_bytes == 0
      then (
        go (left_empty_bytes - bytes_to_move, true),
        clear_entry (record grown { sbi = put_block grown.sbi j_number }) ib j,
      )
      else if not (bread_ok taken.0)
      then (stop, record grown { sbi = taken.1 })
      else (
        go (left_empty_bytes - bytes_to_move, false),
        mark_buffer_dirty (record renumbered { sbi = put_block renumbered.sbi j_number }) taken.0,
      )

  -- The inner loop, at the entry `j` with `k` rounds left. The result is the final `j` and the number
  -- of blocks removed.
  unfoldable pub fill_entry : (ib i k j left_empty_bytes removed : ℕ) → Fs → Next (ℕ × ℕ) × Fs
  fill_entry ib i zero j left_empty_bytes removed fs = (go (j, removed), fs)
  fill_entry ib i (suc k) j left_empty_bytes removed fs =
      let word = entry (fs.buffer ib) j in
      let dropped =
        fill_entry ib i k (j + 1) left_empty_bytes (removed + 1)
          (clear_entry (record fs { sbi = put_block fs.sbi (get_block_number word) }) ib j) in
      let moved = move_bytes ib i j left_empty_bytes fs in
      let next = λ (left : ℕ) (emptied : Bool).
        let more =
          fill_entry ib i k (j + 1) left (if emptied then removed + 1 else removed) moved.1 in
        if not emptied && (get_block_size (entry (moved.1.buffer ib) i) == max_block_size)
        then (go (j, removed), moved.1)
        else more in
      if get_block_size word == 0 then dropped else elim moved.0 [
        | go (left, emptied) ↦ next left emptied
        | stop ↦ (stop, moved.1)
        | out_of_fuel ↦ (out_of_fuel, moved.1)
      ]

  -- The outer loop, at the entry `i`, with fuel. The result is the number of blocks removed.
  unfoldable pub compact_from : (fuel ib nr_blocks i removed : ℕ) → Fs → Next ℕ × Fs
  compact_from zero ib nr_blocks i removed fs = (out_of_fuel, fs)
  compact_from (suc fuel) ib nr_blocks i removed fs =
      let word = entry (fs.buffer ib) i in
      let full = compact_from fuel ib nr_blocks (i + 1) removed fs in
      let filled =
        fill_entry ib i (nr_blocks - (i + 1)) (i + 1) (max_block_size - get_block_size word) removed
          fs in
      let next = λ (j r : ℕ).
        compact_from fuel ib nr_blocks j r (mark_buffer_dirty filled.1 (get_block_number word)) in
      if leb nr_blocks i
      then (go removed, fs)
      else if max_block_size - get_block_size word == 0
      then full
      else if not (bread_ok (get_block_number word))
      then (stop, fs)
      else elim filled.0 [
        | go (j, r) ↦ next j r
        | stop ↦ (stop, filled.1)
        | out_of_fuel ↦ (out_of_fuel, filled.1)
      ]

  -- The metadata between the two loops.
  unfoldable pub count_removed : (ino removed : ℕ) → Fs → Fs
  count_removed ino removed fs =
      let inode = fs.inode ino in
      mark_inode_dirty
        (set_inode (mark_buffer_dirty fs inode.index_block) ino
          (record inode { i_blocks = inode.i_blocks - removed }))
        ino

  -- Behind the last loop: `release_bh_j`, which uses `bh_j` also when it was never set, or
  -- `metadata`, which alone sets the time.
  unfoldable pub end_defrag :
      (bh_j_set : Bool) (ino : ℕ) → Result Bool × Fs → Result (Unit {0}) × Fs
  end_defrag bh_j_set ino (ok true, fs) = ((if bh_j_set then ok tt else fault), fs)
  end_defrag bh_j_set ino (ok false, fs) =
      (ok tt, set_inode fs ino (record (fs.inode ino) { i_mtime = current_time }))
  end_defrag bh_j_set ino (err e, fs) = (err e, fs)
  end_defrag bh_j_set ino (fault, fs) = (fault, fs)

  -- With the outcome of the first loop. The function returns nothing, also where it gave up.
  unfoldable pub after_compact :
      (bh_j_set : Bool) (ino ib nr_blocks : ℕ) → Next ℕ × Fs → Result (Unit {0}) × Fs
  after_compact bh_j_set ino ib nr_blocks (go removed, fs) =
      end_defrag bh_j_set ino (close_gaps ib nr_blocks nr_blocks 0 (count_removed ino removed fs))
  after_compact bh_j_set ino ib nr_blocks (stop, fs) = (ok tt, fs)
  after_compact bh_j_set ino ib nr_blocks (out_of_fuel, fs) = (fault, fs)

  unfoldable pub defrag : (ino : ℕ) → M (Unit {0})
  defrag ino fs =
      let inode = fs.inode ino in
      let nr_blocks = inode.i_blocks - 1 in
      let bh_j_set = sets_bh_j (fs.buffer inode.index_block) nr_blocks 0 in
      if not (bread_ok inode.index_block)
      then (ok tt, fs)
      else after_compact bh_j_set ino inode.index_block nr_blocks
          (compact_from (nr_blocks + 1) inode.index_block nr_blocks 0 0 fs)

  -- `read_cmd` says whether the command is READ_CMD, and `inode_of` gives the inode behind a file
  -- descriptor. `arg` is `none` for the descriptor -1.
  unfoldable pub defrag_ioctl : (read_cmd : Bool) → (ℕ → ℕ) → (arg : Option ℕ) → M (Unit {0})
  defrag_ioctl false inode_of arg fs = (err enotty, fs)
  defrag_ioctl true inode_of none fs = (err ebadf, fs)
  defrag_ioctl true inode_of (some fd) fs = defrag (inode_of fd) fs
