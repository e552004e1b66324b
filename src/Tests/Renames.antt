-- ===== src/Tests/Renames.antt =====
-- The theorems on `ouichefs_rename` and on the bitmap blocks, applied to a small machine with a second,
-- empty directory.
use pnl.Base.{
  ℕ, ◌+◌, ◌*◌, ◌/◌, ◌%◌, ◌<◌, ◌≡◌, refl, false, some, arith, List, [], ◌∷◌, ◌==◌, if◌then◌else◌,
}
use pnl.Dir.{find_name, name_at, same_name, sub_inode}
use pnl.Dir.Layout.{Compact, Entries}
use pnl.Fs.{Fs, ok, fault, filename_len}
use pnl.Inode.Rename.{ouichefs_rename}
use pnl.Inode.Rename.Moves.{Movable, rename-moves, rename-overruns}
use pnl.Memory.{Bytes, load32}
use pnl.Super.{bytes_bitmap, read_bitmap, sync_bitmap}
use pnl.Super.RoundTrip.{read-sync}
use pnl.Tests.Machine.{device_api, string_api, vfs_api}
use pnl.Tests.Disk.{directory, file, machine, root_block, root_block-Compact, sized_index}

abbrev empty_block : Bytes
empty_block a = 0

empty_block-Compact : Compact 0 empty_block
unfolding load32
empty_block-Compact = record {
  fits = omega arith;
  used = λ i p e. absurd (omega arith);
  free = λ i p q. refl;
}

-- The entry `i` is for the inode `i + 1`.
abbrev full_block : Bytes
full_block a = if a % 32 == 0 then a / 32 + 1 else 0

full_block_lem : (i : ℕ) → sub_inode full_block i ≡ i + 1
unfolding load32
full_block_lem i = ground arith

full_block-Compact : Compact 128 full_block
full_block-Compact = record {
  fits = omega arith;
  used = λ i p e. omega (arith, full_block_lem i);
  free = λ i p q. absurd (omega arith);
}

-- Inode 1 is a directory with the block `block`, and inode 2 one with an empty block.
abbrev two_dirs : Bytes → Fs
two_dirs block = record (machine sized_index) {
  buffer = λ b. if b == 6 then block else if b == 9 then empty_block else sized_index;
  inode = λ i.
      if i == 3 then file else if i == 2 then record directory { index_block = 9 } else directory;
}

-- "a" and "b"
abbrev name_a : List ℕ
name_a = 97 ∷ []

abbrev name_b : List ℕ
name_b = 98 ∷ []

no_names : (j : ℕ) → same_name empty_block (name_at j) name_b 0 filename_len ≡ false
unfolding same_name
no_names j = refl

entry_three : sub_inode root_block 0 ≡ 3
unfolding load32
entry_three = refl

root-Movable : Movable 1 2 3 0 1 0 name_a name_b (two_dirs root_block)
root-Movable = record {
  dirs = omega arith;
  blocks = omega arith;
  old_readable = refl;
  new_readable = refl;
  new_compact = empty_block-Compact;
  room = omega arith;
  short = omega arith;
  fresh = λ j p. no_names j;
  nonzero = omega arith;
  small = omega arith;
  old_compact = root_block-Compact;
  in_range = omega arith;
  here = entry_three;
  unique = λ j p q. omega arith;
}

full-Movable : Movable 1 2 3 0 128 2 name_a name_b (two_dirs full_block)
full-Movable = record {
  dirs = omega arith;
  blocks = omega arith;
  old_readable = refl;
  new_readable = refl;
  new_compact = empty_block-Compact;
  room = omega arith;
  short = omega arith;
  fresh = λ j p. no_names j;
  nonzero = omega arith;
  small = omega arith;
  old_compact = full_block-Compact;
  in_range = omega arith;
  here = full_block_lem 2;
  unique = λ j p q. omega (arith, full_block_lem j);
}

rename-moves_example :
    let (ret, fs') = ouichefs_rename false 1 3 name_a 2 name_b (two_dirs root_block) in
    (ret ≡ ok tt)
    × (find_name (fs'.buffer 9) name_b 128 0 ≡ some 3)
    × Entries 0 1 root_block (fs'.buffer 6)
    × Compact 0 (fs'.buffer 6)
rename-moves_example =
    rename-moves 1 2 3 0 1 0 name_a name_b (two_dirs root_block) root-Movable (omega arith)

rename-overruns_example :
    let (ret, fs') = ouichefs_rename false 1 3 name_a 2 name_b (two_dirs full_block) in
    (ret ≡ fault) × (find_name (fs'.buffer 9) name_b 128 0 ≡ some 3) × (fs'.buffer 6 ≡ full_block)
rename-overruns_example =
    rename-overruns 1 2 3 0 128 2 name_a name_b (two_dirs full_block) full-Movable refl

read-sync_example :
    let fs = machine sized_index in
    ((sync_bitmap fs.sbi.bfree_bitmap 3 1 0 fs).0 ≡ ok tt)
    × ((bytes : Bytes) × (read_bitmap
            (sync_bitmap fs.sbi.bfree_bitmap 3 1 0 fs).1.buffer
            3
            1
            0
            (λ a. 0)
          ≡ some bytes)
        × ((i : ℕ) → i < 1 * 32768 → bytes_bitmap bytes i ≡ fs.sbi.bfree_bitmap i))
read-sync_example =
    read-sync (machine sized_index).sbi.bfree_bitmap 3 1 (machine sized_index) (λ b. refl)
