-- ===== src/Tests/Handlers.antt =====
-- The theorems on the handlers, applied to a small machine.
use pnl.Base.{
  max, ◌/◌, ◌-◌, ℕ, ◌+◌, ◌-◌, ◌≤◌, ◌<◌, ◌≡◌, ◌≢◌, ◌⊎◌, refl, true, false, some, arith, within,
  if◌then◌else◌, ◌==◌, update,
}
use pnl.Bitmap.{put_block, put_inode}
use pnl.Bitmap.Consistent.{IsConsistent}
use pnl.Block.{get_block_size}
use pnl.Defrag.{compact_from, out_of_fuel, close_gaps}
use pnl.Defrag.Loops.{compact_from-total, close_gaps-faults}
use pnl.Dir.{sub_inode}
use pnl.File.Content.{entry, total_size, byte_at}
use pnl.File.Map.{file_get_block}
use pnl.File.Map.Laws.{Mapped, file_get_block_lem}
use pnl.File.Open.{ouichefs_open}
use pnl.File.Open.Laws.{Cleared, Owned}
use pnl.File.Open.Truncate.{emptied, open-truncates, open-loses_sized_blocks}
use pnl.File.Page.{write_begin, write_end}
use pnl.File.Page.Laws.{write_begin_lem, write_end-frees_superblock}
use pnl.File.Read.{ouichefs_read}
use pnl.File.Read.Correct.{Works, ouichefs_read_lem}
use pnl.File.Write.{alloc_blocks}
use pnl.File.Write.Alloc.{Allocated, alloc_blocks_lem}
use pnl.Fs.{Fs, ok, err, fault, enospc, set_inode, max_filesize}
use pnl.Inode.Create.{new_inode}
use pnl.Inode.Create.Atomic.{TakenOrNot, new_inode_lem}
use pnl.Inode.RoundTrip.{iget-write_inode, write_inode-keeps}
use pnl.Inode.Store.{inode_block, inode_offset, load_inode, ouichefs_iget, ouichefs_write_inode}
use pnl.Inode.Unlink.{ouichefs_unlink}
use pnl.Inode.Unlink.Leaks.{Listed, left_dir, unlink-faults, unlink-leaks}
use pnl.Memory.{Bytes, load32}
use pnl.Superblock.{SbInfo}
use pnl.Tests.Machine.{bitmap_api, device_api, small_device, vfs_api, page_api}
use pnl.Tests.Disk.{
  disk, disk-IsConsistent, file, file-Fits, sized_index, plain_index, root_block,
  root_block-Compact, machine, machine_with,
}

always_Works : Works 100
always_Works = record { reads = λ b. refl; writes = λ user to buf from n h. refl }

abbrev sized : Fs
sized = machine sized_index

abbrev plain : Fs
plain = machine plain_index

five_bytes : file.i_size ≡ total_size sized_index 2 0
unfolding total_size get_block_size load32
five_bytes = refl

ouichefs_read_lem_example :
    let (ret, fs') = ouichefs_read 3 100 10 1 sized in
    (ret ≡ ok (4, 5))
    × ((a : ℕ)
        → fs'.user a
          ≡ (if within 100 4 a then byte_at sized.buffer sized_index 2 0 (1 + (a - 100)) else 0))
    × (record fs' { user = sized.user }
        ≡ set_inode sized 3 (record file { i_atime = device_api.current_time }))
ouichefs_read_lem_example =
    ouichefs_read_lem 3 100 10 1 sized always_Works five_bytes (omega arith) (omega arith)
      (omega arith)

hole_two : entry plain_index 2 ≡ 0
unfolding load32
hole_two = refl

file_get_block_lem_example :
    (file_get_block 3 2 true plain ≡ (err enospc, plain))
      × ((i : ℕ) → i < 20 → disk.bfree_bitmap i ≡ false)
    ⊎ ((bno : ℕ) × ((file_get_block 3 2 true plain).0 ≡ ok (some bno))
        × Mapped 3 2 plain bno (file_get_block 3 2 true plain).1)
file_get_block_lem_example =
    file_get_block_lem 3 2 plain disk-IsConsistent (omega arith) refl hole_two

plain-Owned : Owned disk plain_index 0 2
unfolding load32
plain-Owned = record {
  in_range = λ j p q. ground arith;
  nonzero = λ j p q e. ground arith;
  in_use = λ j p q. ground arith;
  distinct = λ i j p q r e. ground arith;
}

open-truncates_example :
    (sbi' : SbInfo) × (index' : Bytes) × (ouichefs_open true false true 3 plain
      ≡ (ok tt, emptied 3 plain sbi' index'))
    × IsConsistent sbi'
    × (sbi'.nr_free_blocks ≡ 10 + 2)
    × ((j : ℕ) → j < 2 → sbi'.bfree_bitmap (entry plain_index j) ≡ true)
    × ((b : ℕ) → disk.bfree_bitmap b ≡ true → sbi'.bfree_bitmap b ≡ true)
    × Cleared 0 2 plain_index index'
open-truncates_example =
    open-truncates true false 3 2 plain refl (omega arith) refl (omega arith) disk-IsConsistent
      plain-Owned hole_two

hole_sized : entry sized_index 2 ≡ 0
unfolding load32
hole_sized = refl

entry_lem :
    (j : ℕ)
    → entry sized_index j ≡ (if j == 0 then 0x00300007 else if j == 1 then 0x00200008 else 0)
unfolding load32
entry_lem j = ground arith

size_of_first : get_block_size 0x00300007 ≡ 3
unfolding get_block_size
size_of_first = refl

size_of_second : get_block_size 0x00200008 ≡ 2
unfolding get_block_size
size_of_second = refl

size_of_none : get_block_size 0 ≡ 0
unfolding get_block_size
size_of_none = refl

entries_sized : (j : ℕ) → j < 2 → get_block_size (entry sized_index j) ≢ 0
entries_sized j p e = ground (arith, entry_lem j, size_of_first, size_of_second)

open-loses_sized_blocks_example :
    (index' : Bytes) × (ouichefs_open true false true 3 sized
      ≡ (ok tt, emptied 3 sized disk index'))
    × Cleared 0 2 sized_index index'
open-loses_sized_blocks_example =
    open-loses_sized_blocks true false 3 2 sized refl (omega arith) refl (omega arith) (omega arith)
      entries_sized hole_sized

write_begin_lem_example :
    let whole = max (5 + 10) (plain.inode 3).i_size / 4096 in
    (max_filesize < 5 + 10 → write_begin page_api 3 5 10 plain ≡ (err enospc, plain))
    × (((plain.inode 3).i_blocks - 1) + plain.sbi.nr_free_blocks < whole
        → write_begin page_api 3 5 10 plain ≡ (err enospc, plain))
    × (5 + 10 ≤ max_filesize
        → whole ≤ ((plain.inode 3).i_blocks - 1) + plain.sbi.nr_free_blocks
        → write_begin page_api 3 5 10 plain ≡ (ok tt, plain))
write_begin_lem_example =
    write_begin_lem page_api 3 5 10 plain (omega arith) (omega arith) (omega arith)

-- A file that counts 4 data blocks and has one.
abbrev shrunk : Fs
shrunk = machine_with sized_index (record file { i_blocks = 5; i_size = 5000 })

write_end-frees_superblock_example : (write_end page_api 3 0 5 5 shrunk).1.sbi.bfree_bitmap 0 ≡ true
write_end-frees_superblock_example =
    write_end-frees_superblock page_api 3 0 5 5 shrunk (omega arith) (omega arith)
      (λ i size s. refl) refl hole_sized

new_inode_lem_example : TakenOrNot disk (new_inode 1 2 sized)
new_inode_lem_example = new_inode_lem 1 2 sized disk-IsConsistent

iget-write_inode_example :
    let written = (ouichefs_write_inode 3 sized).1 in
    let evicted = record written { cached = update sized.cached 3 false } in
    ((ouichefs_write_inode 3 sized).0 ≡ ok tt)
    × (ouichefs_iget 3 evicted
        ≡ (ok 3, record written { cached = update (update sized.cached 3 false) 3 true }))
iget-write_inode_example = iget-write_inode 3 sized (omega arith) refl refl file-Fits

write_inode-keeps_example :
    let fs' = (ouichefs_write_inode 3 sized).1 in
    load_inode (fs'.buffer (inode_block 4)) (inode_offset 4)
    ≡ load_inode (sized.buffer (inode_block 4)) (inode_offset 4)
write_inode-keeps_example = write_inode-keeps 3 sized 4 (omega arith)

entry_three : sub_inode root_block 0 ≡ 3
unfolding load32
entry_three = refl

abbrev emptied_file : Fs
emptied_file = machine_with sized_index (record file { i_blocks = 0; i_size = 0 })

emptied-Listed : Listed 1 3 1 0 emptied_file
emptied-Listed = record {
  apart = omega arith;
  readable = refl;
  compact = root_block-Compact;
  nonzero = omega arith;
  in_range = omega arith;
  here = entry_three;
  unique = λ j p q. omega arith;
}

unlink-faults_example : ouichefs_unlink 1 3 emptied_file ≡ (fault, left_dir 1 3 1 0 emptied_file)
unlink-faults_example = unlink-faults 1 3 1 0 emptied_file emptied-Listed refl refl refl

sized-Listed : Listed ⦃dev = small_device⦄ 1 3 1 0 sized
sized-Listed = record {
  apart = omega arith;
  readable = refl;
  compact = root_block-Compact;
  nonzero = omega arith;
  in_range = omega arith;
  here = entry_three;
  unique = λ j p q. omega arith;
}

unlink-leaks_example :
    ((ouichefs_unlink ⦃dev = small_device⦄ 1 3 sized).0 ≡ ok tt)
    × ((ouichefs_unlink ⦃dev = small_device⦄ 1 3 sized).1.sbi ≡ put_inode (put_block disk 5) 3)
unlink-leaks_example =
    unlink-leaks ⦃dev = small_device⦄ 1 3 1 0 sized sized-Listed (omega arith) (omega arith) refl
      refl (omega arith) (λ b p. ground arith) (λ j p. ground (arith, entry_lem j))

compact_from-total_example : (compact_from (2 + 1) 5 2 0 0 sized).0 ≢ out_of_fuel
compact_from-total_example = compact_from-total 5 2 sized

-- The file has 3 blocks, the last of which is empty.
close_gaps-faults_example : close_gaps 5 3 3 0 sized ≡ (fault, sized)
close_gaps-faults_example =
    close_gaps-faults 5 3 sized (omega arith) (λ l p e. entries_sized l (omega arith) e)
      (λ l p. ground (arith, entry_lem l, size_of_none))

alloc_blocks_lem_example :
    (last : ℕ × ℕ) × ((alloc_blocks 5 4 2 (0, 0) sized).0 ≡ ok last)
    × (0 < 4 → last ≡ (5, entry ((alloc_blocks 5 4 2 (0, 0) sized).1.buffer 5) 5))
    × Allocated 5 4 2 sized (alloc_blocks 5 4 2 (0, 0) sized).1
alloc_blocks_lem_example =
    alloc_blocks_lem 5 4 2 (0, 0) sized disk-IsConsistent (omega arith) (omega arith) (λ b p. refl)
