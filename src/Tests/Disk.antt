-- ===== src/Tests/Disk.antt =====
-- A device of 20 blocks: the blocks from 10 on and the inodes from 5 on are free. Inode 1 is a directory
-- with the index block 6 and one entry, `a`, for inode 3, a file whose index block is 5.
use pnl.Base.{◌+◌, ◌*◌, refl, false, ◌&&◌, ltb, leb, ◌==◌, if◌then◌else◌, arith}
use pnl.Bitmap.Consistent.{IsConsistent}
use pnl.Bitmap.Count.{count}
use pnl.Dir.Layout.{Compact}
use pnl.Fs.{Fs, Inode}
use pnl.Inode.RoundTrip.{Fits}
use pnl.Kernel.{Timespec}
use pnl.Memory.{Bytes, load32}
use pnl.Superblock.{SbInfo}

abbrev pub disk : SbInfo
disk = record {
  magic = 0x48434957;
  nr_blocks = 20;
  nr_inodes = 20;
  nr_istore_blocks = 1;
  nr_ifree_blocks = 1;
  nr_bfree_blocks = 1;
  nr_free_inodes = 15;
  nr_free_blocks = 10;
  ifree_bitmap = λ i. leb 5 i && ltb i 20;
  bfree_bitmap = λ i. leb 10 i && ltb i 20;
}

pub disk-IsConsistent : IsConsistent disk
unfolding count
disk-IsConsistent = record {
  blocks_small = omega arith;
  inodes_small = omega arith;
  free_blocks = refl;
  free_inodes = refl;
  block_zero = refl;
  inode_zero = refl;
}

abbrev pub noon : Timespec
noon = record { tv_sec = 1600000000; tv_nsec = 5000000000 }

abbrev pub directory : Inode
directory = record {
  i_mode = 1;
  i_uid = 0;
  i_gid = 0;
  i_size = 4096;
  i_blocks = 1;
  i_nlink = 2;
  i_ctime = noon;
  i_atime = noon;
  i_mtime = noon;
  index_block = 6;
}

abbrev pub file : Inode
file = record directory { i_mode = 2; i_size = 5; i_blocks = 3; i_nlink = 1; index_block = 5 }

pub file-Fits : Fits file
file-Fits = record {
  i_mode = omega arith;
  i_uid = omega arith;
  i_gid = omega arith;
  i_size = omega arith;
  i_blocks = omega arith;
  i_nlink = omega arith;
  index_block = omega arith;
  ctime = omega arith;
  cnsec = omega arith;
  atime = omega arith;
  ansec = omega arith;
  mtime = omega arith;
  mnsec = omega arith;
}

-- 3 bytes in block 7, then 2 bytes in block 8
abbrev pub sized_index : Bytes
sized_index a =
    if a == 0 then 7 else if a == 2 then 48 else if a == 4 then 8 else if a == 6 then 32 else 0

-- the blocks 7 and 8 by their numbers alone
abbrev pub plain_index : Bytes
plain_index a = if a == 0 then 7 else if a == 4 then 8 else 0

abbrev pub root_block : Bytes
root_block a = if a == 0 then 3 else if a == 4 then 97 else 0

pub root_block-Compact : Compact 1 root_block
unfolding load32
root_block-Compact = record {
  fits = omega arith;
  used = λ i p e. ground arith;
  free = λ i p q. ground arith;
}

-- The machine when the file's index block is `index`.
abbrev pub machine : Bytes → Fs
machine index = record {
  sbi = disk;
  buffer = λ b. if b == 5 then index else if b == 6 then root_block else λ a. b * 10 + a;
  buffer_dirty = λ b. false;
  inode = λ i. if i == 3 then file else directory;
  cached = λ i. (i == 1);
  inode_dirty = λ i. false;
  user = λ a. 0;
}

-- The same with another inode for the file.
abbrev pub machine_with : Bytes → Inode → Fs
machine_with index inode = record (machine index) {
  inode = λ i. if i == 3 then inode else directory;
}
