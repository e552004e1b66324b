-- ===== src/Inode/Store.antt =====
-- `struct ouichefs_inode` in the inode store, `ouichefs_iget` (inode.c) and `ouichefs_write_inode`
-- (super.c). The offsets are those of the x86-64 ABI, which aligns 64-bit fields: an inode takes 80
-- bytes, and 51 of them stand in a block.
use pnl.Base.{ℕ, ◌+◌, ◌*◌, ◌/◌, ◌%◌, ◌^◌, ◌≡◌, Bool, true, leb, if◌then◌else◌, not, update}
use pnl.Fs.{Fs, Inode, M, ok, err, eio, einval, enomem, set_buffer, set_inode, mark_buffer_dirty}
use pnl.Kernel.{DeviceApi}
use pnl.Memory.{Bytes, load32, store32}

abbrev pub inode_bytes : ℕ
inode_bytes = 80

abbrev pub inodes_per_block : ℕ
inodes_per_block = 51

abbrev pub inode_block : ℕ → ℕ
inode_block ino = ino / inodes_per_block + 1

-- Where the inode begins in its block.
abbrev pub inode_offset : ℕ → ℕ
inode_offset ino = ino % inodes_per_block * inode_bytes

-- The address of the 32-bit word `i` of the inode that begins at `o`.
unfoldable pub word : ℕ → ℕ → ℕ
word o i = o + 4 * i

-- A 64-bit field takes two words, the lower half first.
abbrev pub load64 : Bytes → ℕ → ℕ → ℕ
load64 b o i = load32 b (word o i) + load32 b (word o (i + 1)) * 2 ^ 32

abbrev pub store64 : Bytes → ℕ → ℕ → ℕ → Bytes
store64 b o i v = store32 (store32 b (word o i) v) (word o (i + 1)) (v / 2 ^ 32)

-- The fields that `ouichefs_iget` copies from the disk. The words 5, 9 and 13 are padding.
unfoldable pub load_inode : Bytes → ℕ → Inode
load_inode b o = record {
  i_mode = load32 b (word o 0);
  i_uid = load32 b (word o 1);
  i_gid = load32 b (word o 2);
  i_size = load32 b (word o 3);
  i_ctime = record { tv_sec = load32 b (word o 4); tv_nsec = load64 b o 6 };
  i_atime = record { tv_sec = load32 b (word o 8); tv_nsec = load64 b o 10 };
  i_mtime = record { tv_sec = load32 b (word o 12); tv_nsec = load64 b o 14 };
  i_blocks = load32 b (word o 16);
  i_nlink = load32 b (word o 17);
  index_block = load32 b (word o 18);
}

-- The assignments of `ouichefs_write_inode`, in its order.
unfoldable pub store_inode : Bytes → ℕ → Inode → Bytes
store_inode b o i =
    let b1 = store32 b (word o 0) i.i_mode in
    let b2 = store32 b1 (word o 1) i.i_uid in
    let b3 = store32 b2 (word o 2) i.i_gid in
    let b4 = store32 b3 (word o 3) i.i_size in
    let b5 = store32 b4 (word o 4) i.i_ctime.tv_sec in
    let b6 = store64 b5 o 6 i.i_ctime.tv_nsec in
    let b7 = store32 b6 (word o 8) i.i_atime.tv_sec in
    let b8 = store64 b7 o 10 i.i_atime.tv_nsec in
    let b9 = store32 b8 (word o 12) i.i_mtime.tv_sec in
    let b10 = store64 b9 o 14 i.i_mtime.tv_nsec in
    let b11 = store32 b10 (word o 16) i.i_blocks in
    let b12 = store32 b11 (word o 17) i.i_nlink in store32 b12 (word o 18) i.index_block

-- linux/fs.h. `iget_locked` finds memory for the inode, or not; `is_dir` and `is_reg` are `S_ISDIR`
-- and `S_ISREG` of a mode, and `s_ifdir` adds the type of a directory to one.
pub record VfsApi : Type 0 where
  pub iget_ok : ℕ → Bool
  pub is_dir : ℕ → Bool
  pub is_reg : ℕ → Bool
  pub s_ifdir : ℕ → ℕ
  -- the inode, its directory, the mode
  pub inode_init_owner : Inode → Inode → ℕ → Inode
  -- the same for an inode without a directory
  pub init_owner_root : Inode → ℕ → Inode
  pub iput : ℕ → Fs → Fs
  pub not_both : (mode : ℕ) → is_dir mode ≡ true → is_reg mode ≡ true → ⊥
  -- it sets the owner, the group and the mode, and nothing else
  pub inode_init_owner_lem :
      (inode dir : Inode) (mode : ℕ)
      → record (inode_init_owner inode dir mode) {
        i_mode = inode.i_mode;
        i_uid = inode.i_uid;
        i_gid = inode.i_gid;
      }
        ≡ inode
  pub init_owner_root_lem :
      (inode : Inode) (mode : ℕ)
      → record (init_owner_root inode mode) {
        i_mode = inode.i_mode;
        i_uid = inode.i_uid;
        i_gid = inode.i_gid;
      }
        ≡ inode
  -- the inode may leave the cache, but nothing else of the file system changes
  pub iput_lem :
      (ino : ℕ) (fs : Fs) → record (iput ino fs) { inode = fs.inode; cached = fs.cached } ≡ fs

module _ ⦃dev : DeviceApi⦄ ⦃vfs : VfsApi⦄ where
  open dev use {bread_ok}
  open vfs use {iget_ok}

  -- The result is the number of the inode that is returned.
  unfoldable pub ouichefs_iget : ℕ → M ℕ
  ouichefs_iget ino fs =
      if leb fs.sbi.nr_inodes ino
      then (err einval, fs)
      else if not (iget_ok ino)
      then (err enomem, fs)
      else if fs.cached ino
      then (ok ino, fs)
      else if not (bread_ok (inode_block ino))
      then (err eio, fs)
      else (
        ok ino,
        record (set_inode fs ino (load_inode (fs.buffer (inode_block ino)) (inode_offset ino))) {
          cached = update fs.cached ino true;
        },
      )

module _ ⦃dev : DeviceApi⦄ where
  open dev use {bread_ok}

  unfoldable pub ouichefs_write_inode : ℕ → M (Unit {0})
  ouichefs_write_inode ino fs =
      if leb fs.sbi.nr_inodes ino
      then (ok tt, fs)
      else if not (bread_ok (inode_block ino))
      then (err eio, fs)
      else (
        ok tt,
        mark_buffer_dirty
            (set_buffer fs (inode_block ino)
              (store_inode (fs.buffer (inode_block ino)) (inode_offset ino) (fs.inode ino)))
            (inode_block ino),
      )
