-- ===== src/Inode/Create.antt =====
-- `ouichefs_new_inode`, `ouichefs_create` and `ouichefs_mkdir` of inode.c.
pub mod Atomic
pub mod Found
pub mod Undone
use pnl.Base.{
  ℕ, ◌+◌, ◌*◌, Bool, Option, List, ltb, ◌==◌, ◌&&◌, ◌||◌, if◌then◌else◌, not, length, inc32, update,
  true,
}
use pnl.Bitmap.{get_free_inode, get_free_block, put_inode, put_block}
use pnl.Dir.{find_slot, sub_inode, set_entry}
use pnl.Fs.{
  Fs, Inode, M, Result, ok, err, fault, on_ok, eio, einval, enospc, enametoolong, emlink,
  set_buffer, set_inode, mark_buffer_dirty, mark_inode_dirty, filename_len, block_size,
}
use pnl.Kernel.{BitmapApi, DeviceApi, StringApi}
use pnl.Memory.{Bytes, memset}
use pnl.Inode.Store.{VfsApi, ouichefs_iget}

module _ ⦃dev : DeviceApi⦄ ⦃vfs : VfsApi⦄ where
  open dev use {current_time}
  open vfs use {is_dir, is_reg, inode_init_owner}

  -- The fields of a new inode whose index block is `bno`.
  unfoldable pub init_inode : (inode dir : Inode) (mode bno : ℕ) → Inode
  init_inode inode dir mode bno =
      let owned = inode_init_owner (record inode { index_block = bno }) dir mode in
      let typed =
        if is_dir mode
        then record owned { i_blocks = 1; i_size = block_size; i_nlink = 2 }
        else if is_reg mode
        then record owned { i_blocks = 1; i_size = 0; i_nlink = 1 }
        else record owned { i_blocks = 1 } in
      record typed { i_ctime = current_time; i_atime = current_time; i_mtime = current_time }

module _ ⦃api : BitmapApi⦄ ⦃dev : DeviceApi⦄ ⦃vfs : VfsApi⦄ where
  open dev use {bread_ok, current_time}
  open vfs use {is_dir, is_reg, iput}

  -- From the allocation of the index block on; `ino` was taken and is in memory.
  unfoldable pub fill_inode : (dir mode ino : ℕ) → M ℕ
  fill_inode dir mode ino fs =
      let taken = get_free_block fs.sbi in
      let dropped = iput ino (record fs { sbi = taken.1 }) in
      if taken.0 == 0 then (err enospc, record dropped { sbi = put_inode dropped.sbi ino }) else (
        ok ino,
        set_inode (record fs { sbi = taken.1 }) ino
            (init_inode (fs.inode ino) (fs.inode dir) mode taken.0),
      )

  -- With what `ouichefs_iget` returned for the inode that was taken.
  unfoldable pub got_inode : (dir mode ino : ℕ) → Result ℕ × Fs → Result ℕ × Fs
  got_inode dir mode ino (ok i, fs) = fill_inode dir mode ino fs
  got_inode dir mode ino (err e, fs) = (err e, record fs { sbi = put_inode fs.sbi ino })
  got_inode dir mode ino (fault, fs) = (fault, fs)

  -- The result is the number of the new inode.
  unfoldable pub new_inode : (dir mode : ℕ) → M ℕ
  new_inode dir mode fs =
      let taken = get_free_inode fs.sbi in
      if not (is_dir mode) && not (is_reg mode)
      then (err einval, fs)
      else if (fs.sbi.nr_free_inodes == 0) || (fs.sbi.nr_free_blocks == 0)
      then (err enospc, fs)
      else if taken.0 == 0
      then (err enospc, record fs { sbi = taken.1 })
      else got_inode dir mode taken.0 (ouichefs_iget taken.0 (record fs { sbi = taken.1 }))

  module _ ⦃str : StringApi⦄ where
    -- The new inode is entered into the directory, whose times and link count are updated.
    unfoldable pub enter_inode : (dir mode ino : ℕ) → List ℕ → Fs → Fs
    enter_inode dir mode ino name fs =
        let block = (fs.inode dir).index_block in
        let dblock = fs.buffer block in
        let entered =
          mark_buffer_dirty
            (set_buffer fs block (set_entry dblock (find_slot dblock 128 0) ino name)) block in
        let parent = record (fs.inode dir) {
          i_mtime = current_time;
          i_atime = current_time;
          i_ctime = current_time;
          i_nlink = (if is_dir mode then inc32 (fs.inode dir).i_nlink else (fs.inode dir).i_nlink);
        } in
        mark_inode_dirty (set_inode (mark_inode_dirty entered ino) dir parent) dir

    -- From the scrubbing of the new inode's index block on.
    unfoldable pub scrub_and_enter : (dir mode : ℕ) → List ℕ → ℕ → M (Unit {0})
    scrub_and_enter dir mode name ino fs =
        let index_block = (fs.inode ino).index_block in
        let returned = record fs { sbi = put_inode (put_block fs.sbi index_block) ino } in
        let scrubbed =
          mark_buffer_dirty
            (set_buffer fs index_block (memset (fs.buffer index_block) 0 0 block_size))
            index_block in
        if not (bread_ok index_block)
        then (err eio, iput ino returned)
        else (ok tt, enter_inode dir mode ino name scrubbed)

    unfoldable pub ouichefs_create : (dir : ℕ) → List ℕ → (mode : ℕ) → M (Unit {0})
    ouichefs_create dir name mode fs =
        let index_block = (fs.inode dir).index_block in
        if ltb filename_len (length name)
        then (err enametoolong, fs)
        else if not (bread_ok index_block)
        then (err eio, fs)
        else if not (sub_inode (fs.buffer index_block) 127 == 0)
        then (err emlink, fs)
        else on_ok (new_inode dir mode fs) (scrub_and_enter dir mode name)

    unfoldable pub ouichefs_mkdir : (dir : ℕ) → List ℕ → (mode : ℕ) → M (Unit {0})
    ouichefs_mkdir dir name mode = ouichefs_create dir name (vfs.s_ifdir mode)
