-- ===== src/Inode/Unlink.antt =====
-- `ouichefs_unlink` and `ouichefs_rmdir` of inode.c.
pub mod Leaks
use pnl.Base.{
  ℕ, zero, suc, ◌+◌, ◌-◌, ◌*◌, ◌%◌, ◌^◌, Bool, Option, none, some, leb, ltb, ◌==◌, ◌||◌,
  if◌then◌else◌, not, dec32,
}
use pnl.Bitmap.{put_inode, put_block}
use pnl.Dir.{find_inode, remove_entry, sub_inode}
use pnl.File.Content.{entry}
use pnl.File.Page.{data_blocks}
use pnl.Fs.{
  Fs, Inode, M, Result, ok, err, fault, eio, enotempty, set_buffer, set_inode, mark_buffer_dirty,
  mark_inode_dirty, block_size, max_blocks_per_file,
}
use pnl.Kernel.{BitmapApi, DeviceApi}
use pnl.Memory.{Bytes, memset}
use pnl.Inode.Store.{VfsApi}

-- The block filled with zeros and marked dirty.
abbrev pub scrub : ℕ → Fs → Fs
scrub b fs = mark_buffer_dirty (set_buffer fs b (memset (fs.buffer b) 0 0 block_size)) b

module _ ⦃api : BitmapApi⦄ ⦃dev : DeviceApi⦄ where
  open dev use {bread_ok, current_time}

  -- The loop over the data blocks of the file whose index block is `bno`, at the entry `i` with `k`
  -- rounds left. The entry is taken as a block number, with the size in its high bits.
  unfoldable pub put_blocks : (bno k i : ℕ) → Fs → Fs
  put_blocks bno zero i fs = fs
  put_blocks bno (suc k) i fs =
      let word = entry (fs.buffer bno) i in
      let freed = record fs { sbi = put_block fs.sbi word } in
      put_blocks bno k (i + 1)
        (if word == 0 then fs else if bread_ok word then scrub word freed else freed)

  module _ ⦃vfs : VfsApi⦄ where
    open vfs use {is_dir}

    -- `clean_inode` and what follows it.
    unfoldable pub clean_inode : (ino bno : ℕ) → Fs → Fs
    clean_inode ino bno fs =
        let inode = fs.inode ino in
        let cleaned = record inode {
          i_blocks = 0;
          index_block = 0;
          i_size = 0;
          i_uid = 0;
          i_gid = 0;
          i_mode = 0;
          i_ctime = record { tv_sec = 0; tv_nsec = 0 };
          i_mtime = record { tv_sec = 0; tv_nsec = 0 };
          i_atime = record { tv_sec = 0; tv_nsec = 0 };
          i_nlink = dec32 inode.i_nlink;
        } in
        let fs' = mark_inode_dirty (set_inode fs ino cleaned) ino in
        record fs' { sbi = put_inode (put_block fs'.sbi bno) ino }

    -- From the read of the index block on. The loop over the entries goes to `i_blocks - 1`, an
    -- unsigned number; past the index block it reads outside its buffer.
    unfoldable pub destroy : (ino bno : ℕ) → M (Unit {0})
    destroy ino bno fs =
        let inode = fs.inode ino in
        let rounds = data_blocks inode.i_blocks in
        if not (bread_ok bno)
        then (ok tt, clean_inode ino bno fs)
        else if is_dir inode.i_mode
        then (ok tt, clean_inode ino bno (scrub bno fs))
        else if ltb max_blocks_per_file rounds
        then (fault, fs)
        else (ok tt, clean_inode ino bno (scrub bno (put_blocks bno rounds 0 fs)))

    -- The parent directory after the entry was taken out.
    unfoldable pub leave_parent : (dir ino : ℕ) → Fs → Fs
    leave_parent dir ino fs =
        let parent = record (fs.inode dir) {
          i_mtime = current_time;
          i_atime = current_time;
          i_ctime = current_time;
          i_nlink =
              (if is_dir (fs.inode ino).i_mode
                then dec32 (fs.inode dir).i_nlink
                else (fs.inode dir).i_nlink);
        } in
        mark_inode_dirty (set_inode fs dir parent) dir

    -- With the outcome of the search for the inode; without an entry the code writes in front of the
    -- directory block.
    unfoldable pub remove_found : (dir ino : ℕ) → ℕ × Option ℕ → M (Unit {0})
    remove_found dir ino (nr_subs, none) fs = (fault, fs)
    remove_found dir ino (nr_subs, some f_id) fs =
        let block = (fs.inode dir).index_block in
        let removed =
          mark_buffer_dirty (set_buffer fs block (remove_entry (fs.buffer block) f_id nr_subs))
            block in
        destroy ino (fs.inode ino).index_block (leave_parent dir ino removed)

    -- `ino` is the inode of the dentry.
    unfoldable pub ouichefs_unlink : (dir ino : ℕ) → M (Unit {0})
    ouichefs_unlink dir ino fs =
        let block = (fs.inode dir).index_block in
        if not (bread_ok block)
        then (err eio, fs)
        else remove_found dir ino (find_inode (fs.buffer block) ino 128 0 none) fs

    unfoldable pub ouichefs_rmdir : (dir ino : ℕ) → M (Unit {0})
    ouichefs_rmdir dir ino fs =
        let inode = fs.inode ino in
        if ltb 2 inode.i_nlink
        then (err enotempty, fs)
        else if not (bread_ok inode.index_block)
        then (err eio, fs)
        else if not (sub_inode (fs.buffer inode.index_block) 0 == 0)
        then (err enotempty, fs)
        else ouichefs_unlink dir ino fs
