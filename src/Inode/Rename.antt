-- ===== src/Inode/Rename.antt =====
-- `ouichefs_rename` of inode.c.
pub mod Moves
use pnl.Base.{
  ℕ, zero, suc, ◌+◌, Bool, true, false, Option, none, some, List, length, ltb, ◌==◌, ◌&&◌,
  if◌then◌else◌, not, inc32, dec32,
}
use pnl.Dir.{name_at, remove_entry, same_name, set_entry, set_name, sub_inode}
use pnl.Fs.{
  Fs, M, ok, err, fault, eio, einval, eexist, emlink, enametoolong, filename_len, mark_buffer_dirty,
  mark_inode_dirty, set_buffer, set_inode,
}
use pnl.Inode.Store.{VfsApi}
use pnl.Kernel.{DeviceApi, StringApi}
use pnl.Memory.{Bytes}

-- `new_pos` after the entry `i`, which is free or not.
abbrev pub or_here : Bool → ℕ → Option ℕ → Option ℕ
or_here free i (some pos) = some pos
or_here free i none = if free then some i else none

-- The loop over the new directory, at the entry `i` with `k` rounds left: `f_pos` and `new_pos`, where
-- `none` is -1, or `none` if an entry has the new name.
unfoldable pub find_place :
    Bytes
    → (same_dir : Bool) → (old_name new_name : List ℕ) → (k i : ℕ) → (f_pos new_pos : Option ℕ)
    → Option (Option ℕ × Option ℕ)
find_place dblock same_dir old_name new_name zero i f_pos new_pos = some (f_pos, new_pos)
find_place dblock same_dir old_name new_name (suc k) i f_pos new_pos =
    let named = same_dir && same_name dblock (name_at i) old_name 0 filename_len in
    let f = if named then some i else f_pos in
    let free = or_here (sub_inode dblock i == 0) i new_pos in
    let rest = find_place dblock same_dir old_name new_name k (i + 1) f free in
    if same_name dblock (name_at i) new_name 0 filename_len then none else rest

-- The loop over the old directory, whose condition is always true: `nr_subs` and `f_id`, or `none` if
-- it leaves the directory block.
unfoldable pub find_subs : Bytes → (ino k i : ℕ) → Option ℕ → Option (ℕ × Option ℕ)
find_subs dblock ino zero i f_id = none
find_subs dblock ino (suc k) i f_id =
    let rest =
      find_subs dblock ino k (i + 1) (if sub_inode dblock i == ino then some i else f_id) in
    if not (sub_inode dblock i == ino) && (sub_inode dblock i == 0) then some (i, f_id) else rest

module _ ⦃dev : DeviceApi⦄ ⦃vfs : VfsApi⦄ where
  open dev use {bread_ok, current_time}
  open vfs use {is_dir}

  -- The new times of the directory `dir`, and its new link count if `src` is a directory.
  abbrev pub touched : (dir src : ℕ) → (ℕ → ℕ) → Fs → Fs
  touched dir src count fs =
      let parent = record (fs.inode dir) {
        i_mtime = current_time;
        i_atime = current_time;
        i_ctime = current_time;
        i_nlink =
            (if is_dir (fs.inode src).i_mode
              then count (fs.inode dir).i_nlink
              else (fs.inode dir).i_nlink);
      } in
      mark_inode_dirty (set_inode fs dir parent) dir

  -- With the outcome of the loop over the old directory. Without an entry the code writes in front of
  -- the directory block.
  unfoldable pub leave_old : (old_dir src : ℕ) → Option (ℕ × Option ℕ) → M (Unit {0})
  leave_old old_dir src none fs = (fault, fs)
  leave_old old_dir src (some (nr_subs, none)) fs = (fault, fs)
  leave_old old_dir src (some (nr_subs, some f_id)) fs =
      let block = (fs.inode old_dir).index_block in
      let removed = set_buffer fs block (remove_entry (fs.buffer block) f_id nr_subs) in
      (ok tt, touched old_dir src dec32 (mark_buffer_dirty removed block))

  module _ ⦃str : StringApi⦄ where
    -- The target in its new directory, at the entry `new_pos`.
    abbrev pub entered : (new_dir src new_pos : ℕ) → List ℕ → Fs → Fs
    entered new_dir src new_pos new_name fs =
        let block = (fs.inode new_dir).index_block in
        let inserted = set_buffer fs block (set_entry (fs.buffer block) new_pos src new_name) in
        touched new_dir src inc32 (mark_buffer_dirty inserted block)

    -- From the insertion on, for two directories; there is no way back when the old directory cannot
    -- be read.
    unfoldable pub move_entry : (old_dir new_dir src new_pos : ℕ) → List ℕ → M (Unit {0})
    move_entry old_dir new_dir src new_pos new_name fs =
        let fs' = entered new_dir src new_pos new_name fs in
        let block = (fs'.inode old_dir).index_block in
        if not (bread_ok block)
        then (err eio, fs')
        else leave_old old_dir src (find_subs (fs'.buffer block) src 128 0 none) fs'

    -- With the outcome of the loop over the new directory.
    unfoldable pub place_found :
        (old_dir new_dir src : ℕ) → List ℕ → Option (Option ℕ × Option ℕ) → M (Unit {0})
    place_found old_dir new_dir src new_name none fs = (err eexist, fs)
    place_found old_dir new_dir src new_name (some (f_pos, new_pos)) fs =
        let block = (fs.inode new_dir).index_block in
        let renamed = λ (pos : ℕ).
          mark_buffer_dirty (set_buffer fs block (set_name (fs.buffer block) pos new_name)) block in
        if old_dir == new_dir
        then elim f_pos [ none ↦ (fault, fs) | some pos ↦ (ok tt, renamed pos) ]
        else elim new_pos [
          | none ↦ (err emlink, fs)
          | some pos ↦ move_entry old_dir new_dir src pos new_name fs
        ]

    -- `unsupported` says whether RENAME_EXCHANGE or RENAME_WHITEOUT is set, and `src` is the inode of
    -- the old dentry.
    unfoldable pub ouichefs_rename :
        (unsupported : Bool) (old_dir src : ℕ)
        → (old_name : List ℕ) (new_dir : ℕ) → (new_name : List ℕ) → M (Unit {0})
    ouichefs_rename unsupported old_dir src old_name new_dir new_name fs =
        let block = (fs.inode new_dir).index_block in
        if unsupported
        then (err einval, fs)
        else if ltb filename_len (length new_name)
        then (err enametoolong, fs)
        else if not (bread_ok block)
        then (err eio, fs)
        else place_found old_dir new_dir src new_name
            (find_place (fs.buffer block) (old_dir == new_dir) old_name new_name 128 0 none none) fs
