-- ===== src/Inode/Lookup.antt =====
-- `ouichefs_lookup` of inode.c and `ouichefs_iterate` of dir.c.
pub mod Got
use pnl.Base.{
  ℕ, zero, suc, ◌+◌, ◌-◌, Bool, Option, none, some, List, [], ◌∷◌, ltb, ◌==◌, if◌then◌else◌, not,
  length,
}
use pnl.Dir.{find_name, sub_inode}
use pnl.Fs.{
  Fs, M, Result, ok, err, fault, eio, enametoolong, enotdir, set_inode, mark_inode_dirty,
  filename_len, max_subfiles,
}
use pnl.Kernel.{DeviceApi}
use pnl.Memory.{Bytes}
use pnl.Inode.Store.{VfsApi, ouichefs_iget}

module _ ⦃dev : DeviceApi⦄ where
  open dev use {bread_ok, current_time}

  -- The access time of the directory is updated.
  abbrev pub accessed : ℕ → Fs → Fs
  accessed dir fs =
      mark_inode_dirty (set_inode fs dir (record (fs.inode dir) { i_atime = current_time })) dir

  -- `d_add` with what `ouichefs_iget` returned. An error pointer in place of an inode is dereferenced.
  unfoldable pub add_dentry : ℕ → Result ℕ × Fs → Result (Option ℕ) × Fs
  add_dentry dir (ok ino, fs) = (ok (some ino), accessed dir fs)
  add_dentry dir (err e, fs) = (fault, accessed dir fs)
  add_dentry dir (fault, fs) = (fault, accessed dir fs)

  module _ ⦃vfs : VfsApi⦄ where
    unfoldable pub look_up_entry : ℕ → Option ℕ → M (Option ℕ)
    look_up_entry dir none fs = (ok none, accessed dir fs)
    look_up_entry dir (some ino) fs = add_dentry dir (ouichefs_iget ino fs)

    -- The result is the inode that the dentry is filled with.
    unfoldable pub ouichefs_lookup : (dir : ℕ) → List ℕ → M (Option ℕ)
    ouichefs_lookup dir name fs =
        let index_block = (fs.inode dir).index_block in
        if ltb filename_len (length name)
        then (err enametoolong, fs)
        else if not (bread_ok index_block)
        then (err eio, fs)
        else look_up_entry dir (find_name (fs.buffer index_block) name 128 0) fs

-- The loop of `ouichefs_iterate`, at the entry `i` with `k` left: `emit` takes the entry with the
-- bytes of its name, if the caller's buffer has room for one more. The result is the list of the
-- inodes emitted.
unfoldable pub emit_entries : Bytes → (ℕ → Bool) → ℕ → ℕ → List ℕ
emit_entries dblock emit zero i = []
emit_entries dblock emit (suc k) i =
    let rest = emit_entries dblock emit k (i + 1) in
    if sub_inode dblock i == 0 then [] else if not (emit i) then [] else sub_inode dblock i ∷ rest

-- `pos` is `ctx->pos`, and `dots` says whether `dir_emit_dots` had room; it leaves `pos` at 2 or more.
-- The result is what was emitted and the new position.
module _ ⦃dev : DeviceApi⦄ ⦃vfs : VfsApi⦄ where
  unfoldable pub ouichefs_iterate : (dir pos : ℕ) → (dots : Bool) → (ℕ → Bool) → M (List ℕ × ℕ)
  ouichefs_iterate dir pos dots emit fs =
      let inode = fs.inode dir in
      let start = if ltb pos 2 then 2 else pos in
      let emitted =
        emit_entries (fs.buffer inode.index_block) emit (max_subfiles - (start - 2)) (start - 2) in
      if not (vfs.is_dir inode.i_mode)
      then (err enotdir, fs)
      else if ltb (max_subfiles + 2) pos
      then (ok ([], pos), fs)
      else if not dots
      then (ok ([], pos), fs)
      else if not (dev.bread_ok inode.index_block)
      then (err eio, fs)
      else (ok (emitted, start + length emitted), fs)
