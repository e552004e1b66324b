-- ===== src/Inode/Unlink/Leaks.antt =====
-- `ouichefs_unlink`: what it gives back, and a file that it cannot remove.
use pnl.Base.{
  ℕ, zero, suc, ◌+◌, ◌-◌, ◌≤◌, ◌<◌, ◌≡◌, ◌≢◌, refl, true, false, arith, ltb, ◌==◌, if◌then◌else◌,
  ap, subst, sym, ◌∙◌,
}
use pnl.Bitmap.{put_inode, put_block}
use pnl.Bitmap.Put.{put_block_beyond}
use pnl.Dir.{remove_entry, sub_inode}
use pnl.Dir.Layout.{Compact}
use pnl.Dir.Search.{find_inode_lem}
use pnl.File.Content.{entry}
use pnl.File.Page.{data_blocks}
use pnl.Fs.{Fs, ok, fault, max_blocks_per_file, set_buffer, mark_buffer_dirty}
use pnl.Kernel.{BitmapApi, DeviceApi}
use pnl.Memory.{Bytes}
use pnl.Inode.Store.{VfsApi}
use pnl.Inode.Unlink.{
  put_blocks, clean_inode, scrub, destroy, leave_parent, remove_found, ouichefs_unlink,
}

module _ ⦃api : BitmapApi⦄ ⦃dev : DeviceApi⦄ where
  open dev use {bread_ok}

  -- Entries that are no block numbers are passed over.
  put_blocks-beyond :
      (bno k i : ℕ) (fs : Fs)
      → ((b : ℕ) → fs.sbi.nr_blocks < b → bread_ok b ≡ false)
      → ((j : ℕ) → i ≤ j → j < i + k → fs.sbi.nr_blocks < entry (fs.buffer bno) j)
      → put_blocks bno k i fs ≡ fs
  unfolding put_blocks
  put_blocks-beyond bno zero i fs end beyond = refl
  put_blocks-beyond bno (suc k) i fs end beyond =
      ap (put_blocks bno k (i + 1)) round
      ∙ put_blocks-beyond bno k (i + 1) fs end (λ j p q. beyond j (omega arith) (omega arith))
    where
      far : fs.sbi.nr_blocks < entry (fs.buffer bno) i
      far = beyond i (omega arith) (omega arith)

      round :
          (let word = entry (fs.buffer bno) i in
            let freed = record fs { sbi = put_block fs.sbi word } in
            (if word == 0 then fs else if bread_ok word then scrub word freed else freed))
          ≡ fs
      round =
          rw
            (
              put_block_beyond fs.sbi (entry (fs.buffer bno) i) far,
              end (entry (fs.buffer bno) i) far,
            )
            (ground arith)

module _ ⦃api : BitmapApi⦄ ⦃dev : DeviceApi⦄ ⦃vfs : VfsApi⦄ (dir ino n f : ℕ) (fs : Fs) where
  open dev use {bread_ok}

  -- The state when the entry of the directory is gone.
  abbrev pub left_dir : Fs
  left_dir =
      let block = (fs.inode dir).index_block in
      leave_parent dir ino
        (mark_buffer_dirty (set_buffer fs block (remove_entry (fs.buffer block) f n)) block)

  -- The directory `dir` is readable, compact with `n` entries, and its entry `f` is the one of `ino`.
  pub record Listed : Type 0 where
    pub apart : dir ≢ ino
    pub readable : bread_ok (fs.inode dir).index_block ≡ true
    pub compact : Compact n (fs.buffer (fs.inode dir).index_block)
    pub nonzero : ino ≢ 0
    pub in_range : f < n
    pub here : sub_inode (fs.buffer (fs.inode dir).index_block) f ≡ ino
    pub unique : (j : ℕ) → j < n → sub_inode (fs.buffer (fs.inode dir).index_block) j ≡ ino → j ≡ f

  pub unlink-destroy :
      Listed → ouichefs_unlink dir ino fs ≡ destroy ino (fs.inode ino).index_block left_dir
  unfolding ouichefs_unlink
  unlink-destroy l =
      rw
        (
          l.readable,
          find_inode_lem (fs.buffer (fs.inode dir).index_block) ino n f l.compact l.nonzero
              l.in_range l.here l.unique,
        )
        (unfold remove_found in refl)

  pub left_dir-inode : dir ≢ ino → left_dir.inode ino ≡ fs.inode ino
  unfolding leave_parent
  left_dir-inode ne = ground arith

  -- A regular file with an entry as in `Listed` and a readable index block, whose inode counts no
  -- blocks, as `ouichefs_open` leaves it after O_TRUNC, cannot be removed: once its entry is gone, the
  -- count of its data blocks wraps around and the loop over them leaves the index block.
  pub unlink-faults :
      Listed
      → (fs.inode ino).i_blocks ≡ 0
      → vfs.is_dir (fs.inode ino).i_mode ≡ false
      → bread_ok (fs.inode ino).index_block ≡ true
      → ouichefs_unlink dir ino fs ≡ (fault, left_dir)
  unlink-faults l empty regular readable =
      unlink-destroy l
      ∙ (unfold destroy in rw (left_dir-inode l.apart, empty, regular, readable) refl)

  -- A regular file with an entry as in `Listed` and an index block of its own that can be read, with 1
  -- to 1025 blocks counted, on a device that fails behind its end, all of whose entries are larger
  -- than the number of blocks, as the entries with a size that `ouichefs_write` makes are: removing it
  -- succeeds and gives back its inode and its index block, but none of its data blocks.
  pub unlink-leaks :
      let inode = fs.inode ino in
      Listed
      → 0 < inode.i_blocks
      → inode.i_blocks ≤ 1025
      → vfs.is_dir inode.i_mode ≡ false
      → bread_ok inode.index_block ≡ true
      → inode.index_block ≢ (fs.inode dir).index_block
      → ((b : ℕ) → fs.sbi.nr_blocks < b → bread_ok b ≡ false)
      → ((j : ℕ)
          → j + 1 < inode.i_blocks
          → fs.sbi.nr_blocks < entry (fs.buffer inode.index_block) j)
      → ((ouichefs_unlink dir ino fs).0 ≡ ok tt)
        × ((ouichefs_unlink dir ino fs).1.sbi ≡ put_inode (put_block fs.sbi inode.index_block) ino)
  unlink-leaks l pos few regular readable distinct end sized =
      rw (unlink-destroy l, destroyed) (refl, cleaned)
    where
      bno : ℕ
      bno = (fs.inode ino).index_block

      rounds : data_blocks (fs.inode ino).i_blocks ≡ (fs.inode ino).i_blocks - 1
      rounds = omega arith

      within_index : ltb max_blocks_per_file ((fs.inode ino).i_blocks - 1) ≡ false
      within_index = ground arith

      same : left_dir.buffer bno ≡ fs.buffer bno
      same = unfold leave_parent in ground (arith, distinct)

      passed : put_blocks bno ((fs.inode ino).i_blocks - 1) 0 left_dir ≡ left_dir
      passed =
          unfold leave_parent in
          put_blocks-beyond bno ((fs.inode ino).i_blocks - 1) 0 left_dir end (λ j p q.
            subst (λ (b : Bytes). fs.sbi.nr_blocks < entry b j) (sym same) (sized j (omega arith)))

      destroyed : destroy ino bno left_dir ≡ (ok tt, clean_inode ino bno (scrub bno left_dir))
      destroyed =
          unfold destroy in
          rw (left_dir-inode l.apart, regular, readable, rounds, within_index, passed) refl

      cleaned :
          (clean_inode ino bno (scrub bno left_dir)).sbi ≡ put_inode (put_block fs.sbi bno) ino
      cleaned = unfold clean_inode leave_parent in refl
