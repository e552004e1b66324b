-- ===== src/Inode/Create/Undone.antt =====
-- `ouichefs_unlink` of an inode that `ouichefs_create` has just made.
use pnl.Base.{
  ℕ, ◌+◌, ◌-◌, ◌<◌, ◌≡◌, ◌≢◌, inl, inr, refl, sym, ap, subst, ◌∙◌, true, false, arith, ◌==◌, ltb,
  Bool-cases, List, length, some, none,
}
use pnl.Bitmap.{put_inode}
use pnl.Bitmap.Put.{put_taken}
use pnl.Bitmap.PutInode.{put_inode_taken}
use pnl.Dir.{find_name, name_at, set_entry, sub_inode, remove_entry}
use pnl.Dir.Layout.{Compact, Entries, remove_entry_lem}
use pnl.Dir.Search.{Set, set_entry-Set, find_slot_lem, find_name-none, same_name-cong}
use pnl.Fs.{Fs, ok, filename_len}
use pnl.Inode.Create.{ouichefs_create}
use pnl.Inode.Create.Found.{IsCreatable, IsCreated, lookup-create}
use pnl.Inode.Lookup.{look_up_entry, ouichefs_lookup}
use pnl.Inode.Store.{VfsApi}
use pnl.Inode.Unlink.{put_blocks, clean_inode, scrub, destroy, leave_parent, ouichefs_unlink}
use pnl.Inode.Unlink.Leaks.{Listed, left_dir, unlink-destroy, left_dir-inode}
use pnl.Kernel.{BitmapApi, DeviceApi, StringApi}

found_inode : (i j : ℕ) → ok (some i) ≡ ok (some j) → i ≡ j
found_inode i j e = ground arith

module _ ⦃api : BitmapApi⦄ ⦃dev : DeviceApi⦄ ⦃vfs : VfsApi⦄ ⦃str : StringApi⦄ where
  open dev use {bread_ok}

  -- An inode with an index block alone.
  destroy-one :
      (ino bno : ℕ) (fs : Fs)
      → bread_ok bno ≡ true
      → (fs.inode ino).i_blocks ≡ 1
      → destroy ino bno fs ≡ (ok tt, clean_inode ino bno (scrub bno fs))
  unfolding destroy put_blocks
  destroy-one ino bno fs readable one =
      rw (readable, one)
        (elim (Bool-cases (vfs.is_dir (fs.inode ino).i_mode)) [
          | inl d ↦ rw d refl
          | inr f ↦ rw f refl
        ])

  module _ (dir n mode : ℕ) (name : List ℕ) (fs fs' : Fs) (c : IsCreatable dir n mode name fs)
      (v : IsCreated dir name fs fs')
      (owned : (j : ℕ)
        → j < n
        → fs.sbi.ifree_bitmap (sub_inode (fs.buffer (fs.inode dir).index_block) j) ≡ false) where
    new_block :
        fs'.buffer (fs.inode dir).index_block
        ≡ set_entry (fs.buffer (fs.inode dir).index_block) n v.ino name
    new_block =
        v.entered
        ∙ ap (λ i. set_entry (fs.buffer (fs.inode dir).index_block) i v.ino name)
            (find_slot_lem (fs.buffer (fs.inode dir).index_block) n c.compact)

    set :
        Set
          (fs.buffer (fs.inode dir).index_block)
          n
          v.ino
          name
          (fs'.buffer (fs.inode dir).index_block)
    set = rw new_block (set_entry-Set (fs.buffer (fs.inode dir).index_block) n v.ino name c.short)

    own : sub_inode (fs'.buffer (fs.inode dir).index_block) n ≡ v.ino
    own = omega (arith, set.inode, v.inode_taken.takes.in_range, c.consistent.inodes_small)

    used : (i : ℕ) → i < n + 1 → sub_inode (fs'.buffer (fs.inode dir).index_block) i ≢ 0
    used i p e = elim (Bool-cases (i == n)) [
      | inl z ↦
          let here : i ≡ n = ground arith in
          v.inode_taken.takes.nonzero
            (sym own ∙ ap (sub_inode (fs'.buffer (fs.inode dir).index_block)) (sym here) ∙ e)
      | inr z ↦ ground (arith, set.inodes i, c.compact.used i)
    ]

    unique :
        (j : ℕ) → j < n + 1 → sub_inode (fs'.buffer (fs.inode dir).index_block) j ≡ v.ino → j ≡ n
    unique j p e = elim (Bool-cases (j == n)) [
      | inl z ↦ ground arith
      | inr z ↦
          let old : sub_inode (fs.buffer (fs.inode dir).index_block) j ≡ v.ino =
            sym (set.inodes j (ground arith)) ∙ e in
          absurd (
            ground (
              arith,
              owned j (ground arith),
              v.inode_taken.takes.was_free,
              ap fs.sbi.ifree_bitmap old,
            ))
    ]

    compact : Compact (n + 1) (fs'.buffer (fs.inode dir).index_block)
    compact = record {
      fits = omega (arith, c.room);
      used = used;
      free = λ i p q. ground (arith, set.inodes i, c.compact.free i);
    }

    listed : Listed dir v.ino (n + 1) n fs'
    listed = record {
      apart = v.not_dir;
      readable = c.readable (fs'.inode dir).index_block;
      compact = rw v.dir_block compact;
      nonzero = v.inode_taken.takes.nonzero;
      in_range = omega arith;
      here = rw v.dir_block own;
      unique = rw v.dir_block unique;
    }

    -- The state when the entry is gone again.
    abbrev left : Fs
    left = left_dir dir v.ino (n + 1) n fs'

    left-blocks : (left.inode v.ino).i_blocks ≡ 1
    left-blocks = rw (left_dir-inode dir v.ino (n + 1) n fs' v.not_dir) v.blocks

    unlinked : ouichefs_unlink dir v.ino fs' ≡ (ok tt, clean_inode v.ino v.bno (scrub v.bno left))
    unlinked =
        unlink-destroy dir v.ino (n + 1) n fs' listed
        ∙ rw v.index_block (destroy-one v.ino v.bno left (c.readable v.bno) left-blocks)

    restored : (clean_inode v.ino v.bno (scrub v.bno left)).sbi ≡ fs.sbi
    unfolding clean_inode leave_parent
    restored =
        ap (λ s. put_inode s v.ino)
          (put_taken v.mid fs'.sbi v.bno v.inode_taken.consistent v.block_taken)
        ∙ put_inode_taken fs.sbi v.mid v.ino c.consistent v.inode_taken

    final-dir :
        ((clean_inode v.ino v.bno (scrub v.bno left)).inode dir).index_block
        ≡ (fs.inode dir).index_block
    unfolding clean_inode leave_parent
    final-dir = ground (arith, v.not_dir, v.dir_block)

    final-block :
        (clean_inode v.ino v.bno (scrub v.bno left)).buffer (fs.inode dir).index_block
        ≡ remove_entry (fs'.buffer (fs.inode dir).index_block) n (n + 1)
    unfolding clean_inode leave_parent
    final-block = rw v.dir_block (ground (arith, v.not_block))

    removed :
        Entries n
          (n + 1)
          (fs'.buffer (fs.inode dir).index_block)
          (remove_entry (fs'.buffer (fs.inode dir).index_block) n (n + 1))
        × Compact (n + 1 - 1) (remove_entry (fs'.buffer (fs.inode dir).index_block) n (n + 1))
    removed =
        remove_entry_lem (fs'.buffer (fs.inode dir).index_block) n (n + 1) (omega arith) compact

    gone :
        find_name (remove_entry (fs'.buffer (fs.inode dir).index_block) n (n + 1)) name 128 0 ≡ none
    gone =
        find_name-none (remove_entry (fs'.buffer (fs.inode dir).index_block) n (n + 1)) name n
          (subst (λ m. Compact m (remove_entry (fs'.buffer (fs.inode dir).index_block) n (n + 1)))
            (omega arith) removed.1)
          (λ j p.
            same_name-cong _ (fs.buffer (fs.inode dir).index_block) (name_at j) name 0 28 (λ k q r.
              removed.0.names j k (omega arith) (omega arith)
              ∙ ground (arith, set.names j k (omega arith) (omega arith)))
            ∙ c.fresh j p)

    lost : (ouichefs_lookup dir name (clean_inode v.ino v.bno (scrub v.bno left))).0 ≡ ok none
    unfolding ouichefs_lookup look_up_entry
    lost = rw (long, final-dir, c.readable (fs.inode dir).index_block, final-block, gone) refl
      where
        long : ltb filename_len (length name) ≡ false
        long = ground (arith, c.short)

    pub unlink-IsCreated :
        ((ouichefs_unlink dir v.ino fs').0 ≡ ok tt)
        × ((ouichefs_unlink dir v.ino fs').1.sbi ≡ fs.sbi)
        × ((ouichefs_lookup dir name (ouichefs_unlink dir v.ino fs').1).0 ≡ ok none)
    unlink-IsCreated = rw unlinked (refl, restored, lost)

  -- Where `ouichefs_create` succeeds as in its theorem, and the entries of the directory are inodes in
  -- use: `ouichefs_unlink` of the inode that `ouichefs_lookup` of the name gives afterwards succeeds,
  -- leaves the superblock as it was before the creation, and the name is no longer found.
  pub unlink-create :
      (dir n mode ino : ℕ) (name : List ℕ) (fs : Fs)
      → IsCreatable dir n mode name fs
      → ((j : ℕ)
          → j < n
          → fs.sbi.ifree_bitmap (sub_inode (fs.buffer (fs.inode dir).index_block) j) ≡ false)
      → let fs' = (ouichefs_create dir name mode fs).1 in
        (ouichefs_lookup dir name fs').0 ≡ ok (some ino)
        → ((ouichefs_unlink dir ino fs').0 ≡ ok tt)
          × ((ouichefs_unlink dir ino fs').1.sbi ≡ fs.sbi)
          × ((ouichefs_lookup dir name (ouichefs_unlink dir ino fs').1).0 ≡ ok none)
  unlink-create dir n mode ino name fs c owned e =
      rw same
        (unlink-IsCreated dir n mode name fs (ouichefs_create dir name mode fs).1 c made owned)
    where
      made : IsCreated dir name fs (ouichefs_create dir name mode fs).1
      made = (lookup-create dir n mode name fs c).1

      same : ino ≡ made.ino
      same = found_inode ino made.ino (sym e ∙ made.found)
