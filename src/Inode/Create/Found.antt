-- ===== src/Inode/Create/Found.antt =====
-- `ouichefs_create` when nothing is missing, and the `ouichefs_lookup` that follows it.
use pnl.Base.{
  ℕ, ◌%◌, ◌<◌, ◌≡◌, ◌≢◌, inl, inr, refl, sym, ap, ◌∙◌, true, false, arith, ◌==◌, ltb, ◌&&◌, ◌||◌,
  not, List, length, some, update, update-at, u32_mod,
}
use pnl.Bitmap.{get_free_inode, get_free_block}
use pnl.Bitmap.Consistent.{IsConsistent, BlockTaken, InodeTaken, get_free_inode_lem}
use pnl.Bitmap.Count.{count-none}
use pnl.Dir.{find_name, find_slot, name_at, same_name, set_entry, sub_inode}
use pnl.Dir.Layout.{Compact}
use pnl.Dir.Search.{find_name-set}
use pnl.File.Write.Alloc.{some_free}
use pnl.Fs.{
  Fs, Inode, ok, set_inode, set_buffer, mark_buffer_dirty, filename_len, max_subfiles, block_size,
}
use pnl.Inode.Create.{
  init_inode, fill_inode, got_inode, new_inode, enter_inode, scrub_and_enter, ouichefs_create,
}
use pnl.Inode.Create.Atomic.{index_block-init_inode}
use pnl.Inode.Lookup.Got.{IsGot, ouichefs_iget-IsGot, ouichefs_iget-cached}
use pnl.Inode.Lookup.{add_dentry, look_up_entry, ouichefs_lookup}
use pnl.Inode.Store.{VfsApi, ouichefs_iget, inode_block}
use pnl.Kernel.{BitmapApi, DeviceApi, StringApi}
use pnl.Memory.{Bytes, memset}
use pnl.Superblock.{SbInfo}

some_inode :
    ⦃api : BitmapApi⦄ (sbi : SbInfo)
    → IsConsistent sbi
    → 0 < sbi.nr_free_inodes
    → InodeTaken sbi (get_free_inode sbi).0 (get_free_inode sbi).1
some_inode sbi c pos = elim (get_free_inode_lem c) [
  | inl full ↦
      absurd (omega (arith, count-none sbi.ifree_bitmap sbi.nr_inodes full.1, c.free_inodes))
  | inr t ↦ t
]

module _ ⦃api : BitmapApi⦄ ⦃dev : DeviceApi⦄ ⦃vfs : VfsApi⦄ ⦃str : StringApi⦄ where
  open dev use {bread_ok}
  open vfs use {iget_ok, is_dir, is_reg}

  -- A directory with room for one more entry, and a device with a free inode and a free block.
  pub record IsCreatable (dir n mode : ℕ) (name : List ℕ) (fs : Fs) : Type 0 where
    pub consistent : IsConsistent fs.sbi
    pub free_inode : 0 < fs.sbi.nr_free_inodes
    pub free_block : 0 < fs.sbi.nr_free_blocks
    pub known_mode : not (is_dir mode) && not (is_reg mode) ≡ false
    pub memory : (ino : ℕ) → iget_ok ino ≡ true
    pub readable : (b : ℕ) → bread_ok b ≡ true
    pub dir_used : fs.sbi.ifree_bitmap dir ≡ false
    pub block_used : fs.sbi.bfree_bitmap (fs.inode dir).index_block ≡ false
    pub compact : Compact n (fs.buffer (fs.inode dir).index_block)
    pub room : n < max_subfiles
    pub short : length name < filename_len
    pub fresh :
        (j : ℕ)
        → j < n
        → same_name (fs.buffer (fs.inode dir).index_block) (name_at j) name 0 filename_len ≡ false

  -- What `ouichefs_create` leaves: a new inode, with a block of zeros as its index block, in the first
  -- free entry of the directory, which the name leads to.
  pub record IsCreated (dir : ℕ) (name : List ℕ) (fs fs' : Fs) : Type 0 where
    pub ino : ℕ
    pub bno : ℕ
    pub mid : SbInfo
    pub inode_taken : InodeTaken fs.sbi ino mid
    pub block_taken : BlockTaken mid bno fs'.sbi
    pub index_block : (fs'.inode ino).index_block ≡ bno
    pub blocks : (fs'.inode ino).i_blocks ≡ 1
    pub not_dir : dir ≢ ino
    pub not_block : (fs.inode dir).index_block ≢ bno
    pub dir_block : (fs'.inode dir).index_block ≡ (fs.inode dir).index_block
    pub entered :
        fs'.buffer (fs.inode dir).index_block
        ≡ (let d = fs.buffer (fs.inode dir).index_block in set_entry d (find_slot d 128 0) ino name)
    pub empty : (a : ℕ) → a < block_size → fs'.buffer bno a ≡ 0
    pub found : (ouichefs_lookup dir name fs').0 ≡ ok (some ino)

  module _ (dir n mode : ℕ) (name : List ℕ) (fs : Fs) (c : IsCreatable dir n mode name fs) where
    abbrev ino : ℕ
    ino = (get_free_inode fs.sbi).0

    abbrev mid : SbInfo
    mid = (get_free_inode fs.sbi).1

    abbrev bno : ℕ
    bno = (get_free_block mid).0

    abbrev got : Fs
    got = (ouichefs_iget ino (record fs { sbi = mid })).1

    inode_taken : InodeTaken fs.sbi ino mid
    inode_taken = some_inode fs.sbi c.consistent c.free_inode

    block_taken : BlockTaken mid bno (get_free_block mid).1
    block_taken =
        some_free mid inode_taken.consistent
          (ground (arith, ap (λ (s : SbInfo). s.nr_free_blocks) inode_taken.rest, c.free_block))

    same_inodes : mid.nr_inodes ≡ fs.sbi.nr_inodes
    same_inodes = sym (ap (λ (s : SbInfo). s.nr_inodes) inode_taken.rest)

    iget_works : IsGot ino (record fs { sbi = mid }) (ouichefs_iget ino (record fs { sbi = mid }))
    iget_works =
        ouichefs_iget-IsGot ino (record fs { sbi = mid })
          (omega (arith, same_inodes, inode_taken.takes.in_range)) (c.memory ino)
          (c.readable (inode_block ino))

    -- The inode is not the directory's, and its index block is not the directory's block.
    not_dir : dir ≢ ino
    not_dir e = ground (arith, c.dir_used, inode_taken.takes.was_free, ap fs.sbi.ifree_bitmap e)

    not_block : (fs.inode dir).index_block ≢ bno
    not_block e = ground (
      arith,
      c.block_used,
      block_taken.takes.was_free,
      ap mid.bfree_bitmap e,
      ap (λ (s : SbInfo). s.bfree_bitmap (fs.inode dir).index_block) inode_taken.rest,
    )

    unfoldable made : Fs
    made =
        set_inode (record got { sbi = (get_free_block mid).1 }) ino
          (init_inode (got.inode ino) (got.inode dir) mode bno)

    fill_inode-made : fill_inode dir mode ino got ≡ (ok ino, made)
    unfolding fill_inode made
    fill_inode-made = rw (iget_works.sbi, zero) refl
      where
        zero : (bno == 0) ≡ false
        zero = ground (arith, block_taken.takes.nonzero)

    new_inode-made : new_inode dir mode fs ≡ (ok ino, made)
    unfolding new_inode got_inode
    new_inode-made = rw (c.known_mode, full, zero, iget_works.result) fill_inode-made
      where
        zero : (ino == 0) ≡ false
        zero = ground (arith, inode_taken.takes.nonzero)

        full : (fs.sbi.nr_free_inodes == 0) || (fs.sbi.nr_free_blocks == 0) ≡ false
        full = ground (arith, c.free_inode, c.free_block)

    made-block : (made.inode ino).index_block ≡ bno
    unfolding made
    made-block = ground (arith, index_block-init_inode (got.inode ino) (got.inode dir) mode bno)

    made-dir : made.inode dir ≡ fs.inode dir
    unfolding made
    made-dir = ground (arith, iget_works.others dir, not_dir)

    made-buffer : made.buffer ≡ fs.buffer
    unfolding made
    made-buffer = iget_works.buffer

    made-cached : made.cached ino ≡ true
    unfolding made
    made-cached = iget_works.cached

    abbrev scrubbed : Fs
    scrubbed = mark_buffer_dirty (set_buffer made bno (memset (made.buffer bno) 0 0 block_size)) bno

    unfoldable created : Fs
    created = enter_inode dir mode ino name scrubbed

    scrub_and_enter-created : scrub_and_enter dir mode name ino made ≡ (ok tt, created)
    unfolding scrub_and_enter created
    scrub_and_enter-created = rw (made-block, c.readable bno) refl

    ouichefs_create-created : ouichefs_create dir name mode fs ≡ (ok tt, created)
    unfolding ouichefs_create
    ouichefs_create-created =
        rw (long, c.readable (fs.inode dir).index_block, last, new_inode-made)
          scrub_and_enter-created
      where
        long : ltb filename_len (length name) ≡ false
        long = ground (arith, c.short)

        last : (sub_inode (fs.buffer (fs.inode dir).index_block) 127 == 0) ≡ true
        last = ground (arith, c.compact.free 127, c.room)

    created-block : (created.inode ino).index_block ≡ bno
    unfolding created enter_inode
    created-block = ground (arith, made-block, not_dir)

    created-blocks : (created.inode ino).i_blocks ≡ 1
    unfolding created enter_inode made init_inode
    created-blocks = ground (arith, not_dir)

    created-dir : (created.inode dir).index_block ≡ (fs.inode dir).index_block
    unfolding created enter_inode
    created-dir = ground (arith, ap (λ (i : Inode). i.index_block) made-dir)

    created-zero : (a : ℕ) → a < block_size → created.buffer bno a ≡ 0
    unfolding created enter_inode memset
    created-zero a h = rw made-dir (ground (arith, not_block))

    created-entry :
        created.buffer (fs.inode dir).index_block
        ≡ (let d = fs.buffer (fs.inode dir).index_block in set_entry d (find_slot d 128 0) ino name)
    unfolding created enter_inode
    created-entry =
        rw (made-dir, made-buffer)
          (update-at (update fs.buffer bno zeros) (fs.inode dir).index_block _
            ∙ ap (λ d. set_entry d (find_slot d 128 0) ino name) before)
      where
        zeros : Bytes
        zeros = memset (fs.buffer bno) 0 0 block_size

        before :
            update fs.buffer bno zeros (fs.inode dir).index_block
            ≡ fs.buffer (fs.inode dir).index_block
        before = ground (arith, not_block)

    created-cached : created.cached ino ≡ true
    unfolding created enter_inode
    created-cached = made-cached

    created-sbi : created.sbi ≡ (get_free_block mid).1
    unfolding created enter_inode made
    created-sbi = refl

    -- The number fits the directory entry.
    small : ino % u32_mod ≡ ino
    small = omega (arith, inode_taken.takes.in_range, c.consistent.inodes_small)

    found_name : find_name (created.buffer (fs.inode dir).index_block) name 128 0 ≡ some ino
    found_name = rw created-entry (
        find_name-set (fs.buffer (fs.inode dir).index_block) name n ino c.compact c.room c.short
          (omega (arith, small, inode_taken.takes.nonzero)) c.fresh
        ∙ ap some small)

    same_count : created.sbi.nr_inodes ≡ mid.nr_inodes
    same_count = ap (λ (s : SbInfo). s.nr_inodes) (created-sbi ∙ sym block_taken.rest)

    found_inode : ouichefs_iget ino created ≡ (ok ino, created)
    found_inode =
        ouichefs_iget-cached ino created
          (omega (arith, inode_taken.takes.in_range, same_inodes, same_count)) (c.memory ino)
          created-cached

    created-found : (ouichefs_lookup dir name created).0 ≡ ok (some ino)
    unfolding ouichefs_lookup look_up_entry add_dentry
    created-found =
        rw (long, created-dir, c.readable (fs.inode dir).index_block, found_name, found_inode) refl
      where
        long : ltb filename_len (length name) ≡ false
        long = ground (arith, c.short)

    created-IsCreated : IsCreated dir name fs created
    created-IsCreated = record {
      ino = ino;
      bno = bno;
      mid = mid;
      inode_taken = inode_taken;
      block_taken = rw created-sbi block_taken;
      index_block = created-block;
      blocks = created-blocks;
      not_dir = not_dir;
      not_block = not_block;
      dir_block = created-dir;
      entered = created-entry;
      empty = created-zero;
      found = created-found;
    }

  -- On a consistent superblock with a free inode and a free block, where all blocks can be read and
  -- the inode cache has memory, for the mode of a directory or of a regular file, in a directory in
  -- use with a block in use, compact, with room, and without the name, of fewer than 28 characters:
  -- `ouichefs_create` succeeds; it has taken the least free inode and the least free block, which is
  -- the index block of the new inode and holds zeros; and `ouichefs_lookup` of the name in the state
  -- that it leaves finds the new inode.
  pub lookup-create :
      (dir n mode : ℕ) (name : List ℕ) (fs : Fs)
      → IsCreatable dir n mode name fs
      → ((ouichefs_create dir name mode fs).0 ≡ ok tt)
        × IsCreated dir name fs (ouichefs_create dir name mode fs).1
  lookup-create dir n mode name fs c =
      rw (ouichefs_create-created dir n mode name fs c)
        (refl, created-IsCreated dir n mode name fs c)
