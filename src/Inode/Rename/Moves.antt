-- ===== src/Inode/Rename/Moves.antt =====
-- A rename from one directory to another.
use pnl.Base.{
  ℕ, zero, suc, ◌+◌, ◌-◌, ◌≤◌, ◌<◌, ◌≡◌, ◌≢◌, refl, ap, subst, ◌∙◌, true, false, Option, none, some,
  List, length, arith, ltb, leb, ◌==◌, if◌then◌else◌, inl, inr, Bool-cases, u32_mod,
}
use pnl.Dir.{find_name, name_at, remove_entry, same_name, set_entry, sub_inode}
use pnl.Dir.Layout.{Compact, Entries, remove_entry_lem}
use pnl.Dir.Search.{find_name-set, find_slot_lem}
use pnl.Fs.{Fs, ok, fault, filename_len, max_subfiles}
use pnl.Inode.Rename.{
  or_here, find_place, find_subs, leave_old, entered, move_entry, place_found, ouichefs_rename,
}
use pnl.Inode.Store.{VfsApi}
use pnl.Kernel.{DeviceApi, StringApi}
use pnl.Memory.{Bytes}

find_place-from :
    (d : Bytes) (old new : List ℕ) (n k i : ℕ)
    → Compact n d
    → n < max_subfiles
    → ((j : ℕ) → j < max_subfiles → same_name d (name_at j) new 0 filename_len ≡ false)
    → k + i ≡ max_subfiles
    → find_place d false old new k i none (if ltb n i then some n else none) ≡ some (none, some n)
unfolding find_place
find_place-from d old new n zero i c room fresh e = ground arith
find_place-from d old new n (suc k) i c room fresh e =
    rw (fresh i (omega arith), next)
      (find_place-from d old new n k (i + 1) c room fresh (omega arith))
  where
    next :
        or_here (sub_inode d i == 0) i (if ltb n i then some n else none)
        ≡ (if ltb n (i + 1) then some n else none)
    next = elim (Bool-cases (ltb n i)) [
      | inl e ↦ ground arith
      | inr e ↦ ground (arith, c.used i, c.free i)
    ]

find_subs-from :
    (d : Bytes) (ino n f k i : ℕ) (acc : Option ℕ)
    → Compact n d
    → n < max_subfiles
    → ino ≢ 0
    → f < n
    → sub_inode d f ≡ ino
    → ((j : ℕ) → j < n → sub_inode d j ≡ ino → j ≡ f)
    → k + i ≡ max_subfiles
    → i ≤ n
    → find_subs d ino k i acc ≡ some (n, (if leb i f then some f else acc))
unfolding find_subs
find_subs-from d ino n f zero i acc c room nz lt here unique e le = absurd (omega arith)
find_subs-from d ino n f (suc k) i acc c room nz lt here unique e le = elim (Bool-cases (i == n)) [
  | inl end ↦ ground (arith, c.free i, c.used i)
  | inr more ↦ ground (
    arith,
    c.used i,
    unique i,
    find_subs-from d ino n f k (i + 1) (if sub_inode d i == ino then some i else acc) c room nz lt
        here unique (omega arith) (ground arith),
  )
]

-- In a full directory the loop leaves the block.
find_subs-full :
    (d : Bytes) (ino k i : ℕ) (acc : Option ℕ)
    → Compact max_subfiles d
    → k + i ≡ max_subfiles
    → find_subs d ino k i acc ≡ none
unfolding find_subs
find_subs-full d ino zero i acc c e = refl
find_subs-full d ino (suc k) i acc c e = ground (
  arith,
  c.used i,
  find_subs-full d ino k (i + 1) (if sub_inode d i == ino then some i else acc) c (omega arith),
)

module _ ⦃dev : DeviceApi⦄ ⦃vfs : VfsApi⦄ ⦃str : StringApi⦄ (old_dir new_dir src n m f : ℕ)
    (old_name new_name : List ℕ) (fs : Fs) where
  open dev use {bread_ok}

  -- Two directories with different blocks: the new one has `n` entries and room for one more, none of
  -- them with the new name, and the old one has `m` entries, the entry `f` for `src`.
  pub record Movable : Type 0 where
    pub dirs : old_dir ≢ new_dir
    pub blocks : (fs.inode old_dir).index_block ≢ (fs.inode new_dir).index_block
    pub old_readable : bread_ok (fs.inode old_dir).index_block ≡ true
    pub new_readable : bread_ok (fs.inode new_dir).index_block ≡ true
    pub new_compact : Compact n (fs.buffer (fs.inode new_dir).index_block)
    pub room : n < max_subfiles
    pub short : length new_name < filename_len
    pub fresh :
        (j : ℕ)
        → j < max_subfiles
        → same_name (fs.buffer (fs.inode new_dir).index_block) (name_at j) new_name 0 filename_len
          ≡ false
    pub nonzero : src ≢ 0
    pub small : src < u32_mod
    pub old_compact : Compact m (fs.buffer (fs.inode old_dir).index_block)
    pub in_range : f < m
    pub here : sub_inode (fs.buffer (fs.inode old_dir).index_block) f ≡ src
    pub unique :
        (j : ℕ) → j < m → sub_inode (fs.buffer (fs.inode old_dir).index_block) j ≡ src → j ≡ f

  rename-entered :
      Movable
      → ouichefs_rename false old_dir src old_name new_dir new_name fs
        ≡ leave_old old_dir src
            (find_subs (fs.buffer (fs.inode old_dir).index_block) src 128 0 none)
            (entered new_dir src n new_name fs)
  unfolding ouichefs_rename
  rename-entered v =
      rw (v.new_readable, long, apart, found)
        (unfold place_found move_entry in rw (apart) (ground (arith, v.old_readable, block, same)))
    where
      long : ltb filename_len (length new_name) ≡ false
      long = ground (arith, v.short)

      apart : (old_dir == new_dir) ≡ false
      apart = ground (arith, v.dirs)

      none_yet : none ≡ (if ltb n 0 then some n else none)
      none_yet = ground arith

      found :
          find_place
            (fs.buffer (fs.inode new_dir).index_block)
            false
            old_name
            new_name
            128
            0
            none
            none
          ≡ some (none, some n)
      found =
          ap
            (find_place (fs.buffer (fs.inode new_dir).index_block) false old_name new_name 128 0
              none)
            none_yet
          ∙ find_place-from (fs.buffer (fs.inode new_dir).index_block) old_name new_name n 128 0
              v.new_compact v.room v.fresh refl

      block :
          ((entered new_dir src n new_name fs).inode old_dir).index_block
          ≡ (fs.inode old_dir).index_block
      block = ground (arith, v.dirs)

      same :
          (entered new_dir src n new_name fs).buffer (fs.inode old_dir).index_block
          ≡ fs.buffer (fs.inode old_dir).index_block
      same = ground (arith, v.blocks)

  named_entry :
      Movable
      → find_name
          (set_entry (fs.buffer (fs.inode new_dir).index_block) n src new_name)
          new_name
          128
          0
        ≡ some src
  named_entry v =
      subst
        (λ i.
          find_name (set_entry (fs.buffer (fs.inode new_dir).index_block) i src new_name) new_name
            128 0
          ≡ some src)
        (find_slot_lem (fs.buffer (fs.inode new_dir).index_block) n v.new_compact)
        (find_name-set (fs.buffer (fs.inode new_dir).index_block) new_name n src v.new_compact
            v.room v.short (ground (arith, v.nonzero, v.small))
            (λ j p. v.fresh j (ground (arith, v.room)))
          ∙ ap some (omega (arith, v.small)))

  -- For two directories and an entry as in `Movable`, the old directory not being full:
  -- `ouichefs_rename` succeeds; the search of `ouichefs_lookup` for the new name in the new directory
  -- finds the inode, and the old directory is compact, with the other entries in their order.
  pub rename-moves :
      Movable
      → m < max_subfiles
      → let old_block = (fs.inode old_dir).index_block in
        let new_block = (fs.inode new_dir).index_block in
        let (ret, fs') = ouichefs_rename false old_dir src old_name new_dir new_name fs in
        (ret ≡ ok tt)
        × (find_name (fs'.buffer new_block) new_name 128 0 ≡ some src)
        × Entries f m (fs.buffer old_block) (fs'.buffer old_block)
        × Compact (m - 1) (fs'.buffer old_block)
  rename-moves v few =
      rw (rename-entered v, subs) (unfold leave_old in (refl, named, left.0, left.1))
    where
      old_block : ℕ
      old_block = (fs.inode old_dir).index_block

      subs : find_subs (fs.buffer old_block) src 128 0 none ≡ some (m, some f)
      subs =
          find_subs-from (fs.buffer old_block) src m f 128 0 none v.old_compact few v.nonzero
            v.in_range v.here v.unique refl (omega arith)
          ∙ ground arith

      after : Fs
      after = (leave_old old_dir src (some (m, some f)) (entered new_dir src n new_name fs)).1

      new_kept :
          after.buffer (fs.inode new_dir).index_block
          ≡ set_entry (fs.buffer (fs.inode new_dir).index_block) n src new_name
      new_kept = unfold leave_old in ground (arith, v.blocks, v.dirs)

      old_removed : after.buffer old_block ≡ remove_entry (fs.buffer old_block) f m
      old_removed = unfold leave_old in ground (arith, v.blocks, v.dirs)

      named : find_name (after.buffer (fs.inode new_dir).index_block) new_name 128 0 ≡ some src
      named = rw new_kept (named_entry v)

      left :
          Entries f m (fs.buffer old_block) (after.buffer old_block)
          × Compact (m - 1) (after.buffer old_block)
      left = rw old_removed (remove_entry_lem (fs.buffer old_block) f m v.in_range v.old_compact)

  -- For two directories and an entry as in `Movable`, if the old directory is full: the search for the
  -- entry leaves the directory block, when the new directory already has the new name for the inode
  -- and the old one is as it was.
  pub rename-overruns :
      Movable
      → m ≡ max_subfiles
      → let (ret, fs') = ouichefs_rename false old_dir src old_name new_dir new_name fs in
        (ret ≡ fault)
        × (find_name (fs'.buffer (fs.inode new_dir).index_block) new_name 128 0 ≡ some src)
        × (fs'.buffer (fs.inode old_dir).index_block ≡ fs.buffer (fs.inode old_dir).index_block)
  rename-overruns v full =
      rw (rename-entered v, none_found)
        (unfold leave_old in (refl, rw new_kept (named_entry v), old_kept))
    where
      none_found : find_subs (fs.buffer (fs.inode old_dir).index_block) src 128 0 none ≡ none
      none_found =
          find_subs-full (fs.buffer (fs.inode old_dir).index_block) src 128 0 none
            (subst (λ k. Compact k (fs.buffer (fs.inode old_dir).index_block)) full v.old_compact)
            refl

      after : Fs
      after = entered new_dir src n new_name fs

      new_kept :
          after.buffer (fs.inode new_dir).index_block
          ≡ set_entry (fs.buffer (fs.inode new_dir).index_block) n src new_name
      new_kept = ground arith

      old_kept :
          after.buffer (fs.inode old_dir).index_block ≡ fs.buffer (fs.inode old_dir).index_block
      old_kept = ground (arith, v.blocks)
