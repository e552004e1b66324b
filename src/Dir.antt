-- ===== src/Dir.antt =====
-- `struct ouichefs_dir_block` of project/projet_PNL/ouichefs.h, and what the handlers of inode.c do
-- to one: 128 entries of 32 bytes, the inode number and then the name. An entry with inode 0 is free.
pub mod Layout
pub mod Search
use pnl.Base.{
  ℕ, zero, suc, ◌+◌, ◌-◌, ◌*◌, Bool, true, false, Option, none, some, List, ◌==◌, if◌then◌else◌,
  not, ◌&&◌,
}
use pnl.Kernel.{StringApi, char_at}
use pnl.Memory.{Bytes, load32, store32, memmove, memset}
use pnl.Fs.{filename_len, max_subfiles}

-- `files[i].inode`
abbrev pub sub_inode : Bytes → ℕ → ℕ
sub_inode dblock i = load32 dblock (32 * i)

-- Where `files[i].filename` begins.
abbrev pub name_at : ℕ → ℕ
name_at i = 32 * i + 4

-- `!strncmp(dblock + o, name, k)`, from the character `i` on.
unfoldable pub same_name : Bytes → ℕ → List ℕ → ℕ → ℕ → Bool
same_name dblock o name i zero = true
same_name dblock o name i (suc k) =
    (dblock (o + i) == char_at name i)
    && (if char_at name i == 0 then true else same_name dblock o name (i + 1) k)

-- The loop of `ouichefs_lookup`, with `k` rounds left: the inode number of the first entry with the
-- name, before the first free entry.
unfoldable pub find_name : Bytes → List ℕ → ℕ → ℕ → Option ℕ
find_name dblock name zero i = none
find_name dblock name (suc k) i =
    let rest = find_name dblock name k (i + 1) in
    if sub_inode dblock i == 0
    then none
    else if same_name dblock (name_at i) name 0 filename_len
    then some (sub_inode dblock i)
    else rest

-- The loop of `ouichefs_create`: the first free entry, or the number of entries.
unfoldable pub find_slot : Bytes → ℕ → ℕ → ℕ
find_slot dblock zero i = i
find_slot dblock (suc k) i =
    let rest = find_slot dblock k (i + 1) in if sub_inode dblock i == 0 then i else rest

-- The loop of `ouichefs_unlink` and of `ouichefs_rename`: `nr_subs`, and `f_id` (`none` is -1).
unfoldable pub find_inode : Bytes → ℕ → ℕ → ℕ → Option ℕ → ℕ × Option ℕ
find_inode dblock ino zero i f_id = (i, f_id)
find_inode dblock ino (suc k) i f_id =
    let rest =
      find_inode dblock ino k (i + 1) (if sub_inode dblock i == ino then some i else f_id) in
    if not (sub_inode dblock i == ino) && (sub_inode dblock i == 0) then (i, f_id) else rest

-- The entry `f_id` of `nr_subs` is taken out, and the ones behind it move up.
unfoldable pub remove_entry : Bytes → ℕ → ℕ → Bytes
remove_entry dblock f_id nr_subs =
    let moved =
      if not (f_id == max_subfiles - 1)
      then memmove dblock (32 * f_id) dblock (32 * (f_id + 1)) ((nr_subs - f_id - 1) * 32)
      else dblock in
    memset moved (32 * (nr_subs - 1)) 0 32

module _ ⦃str : StringApi⦄ where
  open str use {strscpy}

  unfoldable pub set_name : Bytes → ℕ → List ℕ → Bytes
  set_name dblock i name = strscpy dblock (name_at i) name filename_len

  -- The entry `i` is given an inode and a name.
  unfoldable pub set_entry : Bytes → ℕ → ℕ → List ℕ → Bytes
  unfolding set_name
  set_entry dblock i ino name = set_name (store32 dblock (32 * i) ino) i name
