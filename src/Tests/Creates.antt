-- ===== src/Tests/Creates.antt =====
-- A file that is created, found and removed again.
use pnl.Base.{ℕ, ◌<◌, ◌≡◌, refl, ap, ◌∙◌, false, arith, List, [], ◌∷◌, some, none}
use pnl.Bitmap.Consistent.{Takes}
use pnl.Dir.{name_at, same_name, sub_inode}
use pnl.Fs.{Fs, ok, filename_len}
use pnl.Inode.Create.{ouichefs_create}
use pnl.Inode.Create.Found.{IsCreatable, IsCreated, lookup-create}
use pnl.Inode.Create.Undone.{unlink-create}
use pnl.Inode.Lookup.{ouichefs_lookup}
use pnl.Inode.Unlink.{ouichefs_unlink}
use pnl.Kernel.{Bits}
use pnl.Memory.{load32}
use pnl.Tests.Disk.{disk, disk-IsConsistent, machine, plain_index, root_block, root_block-Compact}
use pnl.Tests.Machine.{bitmap_api, device_api, string_api, vfs_api}

-- "b"
abbrev b_name : List ℕ
b_name = 98 ∷ []

abbrev plain : Fs
plain = machine plain_index

fresh : (j : ℕ) → j < 1 → same_name root_block (name_at j) b_name 0 filename_len ≡ false
unfolding same_name
fresh j p = let z : j ≡ 0 = omega arith in rw z refl

plain-IsCreatable : IsCreatable 1 1 2 b_name plain
plain-IsCreatable = record {
  consistent = disk-IsConsistent;
  free_inode = omega arith;
  free_block = omega arith;
  known_mode = refl;
  memory = λ ino. refl;
  readable = λ b. refl;
  dir_used = refl;
  block_used = refl;
  compact = root_block-Compact;
  room = omega arith;
  short = omega arith;
  fresh = fresh;
}

created :
    ((ouichefs_create 1 b_name 2 plain).0 ≡ ok tt)
    × IsCreated 1 b_name plain (ouichefs_create 1 b_name 2 plain).1
created = lookup-create 1 1 2 b_name plain plain-IsCreatable

lookup-create_example :
    ((ouichefs_create 1 b_name 2 plain).0 ≡ ok tt)
    × IsCreated 1 b_name plain (ouichefs_create 1 b_name 2 plain).1
lookup-create_example = lookup-create 1 1 2 b_name plain plain-IsCreatable

least_inode : (ino : ℕ) (new : Bits) → Takes 20 disk.ifree_bitmap ino new → ino ≡ 5
least_inode ino new t = ground (arith, t.was_free, t.least 5)

found_five : (ouichefs_lookup 1 b_name (ouichefs_create 1 b_name 2 plain).1).0 ≡ ok (some 5)
found_five =
    created.1.found
    ∙ ap (λ i. ok (some i))
        (least_inode created.1.ino created.1.mid.ifree_bitmap created.1.inode_taken.takes)

first_entry : sub_inode root_block 0 ≡ 3
unfolding load32
first_entry = refl

owned : (j : ℕ) → j < 1 → disk.ifree_bitmap (sub_inode root_block j) ≡ false
owned j p = let z : j ≡ 0 = omega arith in rw (z, first_entry) refl

unlink-create_example :
    let fs' = (ouichefs_create 1 b_name 2 plain).1 in
    ((ouichefs_unlink 1 5 fs').0 ≡ ok tt)
    × ((ouichefs_unlink 1 5 fs').1.sbi ≡ disk)
    × ((ouichefs_lookup 1 b_name (ouichefs_unlink 1 5 fs').1).0 ≡ ok none)
unlink-create_example = unlink-create 1 1 2 5 b_name plain plain-IsCreatable owned found_five
