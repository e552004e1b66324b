-- ===== src/Tests/Examples.antt =====
-- The theorems on the parts of the disk, applied to a small one.
use pnl.Base.{
  ℕ, ◌+◌, ◌*◌, ◌<◌, ◌≡◌, ◌⊎◌, refl, ap, zero, suc, length, false, arith, List, [], ◌∷◌, u32_mod,
}
use pnl.Bitmap.{get_first_free_bit, get_free_block}
use pnl.Bitmap.Consistent.{BlockTaken, get_free_block_lem}
use pnl.Block.{get_block_number, set_block_number, get_block_size, set_block_size}
use pnl.Block.Laws.{get-set}
use pnl.Dir.{name_at, same_name, set_entry, sub_inode}
use pnl.Dir.Search.{same_name-longest}
use pnl.File.Content.{total_size}
use pnl.Fileinfo.{scan}
use pnl.Fileinfo.Waste.{nr_partial, scan-total}
use pnl.Fs.{filename_len}
use pnl.Memory.{load32}
use pnl.Kernel.{char_at}
use pnl.Tests.Machine.{bitmap_api, string_api, first_set}
use pnl.Tests.Disk.{disk, disk-IsConsistent, sized_index, root_block}

get-set_example :
    (get_block_number (set_block_number 0x00300007 9) ≡ 9)
    × (get_block_size (set_block_number 0x00300007 9) ≡ get_block_size 0x00300007)
    × (get_block_size (set_block_size 0x00300007 4100) ≡ 4)
    × (get_block_number (set_block_size 0x00300007 4100) ≡ get_block_number 0x00300007)
    × (set_block_number 0x00300007 9 < u32_mod)
    × (set_block_size 0x00300007 4100 < u32_mod)
get-set_example = get-set 0x00300007 9 4100

get_free_block_lem_example :
    (get_free_block disk ≡ (0, disk)) × ((i : ℕ) → i < disk.nr_blocks → disk.bfree_bitmap i ≡ false)
    ⊎ BlockTaken disk (get_free_block disk).0 (get_free_block disk).1
get_free_block_lem_example = get_free_block_lem disk-IsConsistent

least_free : (get_free_block disk).0 ≡ 10
unfolding get_free_block get_first_free_bit first_set
least_free = refl

entry_zero : sub_inode root_block 0 ≡ 3
unfolding load32
entry_zero = refl

-- "b"
abbrev short_name : List ℕ
short_name = 98 ∷ []

fresh_name : (j : ℕ) → j < 1 → same_name root_block (name_at j) short_name 0 filename_len ≡ false
unfolding same_name
fresh_name j p = let z : j ≡ 0 = omega arith in rw z refl

unfoldable repeat : ℕ → ℕ → List ℕ
repeat c zero = []
repeat c (suc n) = c ∷ repeat c n

char_at-repeat : (c n i : ℕ) → i < n → char_at (repeat c n) i ≡ c
unfolding repeat
char_at-repeat c zero i h = absurd (omega arith)
char_at-repeat c (suc n) zero h = refl
char_at-repeat c (suc n) (suc i) h = char_at-repeat c n i (omega arith)

length-repeat : (c n : ℕ) → length (repeat c n) ≡ n
unfolding repeat
length-repeat c zero = refl
length-repeat c (suc n) = ap suc (length-repeat c n)

-- 28 times the letter a
abbrev long_name : List ℕ
long_name = repeat 97 28

same_name-longest_example :
    same_name (set_entry root_block 1 4 long_name) (name_at 1) long_name 0 filename_len ≡ false
same_name-longest_example =
    same_name-longest root_block 1 4 long_name (length-repeat 97 28)
      (λ l p. ground (arith, char_at-repeat 97 28 l p))

scan-total_example :
    ((scan sized_index 2 0 0 0).0 ≡ 0 + nr_partial sized_index 2 0)
    × ((scan sized_index 2 0 0 0).1 + total_size sized_index 2 0 ≡ 0 + 4095 * 2)
scan-total_example = scan-total sized_index 2 0 0 0
