-- ===== src/Tests/Writes.antt =====
-- The theorems on `ouichefs_write`, applied to a write into the file of two blocks.
use pnl.Base.{ℕ, zero, suc, ◌+◌, ◌<◌, ◌≡◌, refl, arith}
use pnl.Block.{get_block_number, get_block_size}
use pnl.File.Content.{entry, total_size}
use pnl.File.Read.{ouichefs_read}
use pnl.File.Read.Correct.{Works}
use pnl.File.ReadBack.{read-write}
use pnl.File.Write.{ouichefs_write}
use pnl.File.Write.Fill.{Writes}
use pnl.File.Write.Outcome.{IsFile, Wrote}
use pnl.File.Write.Refine.{ouichefs_write_lem}
use pnl.Fs.{Fs, ok}
use pnl.Memory.{load32}
use pnl.Tests.Disk.{disk-IsConsistent, machine, sized_index}
use pnl.Tests.Machine.{bitmap_api, device_api}

abbrev sized : Fs
sized = machine sized_index

number : (j : ℕ) → j < 2 → get_block_number (entry sized_index j) ≡ 7 + j
unfolding get_block_number load32
number zero h = refl
number (suc zero) h = refl
number (suc (suc j)) h = absurd (omega arith)

sized-IsFile : IsFile 3 sized
unfolding total_size get_block_size load32
sized-IsFile = record {
  listed = record {
    blocks = record {
      apart = λ j h e. omega (arith, number j h, e);
      distinct = λ j j' h h' e. omega (arith, number j h, number j' h', e);
    };
    used = λ j h. rw (number j h) (ground arith);
    index_used = refl;
  };
  sized = refl;
}

readable : Writes sized.user 100 3
readable = record { reads = λ b. refl; copies = λ buf to from n h k. refl }

ouichefs_write_lem_example :
    let (ret, fs') = ouichefs_write (0, 0) 3 100 3 4 sized in
    (ret ≡ ok (3, 7)) × Wrote 3 100 3 4 sized fs'
ouichefs_write_lem_example =
    ouichefs_write_lem (0, 0) 3 100 3 4 sized readable disk-IsConsistent (omega arith) sized-IsFile
      (omega arith) (omega arith) (omega arith) (omega arith) (omega arith) (omega arith)
      (λ e. absurd (omega (arith, e)))

always_Works : Works 200
always_Works = record { reads = λ b. refl; writes = λ user to buf from n h. refl }

read-write_example :
    let (ret, fs') = ouichefs_read 3 200 3 4 (ouichefs_write (0, 0) 3 100 3 4 sized).1 in
    (ret ≡ ok (3, 7)) × ((a : ℕ) → a < 3 → fs'.user (200 + a) ≡ sized.user (100 + a))
read-write_example =
    read-write (0, 0) 3 100 3 4 200 sized readable disk-IsConsistent (omega arith) sized-IsFile
      (omega arith) (omega arith) (omega arith) (omega arith) (omega arith) (omega arith)
      (λ e. absurd (omega (arith, e))) always_Works
