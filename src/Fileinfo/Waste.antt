-- ===== src/Fileinfo/Waste.antt =====
-- The bytes in use and the bytes not in use make up the blocks.
use pnl.Base.{ℕ, zero, suc, ◌+◌, ◌-◌, ◌*◌, ◌==◌, if◌then◌else◌, ltb, ◌≡◌, arith}
use pnl.Block.{get_block_size}
use pnl.Block.Laws.{size_lem}
use pnl.File.Content.{entry, total_size}
use pnl.Fileinfo.{scan}
use pnl.Fs.{max_block_size}
use pnl.Memory.{Bytes}

-- Of the `k` blocks from the entry `i` on, those with fewer than 4095 bytes.
unfoldable pub nr_partial : Bytes → (k i : ℕ) → ℕ
nr_partial index zero i = 0
nr_partial index (suc k) i =
    (if ltb (get_block_size (entry index i)) 4095 then 1 else 0) + nr_partial index k (i + 1)

-- For the `k` blocks from the entry `i` on: the scan adds to its count the number of blocks with fewer
-- than 4095 bytes, and to its total the bytes that are missing to 4095 in each block.
pub scan-total :
    (index : Bytes) (k i partial total : ℕ)
    → ((scan index k i partial total).0 ≡ partial + nr_partial index k i)
      × ((scan index k i partial total).1 + total_size index k i ≡ total + 4095 * k)
unfolding scan total_size nr_partial
scan-total index zero i partial total = (omega arith, omega arith)
scan-total index (suc k) i partial total =
    let rest =
      scan-total index k (i + 1)
        (if max_block_size - get_block_size (entry index i) == 0 then partial else partial + 1)
        (total + (max_block_size - get_block_size (entry index i))) in
    (
      ground (arith, size_lem (entry index i), rest.0),
      ground (arith, size_lem (entry index i), rest.1),
    )
