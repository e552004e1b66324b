-- ===== src/File/Content.antt =====
-- What a file holds: the bytes in use of its blocks, one block after the other.
pub mod Holds
pub mod Moved
pub mod Splice
use pnl.Base.{ℕ, zero, suc, ◌+◌, ◌-◌, ◌*◌, ltb, if◌then◌else◌}
use pnl.Block.{get_block_number, get_block_size}
use pnl.Memory.{Bytes, load32}

-- `index->blocks[i]`
abbrev pub entry : Bytes → ℕ → ℕ
entry index i = load32 index (4 * i)

-- The number of bytes in the `k` blocks from the entry `i` on.
unfoldable pub total_size : Bytes → ℕ → ℕ → ℕ
total_size index zero i = 0
total_size index (suc k) i = get_block_size (entry index i) + total_size index k (i + 1)

-- The byte at position `p` of these blocks.
unfoldable pub byte_at : (ℕ → Bytes) → Bytes → ℕ → ℕ → ℕ → ℕ
byte_at buffer index zero i p = 0
byte_at buffer index (suc k) i p =
    let size = get_block_size (entry index i) in
    if ltb p size
    then buffer (get_block_number (entry index i)) p
    else byte_at buffer index k (i + 1) (p - size)

-- `old` with the first `len` bytes of `new` inserted at `offset`.
abbrev pub inserted : (old : Bytes) (offset len : ℕ) (new : Bytes) → Bytes
inserted old offset len new p =
    if ltb p offset then old p else if ltb p (offset + len) then new (p - offset) else old (p - len)
