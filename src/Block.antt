-- ===== src/Block.antt =====
-- project/projet_PNL/block.c: an entry of a file's index block holds the number of a data block in
-- its 20 low bits and the number of bytes in use of that block in its 12 high bits.
-- An entry is its 32-bit pattern; `SIZE_MASK` is unsigned, so the shift to the right is logical.
pub mod Laws
use pnl.Base.{ℕ, ◌-◌, ◌*◌, ◌/◌, ◌%◌, ◌^◌, bit_and, bit_or, u32_mod}

abbrev pub number_mask : ℕ
number_mask = 2 ^ 20

abbrev pub size_mask : ℕ
size_mask = 0xfff00000

-- `~m` on 32 bits
abbrev pub complement : ℕ → ℕ
complement m = u32_mod - 1 - m

unfoldable pub get_block_number : ℕ → ℕ
get_block_number block_number = bit_and block_number (number_mask - 1)

-- The new value of `*field`.
unfoldable pub set_block_number : ℕ → ℕ → ℕ
set_block_number field block_number =
    let kept = bit_and field (complement (number_mask - 1)) in
    bit_or kept (bit_and block_number (number_mask - 1))

unfoldable pub get_block_size : ℕ → ℕ
get_block_size block_number = bit_and block_number size_mask / 2 ^ 20

unfoldable pub set_block_size : ℕ → ℕ → ℕ
set_block_size field block_size =
    let kept = bit_and field (complement size_mask) in
    bit_or kept (bit_and (block_size * 2 ^ 20 % u32_mod) size_mask)
