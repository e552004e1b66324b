-- ===== src/Block/Laws.antt =====
-- The entries of an index block as a pair of fields, for the functions of block.c.
use pnl.Base.{ℕ, ◌+◌, ◌*◌, ◌/◌, ◌%◌, ◌^◌, ◌<◌, ◌≡◌, arith, u32_mod}
use pnl.Base.Bits.{and_low, and_high, or_disjoint, or_disjoint_right}
use pnl.Block.{get_block_number, set_block_number, get_block_size, set_block_size}

pub number_lem : (w : ℕ) → get_block_number w ≡ w % 2 ^ 20
unfolding get_block_number
number_lem w = and_low 20 w

pub size_lem : (w : ℕ) → get_block_size w ≡ w / 2 ^ 20 % 2 ^ 12
unfolding get_block_size
size_lem w = omega (arith, and_high 20 12 w)

pub set_number_lem : (w n : ℕ) → set_block_number w n ≡ w / 2 ^ 20 % 2 ^ 12 * 2 ^ 20 + n % 2 ^ 20
unfolding set_block_number
set_number_lem w n =
    rw (and_high 20 12 w, and_low 20 n)
      (or_disjoint 20 (w / 2 ^ 20 % 2 ^ 12) (n % 2 ^ 20) (omega arith))

pub set_size_lem : (w s : ℕ) → set_block_size w s ≡ s % 2 ^ 12 * 2 ^ 20 + w % 2 ^ 20
unfolding set_block_size
set_size_lem w s =
    rw (and_low 20 w, and_high 20 12 (s * 2 ^ 20 % u32_mod))
      (omega (
        arith,
        or_disjoint_right 20 (s * 2 ^ 20 % u32_mod / 2 ^ 20 % 2 ^ 12) (w % 2 ^ 20) (omega arith),
      ))

-- Each setter stores its field, cut to the field's width, and leaves the other field as it is;
-- the result fits 32 bits.
pub get-set :
    (w n s : ℕ)
    → (get_block_number (set_block_number w n) ≡ n % 2 ^ 20)
      × (get_block_size (set_block_number w n) ≡ get_block_size w)
      × (get_block_size (set_block_size w s) ≡ s % 2 ^ 12)
      × (get_block_number (set_block_size w s) ≡ get_block_number w)
      × (set_block_number w n < u32_mod)
      × (set_block_size w s < u32_mod)
get-set w n s =
    rw
      (
        number_lem (set_block_number w n),
        size_lem (set_block_number w n),
        size_lem (set_block_size w s),
        number_lem (set_block_size w s),
        size_lem w,
        number_lem w,
        set_number_lem w n,
        set_size_lem w s,
      )
      (omega arith)
