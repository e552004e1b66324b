-- ===== src/Mkfs/Bitmaps.antt =====
-- The words that `write_bfree_blocks` makes: the bits of the used blocks are 0, the others 1.
use pnl.Base.{
  ℕ, zero, suc, ◌+◌, ◌-◌, ◌*◌, ◌/◌, ◌%◌, ◌≤◌, ◌<◌, ◌≡◌, refl, ap, ◌∙◌, true, false, some, arith,
  min, leb, ◌==◌, within, if◌then◌else◌, update, inl, inr, Bool-cases,
}
use pnl.Kernel.{Bits}
use pnl.Memory.{Bytes, memset}
use pnl.Mkfs.{clear_line, first_inodes, mark_used, ones, store_line}
use pnl.Super.{bit_of, bits_value, bytes_bitmap}
use pnl.Super.RoundTrip.{bit_of-bits_value}

clear_line_lem :
    (k j : ℕ) (line : Bits) (nr_used : ℕ)
    → 0 < nr_used
    → ((clear_line k j line nr_used).1 ≡ nr_used - min k nr_used)
      × ((i : ℕ)
          → (clear_line k j line nr_used).0 i
            ≡ (if within j (min k nr_used) i then false else line i))
unfolding clear_line
clear_line_lem zero j line nr_used p = (omega arith, λ i. ground arith)
clear_line_lem (suc k) j line nr_used p = elim (Bool-cases (nr_used - 1 == 0)) [
  | inl last ↦ (ground arith, λ i. ground arith)
  | inr more ↦
      let h = clear_line_lem k (j + 1) (update line j false) (nr_used - 1) (ground arith) in
      (ground (arith, h.0), λ i. ground (arith, h.1 i))
]

-- A bit of a block after a word was stored.
store_line_lem :
    (b : Bytes) (i : ℕ) (line : Bits) (n : ℕ)
    → bytes_bitmap (store_line b i line) n
      ≡ (if within (64 * i) 64 n then line (n - 64 * i) else bytes_bitmap b n)
unfolding store_line
store_line_lem b i line n = elim (Bool-cases (within (64 * i) 64 n)) [
  | inl here ↦
      let at : within (8 * i) 8 (n / 8) ≡ true = ground arith in
      rw (here, at)
        (bit_of-bits_value line (8 * (n / 8 - 8 * i)) 8 (n % 8) (omega arith)
          ∙ ap line (ground arith))
  | inr away ↦ let at : within (8 * i) 8 (n / 8) ≡ false = ground arith in rw (away, at) refl
]

mark_used_lem :
    (k i nr_used : ℕ) (b : Bytes)
    → nr_used ≤ 64 * k
    → ((n : ℕ) → 64 * i ≤ n → n < 64 * (i + k) → bytes_bitmap b n ≡ true)
    → (b' : Bytes) × (mark_used k i nr_used b ≡ some b')
      × ((n : ℕ)
          → bytes_bitmap b' n ≡ (if within (64 * i) nr_used n then false else bytes_bitmap b n))
unfolding mark_used
mark_used_lem zero i nr_used b le set = (b, ground arith, λ n. ground arith)
mark_used_lem (suc k) i nr_used b le set = elim (Bool-cases (nr_used == 0)) [
  | inl e ↦ (b, ground arith, λ n. ground arith)
  | inr e ↦
      let c = clear_line_lem 64 0 (λ j. true) nr_used (ground arith) in
      let line = (clear_line 64 0 (λ j. true) nr_used).0 in
      let stored = store_line_lem b i line in
      let h =
        mark_used_lem k (i + 1) (clear_line 64 0 (λ j. true) nr_used).1 (store_line b i line)
          (omega (arith, c.0)) (λ n p q. ground (arith, stored n, set n)) in
      (h.0, rw e h.1, λ n. ground (arith, h.2 n, stored n, set n, c.0, c.1 (n - 64 * i)))
]

all_set : (j : ℕ) → j < 8 → bit_of 255 j ≡ true
unfolding bits_value
all_set j p = bit_of-bits_value (λ i. true) 0 8 j p

pub ones_lem : (n : ℕ) → n < 32768 → bytes_bitmap ones n ≡ true
unfolding memset
ones_lem n p = ground (arith, all_set (n % 8))

-- The first block of the bitmap of blocks: the first `nr_used` bits are 0, the others 1.
pub mark_used-ones :
    (nr_used : ℕ)
    → nr_used ≤ 32768
    → (b : Bytes) × (mark_used 512 0 nr_used ones ≡ some b)
      × ((n : ℕ) → n < 32768 → bytes_bitmap b n ≡ leb nr_used n)
mark_used-ones nr_used le =
    let h = mark_used_lem 512 0 nr_used ones (omega arith) (λ n p q. ones_lem n (omega arith)) in
    (h.0, h.1, λ n p. ground (arith, h.2 n, ones_lem n p))

-- The first block of the bitmap of inodes: the inodes 0 and 1 are in use.
pub first_inodes_lem :
    (n : ℕ) → n < 32768 → bytes_bitmap (store_line ones 0 first_inodes) n ≡ leb 2 n
first_inodes_lem n p = ground (arith, store_line_lem ones 0 first_inodes n, ones_lem n p)

pub other_inodes_lem : (n : ℕ) → n < 32768 → bytes_bitmap (store_line ones 0 (λ j. true)) n ≡ true
other_inodes_lem n p = ground (arith, store_line_lem ones 0 (λ j. true) n, ones_lem n p)
