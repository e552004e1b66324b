-- ===== src/Defrag/Gaps.antt =====
-- The second loop of the defragmentation, which closes the gaps in the index block: what it does when
-- the first loop has left one gap.
use pnl.Base.{
  ℕ, Bool, zero, suc, ◌+◌, ◌-◌, ◌≤◌, ◌<◌, ◌≡◌, ◌≢◌, inl, inr, refl, ap, ◌∙◌, false, arith, ◌==◌,
  Bool-cases, sym,
}
use pnl.Block.{get_block_size}
use pnl.Defrag.{last, next_used, close_gaps, go, after_compact, end_defrag, count_removed}
use pnl.File.Content.{entry, total_size}
use pnl.File.Content.Holds.{total_size-append}
use pnl.File.Content.Moved.{total_size-none}
use pnl.Fs.{Fs, ok}
use pnl.Kernel.{BitmapApi, DeviceApi}
use pnl.Memory.{Bytes}

next_used-last :
    (index : Bytes) (nr_blocks n j : ℕ)
    → j + 1 < nr_blocks
    → nr_blocks ≤ n + j
    → ((l : ℕ) → j ≤ l → l + 1 < nr_blocks → get_block_size (entry index l) ≡ 0)
    → next_used index nr_blocks n j ≡ last
unfolding next_used
next_used-last index nr_blocks zero j h enough empty = absurd (omega arith)
next_used-last index nr_blocks (suc n) j h enough empty =
    elim (Bool-cases (j + 1 == nr_blocks - 1)) [
      | inl e ↦ ground (arith, empty j)
      | inr e ↦ ground (
        arith,
        empty j,
        next_used-last index nr_blocks n (j + 1) (ground arith) (omega arith)
            (λ l q r. empty l (omega arith) r),
      )
    ]

total_size-one : (index : Bytes) (i : ℕ) → total_size index 1 i ≡ get_block_size (entry index i)
unfolding total_size
total_size-one index i = omega arith

-- The bytes behind the first `g + 1` entries are those of the last one.
total_size-last :
    (index : Bytes) (g n : ℕ)
    → ((l : ℕ) → g ≤ l → l < g + 1 + n → get_block_size (entry index l) ≡ 0)
    → total_size index (g + 1 + (n + 1)) 0
      ≡ total_size index (g + 1) 0 + get_block_size (entry index (g + 1 + n))
total_size-last index g n empty = omega (
  arith,
  total_size-append index (g + 1) (n + 1) 0,
  total_size-append index n 1 (0 + (g + 1)),
  total_size-none index n (0 + (g + 1)) (λ l p q. empty l (omega arith) (omega arith)),
  total_size-one index (0 + (g + 1) + n),
  same,
)
  where
    same : get_block_size (entry index (0 + (g + 1) + n)) ≡ get_block_size (entry index (g + 1 + n))
    same = ap (λ l. get_block_size (entry index l)) (omega arith)

module _ ⦃api : BitmapApi⦄ where
  close_gaps-last :
      (ib nr_blocks g n i : ℕ) (fs : Fs)
      → n + i ≡ nr_blocks
      → i ≤ g
      → g + 1 < nr_blocks
      → nr_blocks ≤ 1024
      → ((l : ℕ) → l < g → get_block_size (entry (fs.buffer ib) l) ≢ 0)
      → ((l : ℕ) → g ≤ l → l + 1 < nr_blocks → get_block_size (entry (fs.buffer ib) l) ≡ 0)
      → close_gaps ib nr_blocks n i fs ≡ (ok false, fs)
  unfolding close_gaps
  close_gaps-last ib nr_blocks g zero i fs e le h small full empty = absurd (omega arith)
  close_gaps-last ib nr_blocks g (suc n) i fs e le h small full empty = elim (Bool-cases (i == g)) [
    | inl here ↦
        rw
          (
            empty i (ground arith) (ground arith),
            next_used-last (fs.buffer ib) nr_blocks (1024 - i) i (ground arith) (omega arith)
                (λ l q r. empty l (ground arith) r),
          )
          refl
    | inr before ↦ ground (
      arith,
      full i,
      close_gaps-last ib nr_blocks g n (i + 1) fs (omega arith) (ground arith) h small full empty,
    )
  ]

module _ ⦃api : BitmapApi⦄ ⦃dev : DeviceApi⦄ where
  -- The first loop has left `g` entries with bytes in front, then empty ones only, which it has
  -- removed, and bytes in the last of the `nr_blocks` entries, at most 1024. Then `defrag` ends
  -- without an error and leaves every buffer as it is, the gap open, and the inode counts so few
  -- blocks that the bytes of the last entry are no longer in the file.
  pub after_compact-loses :
      (bh_j_set : Bool) (ino ib nr_blocks g removed : ℕ) (fs : Fs)
      → (fs.inode ino).i_blocks ≡ nr_blocks + 1
      → g + 1 + removed ≡ nr_blocks
      → 0 < removed
      → nr_blocks ≤ 1024
      → ((l : ℕ) → l < g → get_block_size (entry (fs.buffer ib) l) ≢ 0)
      → ((l : ℕ) → g ≤ l → l + 1 < nr_blocks → get_block_size (entry (fs.buffer ib) l) ≡ 0)
      → let r = after_compact bh_j_set ino ib nr_blocks (go removed, fs) in
        (r.0 ≡ ok tt)
        × (r.1.buffer ≡ fs.buffer)
        × (total_size (r.1.buffer ib) ((r.1.inode ino).i_blocks - 1) 0
              + get_block_size (entry (fs.buffer ib) (nr_blocks - 1))
            ≡ total_size (fs.buffer ib) nr_blocks 0)
  unfolding after_compact end_defrag count_removed
  after_compact-loses bh_j_set ino ib nr_blocks g removed fs blocks parts pos small full empty =
      rw
        (close_gaps-last ib nr_blocks g nr_blocks 0 (count_removed ino removed fs) (omega arith)
          (omega arith) (omega arith) small full empty)
        (
          refl,
          refl,
          ap
                (λ n.
                  total_size (fs.buffer ib) n 0
                  + get_block_size (entry (fs.buffer ib) (nr_blocks - 1)))
                left
              ∙ ap
                  (λ l.
                    total_size (fs.buffer ib) (g + 1) 0 + get_block_size (entry (fs.buffer ib) l))
                  place
              ∙ sym (
                  total_size-last (fs.buffer ib) g (removed - 1) (λ l p q. empty l p (omega arith)))
              ∙ ap (λ n. total_size (fs.buffer ib) n 0) all,
        )
    where
      place : nr_blocks - 1 ≡ g + 1 + (removed - 1)
      place = omega arith

      all : g + 1 + (removed - 1 + 1) ≡ nr_blocks
      all = omega arith

      left :
          ((end_defrag bh_j_set ino (ok false, count_removed ino removed fs)).1.inode ino).i_blocks
            - 1
          ≡ g + 1
      left = ground (arith, blocks, parts)
