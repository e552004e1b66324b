-- ===== src/File/Write/Seek.antt =====
-- Where the search of `ouichefs_write` stops for an offset inside the file or at its end.
use pnl.Base.{
  ℕ, zero, suc, ◌+◌, ◌-◌, ◌≤◌, ◌<◌, ◌≡◌, refl, ap, ◌∙◌, some, true, ltb, ◌==◌, ◌&&◌, not, arith,
  Bool-cases, inl, inr,
}
use pnl.Block.{get_block_size}
use pnl.File.Content.{entry, total_size}
use pnl.File.Write.{write_seek}
use pnl.Memory.{Bytes}

-- It skips `before` of the `k` blocks from the entry `i` on; the offset lies `jump` bytes behind them.
pub record Placed (index : Bytes) (offset nr_blocks k i jumped : ℕ) : Type 0 where
  pub before : ℕ
  pub jump : ℕ
  pub result : write_seek index offset nr_blocks k i jumped ≡ some (i + before, jump)
  pub inside : before < k
  pub size : jumped + total_size index before i + jump ≡ offset
  pub jump_le : jump ≤ get_block_size (entry index (i + before))

pub write_seek-Placed :
    (index : Bytes) (offset nr_blocks k i jumped : ℕ)
    → 0 < k
    → k + i ≡ nr_blocks
    → jumped ≤ offset
    → offset ≤ jumped + total_size index k i
    → Placed index offset nr_blocks k i jumped
unfolding write_seek total_size
write_seek-Placed index offset nr_blocks zero i jumped pos rounds le h = absurd (omega arith)
write_seek-Placed index offset nr_blocks (suc k) i jumped pos rounds le h =
    elim (Bool-cases
      (ltb (jumped + get_block_size (entry index i)) offset && not (i == nr_blocks - 1))) [
        | inl skip ↦ next skip (
            write_seek-Placed index offset nr_blocks k (i + 1)
              (jumped + get_block_size (entry index i)) (ground arith) (ground arith) (ground arith)
              (omega arith))
        | inr here ↦ record {
          before = 0;
          jump =
              get_block_size (entry index i) + offset - (jumped + get_block_size (entry index i));
          result = rw here (
              ap some (
                ap
                  (λ (j : ℕ). (
                    j,
                    get_block_size (entry index i)
                        + offset
                        - (jumped + get_block_size (entry index i)),
                  ))
                  same));
          inside = omega arith;
          size = omega arith;
          jump_le = ground (arith, sizes, last);
        }
      ]
  where
    same : i ≡ i + 0
    same = omega arith

    sizes : get_block_size (entry index (i + 0)) ≡ get_block_size (entry index i)
    sizes = ap (λ j. get_block_size (entry index j)) (omega arith)

    last : k ≡ 0 → total_size index k (i + 1) ≡ 0
    last e = rw e refl

    next :
        (ltb (jumped + get_block_size (entry index i)) offset && not (i == nr_blocks - 1)) ≡ true
        → Placed index offset nr_blocks k (i + 1) (jumped + get_block_size (entry index i))
        → Placed index offset nr_blocks (suc k) i jumped
    next skip s = record {
      before = suc s.before;
      jump = s.jump;
      result = rw skip (s.result ∙ ap some (ap (λ (j : ℕ). (j, s.jump)) later));
      inside = omega (arith, s.inside);
      size = omega (arith, s.size);
      jump_le = omega (arith, s.jump_le, later_size);
    }
      where
        later : i + 1 + s.before ≡ i + suc s.before
        later = omega arith

        later_size :
            get_block_size (entry index (i + 1 + s.before))
            ≡ get_block_size (entry index (i + suc s.before))
        later_size = ap (λ j. get_block_size (entry index j)) later
