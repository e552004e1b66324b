-- ===== src/Defrag/Fill.antt =====
-- The inner loop of the defragmentation, when all blocks can be read and a block is free.
use pnl.Base.{
  ℕ, zero, suc, ◌+◌, ◌-◌, ◌<◌, ◌≡◌, ◌≢◌, inl, inr, refl, ◌∙◌, true, arith, Bool, ◌==◌, Bool-cases,
  subst, min,
}
use pnl.Bitmap.{put_block}
use pnl.Bitmap.Put.{BlockPut, put_block_lem}
use pnl.Defrag.{Next, go, move_bytes, fill_entry, clear_entry}
use pnl.Defrag.Live.{number, size, Stepped, Keeps, Keeps-refl, Keeps-trans, Stepped-Keeps}
use pnl.Defrag.Move.{IsMove, move_bytes-IsMove}
use pnl.Defrag.Step.{dropped-Stepped}
use pnl.Fs.{Fs, max_block_size}
use pnl.Kernel.{BitmapApi, DeviceApi}
use pnl.Defrag.Rounds.{IsOuter, IsInner, IsInner-end, ready, step-IsInner, step-IsOuter}

-- What the inner loop leaves, for the state `fs` before it.
pub record IsFilled (ib k i : ℕ) (fs : Fs) (r : Next (ℕ × ℕ) × Fs) : Type 0 where
  pub j : ℕ
  pub removed : ℕ
  pub result : r.0 ≡ go (j, removed)
  pub behind : i < j
  pub outer : IsOuter ib k j removed r.1.sbi r.1.buffer
  pub keeps : Keeps ib k fs.sbi fs.buffer r.1.sbi r.1.buffer
  pub inodes : r.1.inode ≡ fs.inode

IsFilled-after :
    (ib k i : ℕ) (fs mid : Fs) (r : Next (ℕ × ℕ) × Fs)
    → Keeps ib k fs.sbi fs.buffer mid.sbi mid.buffer
    → mid.inode ≡ fs.inode
    → IsFilled ib k i mid r
    → IsFilled ib k i fs r
IsFilled-after ib k i fs mid r keeps inodes v = record {
  j = v.j;
  removed = v.removed;
  result = v.result;
  behind = v.behind;
  outer = v.outer;
  keeps = Keeps-trans ib k fs.sbi mid.sbi r.1.sbi fs.buffer mid.buffer r.1.buffer keeps v.keeps;
  inodes = v.inodes ∙ inodes;
}

module _ ⦃api : BitmapApi⦄ ⦃dev : DeviceApi⦄ where
  open dev use {bread_ok}

  unfoldable dropped : (ib j : ℕ) → Fs → Fs
  dropped ib j fs = clear_entry (record fs { sbi = put_block fs.sbi (number fs.buffer ib j) }) ib j

  module _ (ib k i j left removed : ℕ) (fs : Fs)
      (v : IsInner ib k i j left removed fs.sbi fs.buffer) (below : j < k) where
    put_j : BlockPut fs.sbi (number fs.buffer ib j) (put_block fs.sbi (number fs.buffer ib j))
    put_j =
        put_block_lem fs.sbi (number fs.buffer ib j) v.live.consistent
          (v.ahead j (omega arith) below) (v.live.in_range j below) (v.live.used j below)

    drop-Stepped :
        size fs.buffer ib j ≡ 0
        → Stepped ib k i j 0 0 fs.sbi fs.buffer (dropped ib j fs).sbi (dropped ib j fs).buffer
    unfolding dropped
    drop-Stepped empty =
        dropped-Stepped ib k i j 0 fs.sbi fs.buffer
          (ready ib k i j left removed fs.sbi fs.buffer v 0 below (omega arith) (omega arith)) _
          (dropped ib j fs).buffer refl empty put_j (ground arith) (λ b n. ground arith)

    drop-spare : 0 < (dropped ib j fs).sbi.nr_free_blocks
    unfolding dropped
    drop-spare = omega (arith, put_j.counter)

    drop-inodes : (dropped ib j fs).inode ≡ fs.inode
    unfolding dropped
    drop-inodes = refl

    drop-Keeps :
        size fs.buffer ib j ≡ 0
        → Keeps ib k fs.sbi fs.buffer (dropped ib j fs).sbi (dropped ib j fs).buffer
    drop-Keeps empty =
        Stepped-Keeps ib k i j 0 0 fs.sbi fs.buffer (dropped ib j fs).sbi (dropped ib j fs).buffer
          v.live (drop-Stepped empty)

    drop-IsInner :
        size fs.buffer ib j ≡ 0
        → IsInner ib k i (j + 1) left (removed + 1) (dropped ib j fs).sbi (dropped ib j fs).buffer
    drop-IsInner empty =
        subst
          (λ l.
            IsInner ib k i (j + 1) l (removed + 1) (dropped ib j fs).sbi (dropped ib j fs).buffer)
          (omega arith)
          (step-IsInner ib k i j left removed fs.sbi fs.buffer v 0 0 (dropped ib j fs).sbi
            (dropped ib j fs).buffer (omega arith) drop-spare (drop-Stepped empty) refl)

    module _ (readable : (b : ℕ) → b < fs.sbi.nr_blocks → bread_ok b ≡ true) where
      moves : IsMove ib k i j left fs (move_bytes ib i j left fs)
      moves =
          move_bytes-IsMove ib i j left k fs
            (ready ib k i j left removed fs.sbi fs.buffer v (min left (size fs.buffer ib j)) below
              (omega arith) (omega arith))
            v.spare readable

      moves-Keeps :
          Keeps ib k fs.sbi fs.buffer
            (move_bytes ib i j left fs).1.sbi
            (move_bytes ib i j left fs).1.buffer
      moves-Keeps =
          Stepped-Keeps ib k i j (min left (size fs.buffer ib j)) moves.nb fs.sbi fs.buffer
            (move_bytes ib i j left fs).1.sbi (move_bytes ib i j left fs).1.buffer v.live
            moves.stepped

      moves-IsInner :
          moves.nb ≡ 0
          → IsInner ib k i
              (j + 1)
              (left - min left (size fs.buffer ib j))
              (removed + 1)
              (move_bytes ib i j left fs).1.sbi
              (move_bytes ib i j left fs).1.buffer
      moves-IsInner z =
          step-IsInner ib k i j left removed fs.sbi fs.buffer v (min left (size fs.buffer ib j))
            moves.nb (move_bytes ib i j left fs).1.sbi (move_bytes ib i j left fs).1.buffer
            (omega arith) moves.spare moves.stepped z

      moves-IsOuter :
          moves.nb ≢ 0
          → IsOuter ib k j removed
              (move_bytes ib i j left fs).1.sbi
              (move_bytes ib i j left fs).1.buffer
      moves-IsOuter n =
          step-IsOuter ib k i j left removed fs.sbi fs.buffer v (min left (size fs.buffer ib j))
            moves.nb (move_bytes ib i j left fs).1.sbi (move_bytes ib i j left fs).1.buffer
            (omega arith) moves.spare moves.stepped n (omega (arith, moves.rest n))

      moves-full :
          moves.nb ≢ 0 → (size (move_bytes ib i j left fs).1.buffer ib i == max_block_size) ≡ true
      moves-full n = ground (arith, moves.stepped.sizes i, moves.rest n, v.room)

  pub fill_entry-IsFilled :
      (ib k i n j left removed : ℕ) (fs : Fs)
      → ((b : ℕ) → b < fs.sbi.nr_blocks → bread_ok b ≡ true)
      → IsInner ib k i j left removed fs.sbi fs.buffer
      → n + j ≡ k
      → IsFilled ib k i fs (fill_entry ib i n j left removed fs)
  unfolding fill_entry dropped
  fill_entry-IsFilled ib k i zero j left removed fs readable v e = record {
    j = j;
    removed = removed;
    result = refl;
    behind = v.behind;
    outer = IsInner-end ib k i j left removed fs.sbi fs.buffer v (omega (arith, e));
    keeps = Keeps-refl ib k fs.sbi fs.buffer v.live;
    inodes = refl;
  }
  fill_entry-IsFilled ib k i (suc n) j left removed fs readable v e =
      elim (Bool-cases (size fs.buffer ib j == 0)) [
        | inl empty ↦
            let d = drop-Keeps ib k i j left removed fs v below (ground arith) in
            rw empty (
              IsFilled-after ib k i fs (dropped ib j fs) _ d
                (drop-inodes ib k i j left removed fs v below)
                (fill_entry-IsFilled ib k i n (j + 1) left (removed + 1) (dropped ib j fs)
                  (λ b p. readable b (omega (arith, d.same_blocks)))
                  (drop-IsInner ib k i j left removed fs v below (ground arith))
                  (omega (arith, e))))
        | inr bytes ↦
            let r = moves ib k i j left removed fs v below readable in
            let d = moves-Keeps ib k i j left removed fs v below readable in
            rw (bytes, r.result)
              (IsFilled-after ib k i fs moved.1 _ d r.inodes (elim (Bool-cases (r.nb == 0)) [
                | inl z ↦ rw z (
                    fill_entry-IsFilled ib k i n (j + 1) (left - min left (size fs.buffer ib j))
                      (removed + 1) moved.1 (λ b p. readable b (omega (arith, d.same_blocks)))
                      (moves-IsInner ib k i j left removed fs v below readable (ground arith))
                      (omega (arith, e)))
                | inr new ↦
                    rw (new, moves-full ib k i j left removed fs v below readable (ground arith))
                      (record {
                        j = j;
                        removed = removed;
                        result = refl;
                        behind = v.behind;
                        outer =
                            moves-IsOuter ib k i j left removed fs v below readable (ground arith);
                        keeps = Keeps-refl ib k moved.1.sbi moved.1.buffer d.live;
                        inodes = refl;
                      })
              ]))
      ]
    where
      below : j < k
      below = omega (arith, e)

      moved : Next (ℕ × Bool) × Fs
      moved = move_bytes ib i j left fs
