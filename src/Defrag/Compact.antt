-- ===== src/Defrag/Compact.antt =====
-- The first loop of the defragmentation as a whole: it keeps the content of the file and the blocks
-- of others, and leaves the bytes packed.
use pnl.Base.{
  ℕ, zero, suc, ◌+◌, ◌-◌, ◌<◌, ◌≡◌, ◌≢◌, inl, inr, refl, ◌∙◌, true, arith, ◌==◌, leb, Bool-cases,
}
use pnl.Bitmap.Count.{count-none}
use pnl.Defrag.{Next, go, fill_entry, compact_from}
use pnl.Defrag.Live.{number, size, IsLive, Keeps, Keeps-refl, Keeps-trans}
use pnl.Fs.{Fs, mark_buffer_dirty, max_block_size}
use pnl.Kernel.{BitmapApi, DeviceApi}
use pnl.Defrag.Rounds.{IsPacked, holes, IsOuter, IsOuter-IsInner, IsOuter-full}
use pnl.Defrag.Fill.{IsFilled, fill_entry-IsFilled}

-- What the outer loop leaves, for the state `fs` before it.
pub record IsCompact (ib k : ℕ) (fs : Fs) (r : Next ℕ × Fs) : Type 0 where
  pub removed : ℕ
  pub result : r.0 ≡ go removed
  pub keeps : Keeps ib k fs.sbi fs.buffer r.1.sbi r.1.buffer
  pub packed : IsPacked ib k k r.1.buffer
  pub counted : holes r.1.buffer ib k ≡ removed
  pub inodes : r.1.inode ≡ fs.inode

IsCompact-after :
    (ib k : ℕ) (fs mid : Fs) (r : Next ℕ × Fs)
    → Keeps ib k fs.sbi fs.buffer mid.sbi mid.buffer
    → mid.inode ≡ fs.inode
    → IsCompact ib k mid r
    → IsCompact ib k fs r
IsCompact-after ib k fs mid r keeps inodes v = record {
  removed = v.removed;
  result = v.result;
  keeps = Keeps-trans ib k fs.sbi mid.sbi r.1.sbi fs.buffer mid.buffer r.1.buffer keeps v.keeps;
  packed = v.packed;
  counted = v.counted;
  inodes = v.inodes ∙ inodes;
}

module _ ⦃api : BitmapApi⦄ ⦃dev : DeviceApi⦄ where
  open dev use {bread_ok}

  -- The inner loop of a round.
  abbrev round : (ib k i removed : ℕ) → Fs → Next (ℕ × ℕ) × Fs
  round ib k i removed fs =
      fill_entry ib i (k - (i + 1)) (i + 1) (max_block_size - size fs.buffer ib i) removed fs

  filled :
      (ib k i removed : ℕ) (fs : Fs)
      → ((b : ℕ) → b < fs.sbi.nr_blocks → bread_ok b ≡ true)
      → IsOuter ib k i removed fs.sbi fs.buffer
      → i < k
      → IsFilled ib k i fs (round ib k i removed fs)
  filled ib k i removed fs readable v below =
      fill_entry-IsFilled ib k i (k - (i + 1)) (i + 1) (max_block_size - size fs.buffer ib i)
        removed fs readable (IsOuter-IsInner ib k i removed fs.sbi fs.buffer v below) (omega arith)

  compact_from-IsCompact_from :
      (fuel ib k i removed : ℕ) (fs : Fs)
      → ((b : ℕ) → b < fs.sbi.nr_blocks → bread_ok b ≡ true)
      → IsOuter ib k i removed fs.sbi fs.buffer
      → k < fuel + i
      → 0 < fuel
      → IsCompact ib k fs (compact_from fuel ib k i removed fs)
  unfolding compact_from
  compact_from-IsCompact_from zero ib k i removed fs readable v p q = absurd (omega arith)
  compact_from-IsCompact_from (suc fuel) ib k i removed fs readable v p q =
      elim (Bool-cases (leb k i)) [
        | inl over ↦ rw over (record {
          removed = removed;
          result = refl;
          keeps = Keeps-refl ib k fs.sbi fs.buffer v.live;
          packed = λ l l' a b c n n'. v.packed l l' (ground arith) b c n n';
          counted = v.counted;
          inodes = refl;
        })
        | inr more ↦ elim (Bool-cases (max_block_size - size fs.buffer ib i == 0)) [
          | inl full ↦
              rw (more, full)
                (compact_from-IsCompact_from fuel ib k (i + 1) removed fs readable
                  (IsOuter-full ib k i removed fs.sbi fs.buffer v (ground arith)) (omega arith)
                  (ground arith))
          | inr space ↦
              let w = filled ib k i removed fs readable v (ground arith) in
              rw
                (
                  more,
                  space,
                  readable (number fs.buffer ib i) (v.live.in_range i (ground arith)),
                  w.result,
                )
                (IsCompact-after ib k fs
                  (mark_buffer_dirty (round ib k i removed fs).1 (number fs.buffer ib i)) _ w.keeps
                  w.inodes
                  (compact_from-IsCompact_from fuel ib k w.j w.removed
                    (mark_buffer_dirty (round ib k i removed fs).1 (number fs.buffer ib i))
                    (λ b p. readable b (omega (arith, w.keeps.same_blocks))) w.outer
                    (omega (arith, w.behind)) (ground arith)))
        ]
      ]

  -- The first loop of the defragmentation, on a file whose `k` entries all hold a block, each a
  -- different used block of the device other than the index block, which is used, too: on a
  -- consistent superblock with at most 2^20 blocks, one of them free at least, and all readable, the
  -- loop runs to its end. The number of bytes of the file and each of its bytes are what they were;
  -- the entries are again different used blocks on a consistent superblock; every used block of
  -- another owner keeps its bytes and stays in use; no inode changes; the entries with bytes are
  -- full, as long as bytes follow; and the count of removed blocks is the number of cleared entries.
  pub compact_from-IsCompact :
      (ib k : ℕ) (fs : Fs)
      → IsLive ib k fs.sbi fs.buffer
      → ((l : ℕ) → l < k → number fs.buffer ib l ≢ 0)
      → 0 < fs.sbi.nr_free_blocks
      → ((b : ℕ) → b < fs.sbi.nr_blocks → bread_ok b ≡ true)
      → IsCompact ib k fs (compact_from (k + 1) ib k 0 0 fs)
  compact_from-IsCompact ib k fs live real spare readable =
      compact_from-IsCompact_from (k + 1) ib k 0 0 fs readable start (omega arith) (omega arith)
    where
      start : IsOuter ib k 0 0 fs.sbi fs.buffer
      start = record {
        live = live;
        spare = spare;
        ahead = λ l p q. real l q;
        packed = λ l l' p q h n n'. absurd (omega arith);
        counted = count-none (λ l. number fs.buffer ib l == 0) k (λ l p. ground (arith, real l p));
      }
