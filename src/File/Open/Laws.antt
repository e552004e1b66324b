-- ===== src/File/Open/Laws.antt =====
-- What truncation at open frees.
use pnl.Base.{
  ℕ, zero, suc, ◌+◌, ◌*◌, ◌≤◌, ◌<◌, ◌≡◌, ◌≢◌, refl, true, false, Option, some, arith, ◌==◌, inl,
  inr, Bool-cases, ap, sym,
}
use pnl.Bitmap.{put_block}
use pnl.Bitmap.Consistent.{IsConsistent}
use pnl.Bitmap.Put.{BlockPut, put_block_lem, put_block_beyond}
use pnl.Kernel.{BitmapApi}
use pnl.Memory.{Bytes, store32}
use pnl.Memory.Laws.{load-store}
use pnl.Superblock.{SbInfo}
use pnl.File.Content.{entry}
use pnl.File.Open.{put_entries}

-- The entries from `lo` up to `hi` are cleared, and the others kept.
pub record Cleared (lo hi : ℕ) (old new : Bytes) : Type 0 where
  pub cleared : (j : ℕ) → lo ≤ j → j < hi → entry new j ≡ 0
  pub below : (j : ℕ) → j < lo → entry new j ≡ entry old j
  pub above : (j : ℕ) → hi ≤ j → entry new j ≡ entry old j

-- The entries from `lo` up to `hi` are the numbers of distinct blocks of the device that are in use.
pub record Owned (sbi : SbInfo) (index : Bytes) (lo hi : ℕ) : Type 0 where
  pub in_range : (j : ℕ) → lo ≤ j → j < hi → entry index j < sbi.nr_blocks
  pub nonzero : (j : ℕ) → lo ≤ j → j < hi → entry index j ≢ 0
  pub in_use : (j : ℕ) → lo ≤ j → j < hi → sbi.bfree_bitmap (entry index j) ≡ false
  pub distinct : (i j : ℕ) → lo ≤ i → i < j → j < hi → entry index i ≢ entry index j

Cleared-cons :
    (lo hi : ℕ) (old new : Bytes)
    → lo < hi
    → Cleared (lo + 1) hi (store32 old (4 * lo) 0) new
    → Cleared lo hi old new
Cleared-cons lo hi old new lt c = record {
  cleared = λ j p q. ground (arith, c.cleared j, c.below j, load-store old lo j 0);
  below = λ j p. ground (arith, c.below j, load-store old lo j 0);
  above = λ j p. ground (arith, c.above j, load-store old lo j 0);
}

module _ ⦃api : BitmapApi⦄ where
  Owned-tail :
      (sbi : SbInfo) (index : Bytes) (lo hi : ℕ)
      → lo < hi
      → IsConsistent sbi
      → Owned sbi index lo hi
      → Owned (put_block sbi (entry index lo)) (store32 index (4 * lo) 0) (lo + 1) hi
  Owned-tail sbi index lo hi lt c o = record {
    in_range = λ j p q. ground (arith, o.in_range j, load-store index lo j 0, blocks);
    nonzero = λ j p q. ground (arith, o.nonzero j, load-store index lo j 0);
    in_use = λ j p q. ground (
      arith,
      o.in_use j,
      o.distinct lo j,
      load-store index lo j 0,
      b.changes (entry (store32 index (4 * lo) 0) j),
    );
    distinct = λ i j p q r.
        ground (arith, o.distinct i j, load-store index lo i 0, load-store index lo j 0);
  }
    where
      b : BlockPut sbi (entry index lo) (put_block sbi (entry index lo))
      b =
          put_block_lem sbi (entry index lo) c (o.nonzero lo (omega arith) lt)
            (o.in_range lo (omega arith) lt) (o.in_use lo (omega arith) lt)

      blocks : (put_block sbi (entry index lo)).nr_blocks ≡ sbi.nr_blocks
      blocks = ap (λ (s : SbInfo). s.nr_blocks) (sym b.rest)

  -- What the loop does to the entries from `lo` up to `hi`.
  pub record Freed (lo hi : ℕ) (sbi : SbInfo) (index : Bytes) (r : Option (SbInfo × Bytes))
      : Type 0 where
    pub sbi' : SbInfo
    pub index' : Bytes
    pub result : r ≡ some (sbi', index')
    pub entries : Cleared lo hi index index'
    pub consistent : IsConsistent sbi'
    pub counter : sbi'.nr_free_blocks + lo ≡ sbi.nr_free_blocks + hi
    pub free : (j : ℕ) → lo ≤ j → j < hi → sbi'.bfree_bitmap (entry index j) ≡ true
    pub kept : (b : ℕ) → sbi.bfree_bitmap b ≡ true → sbi'.bfree_bitmap b ≡ true

  Freed-cons :
      (k lo hi : ℕ) (sbi : SbInfo) (index : Bytes)
      → lo < hi
      → IsConsistent sbi
      → Owned sbi index lo hi
      → Freed
          (lo + 1)
          hi
          (put_block sbi (entry index lo))
          (store32 index (4 * lo) 0)
          (put_entries k (lo + 1) (put_block sbi (entry index lo), store32 index (4 * lo) 0))
      → Freed lo hi sbi index (put_entries (suc k) lo (sbi, index))
  unfolding put_entries
  Freed-cons k lo hi sbi index lt c o f = record {
    sbi' = f.sbi';
    index' = f.index';
    result = ground (arith, f.result, o.nonzero lo);
    entries = Cleared-cons lo hi index f.index' lt f.entries;
    consistent = f.consistent;
    counter = omega (arith, f.counter, b.counter);
    free = λ j p q. ground (
      arith,
      f.free j,
      f.kept (entry index lo),
      b.changes (entry index lo),
      load-store index lo j 0,
    );
    kept = λ x p. ground (arith, f.kept x, b.changes x);
  }
    where
      b : BlockPut sbi (entry index lo) (put_block sbi (entry index lo))
      b =
          put_block_lem sbi (entry index lo) c (o.nonzero lo (omega arith) lt)
            (o.in_range lo (omega arith) lt) (o.in_use lo (omega arith) lt)

  pub put_entries-Freed :
      (k lo hi : ℕ) (sbi : SbInfo) (index : Bytes)
      → lo ≤ hi
      → hi < lo + k
      → IsConsistent sbi
      → Owned sbi index lo hi
      → entry index hi ≡ 0
      → Freed lo hi sbi index (put_entries k lo (sbi, index))
  unfolding put_entries
  put_entries-Freed zero lo hi sbi index le lt c o z = absurd (omega arith)
  put_entries-Freed (suc k) lo hi sbi index le lt c o z = elim (Bool-cases (lo == hi)) [
    | inl e ↦
        let end : lo ≡ hi = ground arith in
        rw (end, z)
          (record {
            sbi' = sbi;
            index' = index;
            result = refl;
            entries = record {
              cleared = λ j p q. absurd (omega arith);
              below = λ j p. refl;
              above = λ j p. refl;
            };
            consistent = c;
            counter = refl;
            free = λ j p q. absurd (omega arith);
            kept = λ b p. p;
          })
    | inr e ↦
        let more : lo < hi = ground arith in
        Freed-cons k lo hi sbi index more c o (
          put_entries-Freed k (lo + 1) hi (put_block sbi (entry index lo))
            (store32 index (4 * lo) 0) (omega arith) (omega arith)
            (put_block_lem sbi (entry index lo) c (o.nonzero lo (omega arith) more)
              (o.in_range lo (omega arith) more) (o.in_use lo (omega arith) more)).consistent
            (Owned-tail sbi index lo hi more c o) (ground (arith, load-store index lo hi 0)))
  ]

  -- The loop where every entry it meets is beyond the bitmap.
  pub record Lost (lo hi : ℕ) (sbi : SbInfo) (index : Bytes) (r : Option (SbInfo × Bytes))
      : Type 0 where
    pub index' : Bytes
    pub result : r ≡ some (sbi, index')
    pub entries : Cleared lo hi index index'

  Lost-cons :
      (k lo hi : ℕ) (sbi : SbInfo) (index : Bytes)
      → lo < hi
      → sbi.nr_blocks < entry index lo
      → Lost
          (lo + 1)
          hi
          sbi
          (store32 index (4 * lo) 0)
          (put_entries k (lo + 1) (sbi, store32 index (4 * lo) 0))
      → Lost lo hi sbi index (put_entries (suc k) lo (sbi, index))
  unfolding put_entries
  Lost-cons k lo hi sbi index lt beyond f = record {
    index' = f.index';
    result = rw (put_block_beyond sbi (entry index lo) beyond) (ground (arith, f.result));
    entries = Cleared-cons lo hi index f.index' lt f.entries;
  }

  pub put_entries-Lost :
      (k lo hi : ℕ) (sbi : SbInfo) (index : Bytes)
      → lo ≤ hi
      → hi < lo + k
      → ((j : ℕ) → lo ≤ j → j < hi → sbi.nr_blocks < entry index j)
      → entry index hi ≡ 0
      → Lost lo hi sbi index (put_entries k lo (sbi, index))
  unfolding put_entries
  put_entries-Lost zero lo hi sbi index le lt beyond z = absurd (omega arith)
  put_entries-Lost (suc k) lo hi sbi index le lt beyond z = elim (Bool-cases (lo == hi)) [
    | inl e ↦
        let end : lo ≡ hi = ground arith in
        rw (end, z)
          (record {
            index' = index;
            result = refl;
            entries = record {
              cleared = λ j p q. absurd (omega arith);
              below = λ j p. refl;
              above = λ j p. refl;
            };
          })
    | inr e ↦
        let more : lo < hi = ground arith in
        Lost-cons k lo hi sbi index more (beyond lo (omega arith) more) (
          put_entries-Lost k (lo + 1) hi sbi (store32 index (4 * lo) 0) (omega arith) (omega arith)
            (λ j p q. ground (arith, beyond j, load-store index lo j 0))
            (ground (arith, load-store index lo hi 0)))
  ]
