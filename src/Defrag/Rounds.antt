-- ===== src/Defrag/Rounds.antt =====
-- What holds between the rounds of the two nested loops of the defragmentation, and that each step
-- of `Step` keeps it.
use pnl.Base.{ℕ, ◌+◌, ◌-◌, ◌≤◌, ◌<◌, ◌≡◌, ◌≢◌, arith, ◌==◌, if◌then◌else◌}
use pnl.Bitmap.Count.{count, count-update}
use pnl.Defrag.Live.{number, size, IsLive, Stepped, Stepped-Keeps}
use pnl.Defrag.Step.{IsReady}
use pnl.File.Content.{entry}
use pnl.File.Write.Split.{size-le}
use pnl.Fs.{max_block_size}
use pnl.Memory.{Bytes}
use pnl.Superblock.{SbInfo}

-- The number of entries that hold no block.
abbrev pub holes : (ℕ → Bytes) → ℕ → ℕ → ℕ
holes buffer ib k = count (λ l. number buffer ib l == 0) k

-- Of the first `i` entries, those with bytes are full, as long as bytes follow.
abbrev pub IsPacked : (ib k i : ℕ) (buffer : ℕ → Bytes) → Type 0
IsPacked ib k i buffer =
    (l l' : ℕ)
    → l < i
    → l < l'
    → l' < k
    → size buffer ib l ≢ 0
    → size buffer ib l' ≢ 0
    → size buffer ib l ≡ max_block_size

-- Between two rounds of the outer loop, at the entry `i`.
pub record IsOuter (ib k i removed : ℕ) (sbi : SbInfo) (buffer : ℕ → Bytes) : Type 0 where
  pub live : IsLive ib k sbi buffer
  pub spare : 0 < sbi.nr_free_blocks
  pub ahead : (l : ℕ) → i ≤ l → l < k → number buffer ib l ≢ 0
  pub packed : IsPacked ib k i buffer
  pub counted : holes buffer ib k ≡ removed

-- Between two rounds of the inner loop, at the entry `j`.
pub record IsInner (ib k i j left removed : ℕ) (sbi : SbInfo) (buffer : ℕ → Bytes) : Type 0 where
  pub live : IsLive ib k sbi buffer
  pub spare : 0 < sbi.nr_free_blocks
  pub behind : i < j
  pub below : i < k
  pub real_i : number buffer ib i ≢ 0
  pub ahead : (l : ℕ) → j ≤ l → l < k → number buffer ib l ≢ 0
  pub gap : (l : ℕ) → i < l → l < j → size buffer ib l ≡ 0
  pub room : left + size buffer ib i ≡ max_block_size
  pub packed : IsPacked ib k i buffer
  pub counted : holes buffer ib k ≡ removed

module _ (ib k i j left removed : ℕ) (sbi : SbInfo) (buffer : ℕ → Bytes)
    (v : IsInner ib k i j left removed sbi buffer) where
  -- At the end of the file.
  pub IsInner-end : j ≡ k → IsOuter ib k j removed sbi buffer
  IsInner-end e = record {
    live = v.live;
    spare = v.spare;
    ahead = λ l p q. absurd (omega (arith, e));
    packed = λ l l' p q h n n'. ground (arith, v.packed l l', v.gap l, v.gap l');
    counted = v.counted;
  }

  pub ready : (m : ℕ) → j < k → m ≤ size buffer ib j → m ≤ left → IsReady ib k i j m sbi buffer
  ready m below le le' = record {
    live = v.live;
    behind = v.behind;
    below = below;
    real_i = v.real_i;
    real_j = v.ahead j (omega arith) below;
    gap = v.gap;
    enough = le;
    fits = omega (arith, v.room);
  }

  module _ (m nb : ℕ) (sbi' : SbInfo) (buffer' : ℕ → Bytes) (le : m ≤ left)
      (spare' : 0 < sbi'.nr_free_blocks) (s : Stepped ib k i j m nb sbi buffer sbi' buffer') where
    step-IsLive : IsLive ib k sbi' buffer'
    step-IsLive = (Stepped-Keeps ib k i j m nb sbi buffer sbi' buffer' v.live s).live

    step-packed : IsPacked ib k i buffer'
    step-packed l l' p q h n n' = ground (
      arith,
      s.sizes l,
      s.sizes l',
      s.behind,
      s.below,
      s.enough,
      v.packed l i,
      v.packed l j,
      v.packed l l',
    )

    step-holes : holes buffer' ib k ≡ holes buffer ib k + (if nb == 0 then 1 else 0)
    step-holes = ground (
      arith,
      count-update (λ l. number buffer ib l == 0) (λ l. number buffer' ib l == 0) j (nb == 0)
          (λ l. ground (arith, s.numbers l)) k s.below,
      s.real_j,
    )

    step-counted : nb ≡ 0 → holes buffer' ib k ≡ removed + 1
    step-counted z = ground (arith, step-holes, v.counted)

    step-counted_new : nb ≢ 0 → holes buffer' ib k ≡ removed
    step-counted_new z = ground (arith, step-holes, v.counted)

    -- The entry `j` is cleared.
    pub step-IsInner : nb ≡ 0 → IsInner ib k i (j + 1) (left - m) (removed + 1) sbi' buffer'
    step-IsInner z = record {
      live = step-IsLive;
      spare = spare';
      behind = omega (arith, v.behind);
      below = v.below;
      real_i = ground (arith, s.numbers i, s.real_i, s.behind);
      ahead = λ l p q. ground (arith, s.numbers l, v.ahead l);
      gap = λ l p q. ground (arith, s.sizes l, s.all z, v.gap l);
      room = ground (arith, s.sizes i, v.room);
      packed = step-packed;
      counted = step-counted z;
    }

    -- The entry `i` is full.
    pub step-IsOuter : nb ≢ 0 → m ≡ left → IsOuter ib k j removed sbi' buffer'
    step-IsOuter n e = record {
      live = step-IsLive;
      spare = spare';
      ahead = λ l p q. ground (arith, s.numbers l, v.ahead l);
      packed = λ l l' p q h n n'.
          ground (arith, step-packed l l', s.sizes l, s.sizes l', v.gap l, v.room);
      counted = step-counted_new n;
    }

module _ (ib k i removed : ℕ) (sbi : SbInfo) (buffer : ℕ → Bytes)
    (v : IsOuter ib k i removed sbi buffer) where
  -- The entry `i` is full.
  pub IsOuter-full : max_block_size ≤ size buffer ib i → IsOuter ib k (i + 1) removed sbi buffer
  IsOuter-full full = record {
    live = v.live;
    spare = v.spare;
    ahead = λ l p q. v.ahead l (omega arith) q;
    packed = λ l l' p q h n n'. ground (arith, v.packed l l', size-le (entry (buffer ib) l));
    counted = v.counted;
  }

  -- The inner loop starts.
  pub IsOuter-IsInner :
      i < k → IsInner ib k i (i + 1) (max_block_size - size buffer ib i) removed sbi buffer
  IsOuter-IsInner below = record {
    live = v.live;
    spare = v.spare;
    behind = omega arith;
    below = below;
    real_i = v.ahead i (omega arith) below;
    ahead = λ l p q. v.ahead l (omega arith) q;
    gap = λ l p q. absurd (omega arith);
    room = omega (arith, size-le (entry (buffer ib) i));
    packed = v.packed;
    counted = v.counted;
  }
