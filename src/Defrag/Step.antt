-- ===== src/Defrag/Step.antt =====
-- The three steps of the inner loop of the defragmentation: an empty entry is dropped, an entry is
-- emptied, and the bytes that do not fit go to a new block.
use pnl.Base.{
  ℕ, ◌+◌, ◌-◌, ◌*◌, ◌^◌, ◌≤◌, ◌<◌, ◌≡◌, ◌≢◌, refl, ap, ◌∙◌, arith, ◌==◌, if◌then◌else◌, sym,
}
use pnl.Bitmap.Consistent.{BlockTaken}
use pnl.Bitmap.Put.{BlockPut}
use pnl.Block.{get_block_number, get_block_size}
use pnl.Defrag.Entry.{entry-cleared, entry-numbered}
use pnl.Defrag.Live.{number, size, IsLive, Stepped}
use pnl.File.Content.{entry}
use pnl.File.Write.{set_entry_size, set_entry_number}
use pnl.File.Write.Fill.{sized_entry}
use pnl.File.Write.Split.{size-le}
use pnl.Fs.{max_block_size}
use pnl.Memory.{Bytes, store32, memmove}
use pnl.Superblock.{SbInfo}

-- What all three steps start from.
pub record IsReady (ib k i j m : ℕ) (sbi : SbInfo) (buffer : ℕ → Bytes) : Type 0 where
  pub live : IsLive ib k sbi buffer
  pub behind : i < j
  pub below : j < k
  pub real_i : number buffer ib i ≢ 0
  pub real_j : number buffer ib j ≢ 0
  pub gap : (l : ℕ) → i < l → l < j → size buffer ib l ≡ 0
  pub enough : m ≤ size buffer ib j
  pub fits : size buffer ib i + m ≤ max_block_size

module _ (ib k i j m : ℕ) (sbi : SbInfo) (buffer : ℕ → Bytes)
    (r : IsReady ib k i j m sbi buffer) where
  pub apart_i : number buffer ib i ≢ ib
  apart_i = r.live.apart i (omega (arith, r.behind, r.below)) r.real_i

  pub apart_j : number buffer ib j ≢ ib
  apart_j = r.live.apart j r.below r.real_j

  pub apart_ij : number buffer ib i ≢ number buffer ib j
  apart_ij e =
      omega
        (arith, r.behind, r.live.distinct i j (omega (arith, r.behind, r.below)) r.below r.real_i e)

  -- A block that was free is no block of the file.
  module _ (nb : ℕ) (mid : SbInfo) (take : BlockTaken sbi nb mid) where
    pub new_i : number buffer ib i ≢ nb
    new_i e = ground (
      arith,
      r.live.used i (omega (arith, r.behind, r.below)),
      take.takes.was_free,
      ap sbi.bfree_bitmap e,
    )

    pub new_j : number buffer ib j ≢ nb
    new_j e = ground (arith, r.live.used j r.below, take.takes.was_free, ap sbi.bfree_bitmap e)

    pub new_index : nb ≢ ib
    new_index e = ground (arith, r.live.index_used, take.takes.was_free, ap sbi.bfree_bitmap e)

  -- The index block of an emptied entry.
  entry-emptied :
      (l : ℕ)
      → let index = store32 (set_entry_size (buffer ib) i (size buffer ib i + m)) (4 * j) 0 in
        (get_block_number (entry index l) ≡ (if l == j then 0 else number buffer ib l))
        × (get_block_size (entry index l)
            ≡ (if l == i then size buffer ib i + m else if l == j then 0 else size buffer ib l))
  entry-emptied l =
      let grown = set_entry_size (buffer ib) i (size buffer ib i + m) in
      let a = entry-cleared grown j l in
      let b = sized_entry (buffer ib) i (size buffer ib i + m) l in
      (ground (arith, a.0, b.0), ground (arith, a.1, b.1, r.fits, r.behind))

  -- The index block of an entry with a new block.
  entry-split :
      (nb l : ℕ)
      → nb < 2 ^ 20
      → let grown = set_entry_size (buffer ib) i (size buffer ib i + m) in
        let index = set_entry_number (set_entry_size grown j (size buffer ib j - m)) j nb in
        (get_block_number (entry index l) ≡ (if l == j then nb else number buffer ib l))
        × (get_block_size (entry index l) ≡ (
            if l == i
            then size buffer ib i + m
            else if l == j
            then size buffer ib j - m
            else size buffer ib l))
  entry-split nb l h =
      let grown = set_entry_size (buffer ib) i (size buffer ib i + m) in
      let a = entry-numbered (set_entry_size grown j (size buffer ib j - m)) j nb l in
      let b = sized_entry grown j (size buffer ib j - m) l in
      let d = sized_entry (buffer ib) i (size buffer ib i + m) l in
      (
        ground (arith, a.0, b.0, d.0),
        ground (arith, a.1, b.1, d.1, r.fits, r.behind, size-le (entry (buffer ib) j)),
      )

  -- The bytes that arrive in the block of the entry `i`.
  module _ (block : Bytes)
      (e : block
        ≡ memmove
            (buffer (number buffer ib i))
            (size buffer ib i)
            (buffer (number buffer ib j))
            0
            m) where
    arrived-kept : (a : ℕ) → a < size buffer ib i → block a ≡ buffer (number buffer ib i) a
    arrived-kept a h = ap (λ (b : Bytes). b a) e ∙ unfold memmove in ground arith

    arrived-moved : (a : ℕ) → a < m → block (size buffer ib i + a) ≡ buffer (number buffer ib j) a
    arrived-moved a h =
        ap (λ (b : Bytes). b (size buffer ib i + a)) e
        ∙ unfold memmove in ground (arith, ap (buffer (number buffer ib j)) back)
      where
        back : size buffer ib i + a - size buffer ib i ≡ a
        back = omega arith

  -- The entry `j` has lost its last bytes.
  pub emptied-Stepped :
      (sbi' : SbInfo) (buffer' : ℕ → Bytes)
      → m ≡ size buffer ib j
      → BlockPut sbi (number buffer ib j) sbi'
      → buffer' ib ≡ store32 (set_entry_size (buffer ib) i (size buffer ib i + m)) (4 * j) 0
      → ((b : ℕ)
          → b ≢ ib
          → buffer' b ≡ (
              if b == number buffer ib i
              then memmove
                  (buffer (number buffer ib i))
                  (size buffer ib i)
                  (buffer (number buffer ib j))
                  0
                  m
              else buffer b))
      → Stepped ib k i j m 0 sbi buffer sbi' buffer'
  emptied-Stepped sbi' buffer' m_all put here there = record {
    behind = r.behind;
    below = r.below;
    real_i = r.real_i;
    real_j = r.real_j;
    gap = r.gap;
    enough = r.enough;
    all = λ e. m_all;
    numbers = λ l. ap (λ index. get_block_number (entry index l)) here ∙ (entry-emptied l).0;
    sizes = λ l.
        ap (λ index. get_block_size (entry index l)) here
        ∙ ground (arith, (entry-emptied l).1, m_all);
    nb_in_range = omega (arith, r.live.in_range j r.below);
    nb_free = λ n. absurd (n refl);
    bits = λ b. ground (arith, put.changes b, r.live.consistent.block_zero);
    consistent = put.consistent;
    same_blocks = ground (arith, put.rest);
    others = λ b n n' z. ground (arith, there b);
    kept = arrived-kept (buffer' (number buffer ib i)) into;
    moved = arrived-moved (buffer' (number buffer ib i)) into;
    left = λ a h. absurd (omega (arith, m_all));
  }
    where
      into :
          buffer' (number buffer ib i)
          ≡ memmove
              (buffer (number buffer ib i))
              (size buffer ib i)
              (buffer (number buffer ib j))
              0
              m
      into = ground (arith, there (number buffer ib i), apart_i)

  -- The entry `j` had no bytes.
  pub dropped-Stepped :
      (sbi' : SbInfo) (buffer' : ℕ → Bytes)
      → m ≡ 0
      → size buffer ib j ≡ 0
      → BlockPut sbi (number buffer ib j) sbi'
      → buffer' ib ≡ store32 (buffer ib) (4 * j) 0
      → ((b : ℕ) → b ≢ ib → buffer' b ≡ buffer b)
      → Stepped ib k i j m 0 sbi buffer sbi' buffer'
  dropped-Stepped sbi' buffer' none empty put here there = record {
    behind = r.behind;
    below = r.below;
    real_i = r.real_i;
    real_j = r.real_j;
    gap = r.gap;
    enough = r.enough;
    all = λ e. none ∙ sym empty;
    numbers = λ l.
        ap (λ index. get_block_number (entry index l)) here ∙ (entry-cleared (buffer ib) j l).0;
    sizes = λ l.
        ap (λ index. get_block_size (entry index l)) here
        ∙ ground (arith, (entry-cleared (buffer ib) j l).1, none, empty, same l);
    nb_in_range = omega (arith, r.live.in_range j r.below);
    nb_free = λ n. absurd (n refl);
    bits = λ b. ground (arith, put.changes b, r.live.consistent.block_zero);
    consistent = put.consistent;
    same_blocks = ground (arith, put.rest);
    others = λ b n n' z. there b n;
    kept = λ a h. ap (λ (b : Bytes). b a) (there (number buffer ib i) apart_i);
    moved = λ a h. absurd (omega (arith, none));
    left = λ a h. absurd (omega (arith, empty));
  }
    where
      same : (l : ℕ) → l ≡ i → size buffer ib l ≡ size buffer ib i
      same l e = ap (size buffer ib) e

  -- The bytes of the entry `j` that are left went to the new block `nb`.
  pub split-Stepped :
      (nb : ℕ) (mid sbi' : SbInfo) (buffer' : ℕ → Bytes)
      → BlockTaken sbi nb mid
      → BlockPut mid (number buffer ib j) sbi'
      → buffer' ib
        ≡ set_entry_number
            (set_entry_size
              (set_entry_size (buffer ib) i (size buffer ib i + m))
              j
              (size buffer ib j - m))
            j
            nb
      → ((b : ℕ)
          → b ≢ ib
          → buffer' b ≡ (
              if b == nb
              then memmove (buffer nb) 0 (buffer (number buffer ib j)) m (size buffer ib j - m)
              else if b == number buffer ib i
              then memmove
                  (buffer (number buffer ib i))
                  (size buffer ib i)
                  (buffer (number buffer ib j))
                  0
                  m
              else buffer b))
      → Stepped ib k i j m nb sbi buffer sbi' buffer'
  split-Stepped nb mid sbi' buffer' take put here there = record {
    behind = r.behind;
    below = r.below;
    real_i = r.real_i;
    real_j = r.real_j;
    gap = r.gap;
    enough = r.enough;
    all = λ e. absurd (take.takes.nonzero e);
    numbers = λ l.
        ap (λ index. get_block_number (entry index l)) here
        ∙ (entry-split nb l (omega (arith, r.live.small, take.takes.in_range))).0;
    sizes = λ l.
        ap (λ index. get_block_size (entry index l)) here
        ∙ (entry-split nb l (omega (arith, r.live.small, take.takes.in_range))).1;
    nb_in_range = take.takes.in_range;
    nb_free = λ n. take.takes.was_free;
    bits = λ b. ground (arith, put.changes b, take.takes.changes b);
    consistent = put.consistent;
    same_blocks = ground (arith, put.rest, take.rest);
    others = λ b n n' z. ground (arith, there b, z, take.takes.nonzero);
    kept = arrived-kept (buffer' (number buffer ib i)) into;
    moved = arrived-moved (buffer' (number buffer ib i)) into;
    left = λ a h. ap (λ (b : Bytes). b a) fresh ∙ unfold memmove in ground arith;
  }
    where
      into :
          buffer' (number buffer ib i)
          ≡ memmove
              (buffer (number buffer ib i))
              (size buffer ib i)
              (buffer (number buffer ib j))
              0
              m
      into = ground (arith, there (number buffer ib i), apart_i, new_i nb mid take)

      fresh :
          buffer' nb ≡ memmove (buffer nb) 0 (buffer (number buffer ib j)) m (size buffer ib j - m)
      fresh = ground (arith, there nb, new_index nb mid take)
