-- ===== src/Defrag/Live.antt =====
-- What the first loop of the defragmentation keeps: the blocks of the file stay blocks of its own,
-- and one step of the loop leaves its content and the blocks of others alone.
use pnl.Base.{
  ℕ, ◌+◌, ◌-◌, ◌^◌, ◌≤◌, ◌<◌, ◌≡◌, ◌≢◌, inl, inr, refl, ap, ◌∙◌, true, false, arith, ◌==◌,
  if◌then◌else◌, Bool-cases, sym,
}
use pnl.Bitmap.Consistent.{IsConsistent}
use pnl.Block.{get_block_number, get_block_size}
use pnl.File.Content.{entry, total_size, byte_at}
use pnl.File.Content.Moved.{IsMoved, IsMoved-content}
use pnl.Memory.{Bytes}
use pnl.Superblock.{SbInfo}

abbrev pub number : (ℕ → Bytes) → ℕ → ℕ → ℕ
number buffer ib l = get_block_number (entry (buffer ib) l)

abbrev pub size : (ℕ → Bytes) → ℕ → ℕ → ℕ
size buffer ib l = get_block_size (entry (buffer ib) l)

-- The file with the index block `ib` and `k` entries: the blocks in its entries are blocks of the
-- device in use, and each stands in one entry only. An entry without a block has no bytes.
pub record IsLive (ib k : ℕ) (sbi : SbInfo) (buffer : ℕ → Bytes) : Type 0 where
  pub consistent : IsConsistent sbi
  pub small : sbi.nr_blocks ≤ 2 ^ 20
  pub index_used : sbi.bfree_bitmap ib ≡ false
  pub hole : (l : ℕ) → l < k → number buffer ib l ≡ 0 → size buffer ib l ≡ 0
  pub in_range : (l : ℕ) → l < k → number buffer ib l < sbi.nr_blocks
  pub used : (l : ℕ) → l < k → sbi.bfree_bitmap (number buffer ib l) ≡ false
  pub apart : (l : ℕ) → l < k → number buffer ib l ≢ 0 → number buffer ib l ≢ ib
  pub distinct :
      (l l' : ℕ)
      → l < k
      → l' < k
      → number buffer ib l ≢ 0
      → number buffer ib l ≡ number buffer ib l'
      → l ≡ l'

-- A block in use that is neither the index block nor a block of the file.
pub record IsForeign (ib k b : ℕ) (sbi : SbInfo) (buffer : ℕ → Bytes) : Type 0 where
  pub used : sbi.bfree_bitmap b ≡ false
  pub not_index : b ≢ ib
  pub not_entry : (l : ℕ) → l < k → number buffer ib l ≢ 0 → number buffer ib l ≢ b

-- What the loop keeps.
pub record Keeps (ib k : ℕ) (sbi : SbInfo) (buffer : ℕ → Bytes) (sbi' : SbInfo)
    (buffer' : ℕ → Bytes) : Type 0 where
  pub live : IsLive ib k sbi' buffer'
  pub same_blocks : sbi'.nr_blocks ≡ sbi.nr_blocks
  pub total : total_size (buffer' ib) k 0 ≡ total_size (buffer ib) k 0
  pub byte : (p : ℕ) → byte_at buffer' (buffer' ib) k 0 p ≡ byte_at buffer (buffer ib) k 0 p
  pub foreign : (b : ℕ) → IsForeign ib k b sbi buffer → IsForeign ib k b sbi' buffer'
  pub unchanged : (b : ℕ) → IsForeign ib k b sbi buffer → buffer' b ≡ buffer b

pub Keeps-refl :
    (ib k : ℕ) (sbi : SbInfo) (buffer : ℕ → Bytes)
    → IsLive ib k sbi buffer
    → Keeps ib k sbi buffer sbi buffer
Keeps-refl ib k sbi buffer live = record {
  live = live;
  same_blocks = refl;
  total = refl;
  byte = λ p. refl;
  foreign = λ b f. f;
  unchanged = λ b f. refl;
}

pub Keeps-trans :
    (ib k : ℕ) (s t u : SbInfo) (x y z : ℕ → Bytes)
    → Keeps ib k s x t y
    → Keeps ib k t y u z
    → Keeps ib k s x u z
Keeps-trans ib k s t u x y z a b = record {
  live = b.live;
  same_blocks = b.same_blocks ∙ a.same_blocks;
  total = b.total ∙ a.total;
  byte = λ p. b.byte p ∙ a.byte p;
  foreign = λ c f. b.foreign c (a.foreign c f);
  unchanged = λ c f. b.unchanged c (a.foreign c f) ∙ a.unchanged c f;
}

-- One step: `m` bytes move from the entry `j` to the entry `i`, and `nb` is the new block of the
-- entry `j`, or 0 when it is cleared.
pub record Stepped (ib k i j m nb : ℕ) (sbi : SbInfo) (buffer : ℕ → Bytes) (sbi' : SbInfo)
    (buffer' : ℕ → Bytes) : Type 0 where
  pub behind : i < j
  pub below : j < k
  pub real_i : number buffer ib i ≢ 0
  pub real_j : number buffer ib j ≢ 0
  pub gap : (l : ℕ) → i < l → l < j → size buffer ib l ≡ 0
  pub enough : m ≤ size buffer ib j
  pub all : nb ≡ 0 → m ≡ size buffer ib j
  pub numbers : (l : ℕ) → number buffer' ib l ≡ (if l == j then nb else number buffer ib l)
  pub sizes :
      (l : ℕ)
      → size buffer' ib l ≡ (
          if l == i
          then size buffer ib i + m
          else if l == j
          then size buffer ib j - m
          else size buffer ib l)
  pub nb_in_range : nb < sbi.nr_blocks
  pub nb_free : nb ≢ 0 → sbi.bfree_bitmap nb ≡ true
  pub bits :
      (b : ℕ)
      → sbi'.bfree_bitmap b
        ≡ (if b == number buffer ib j then true else if b == nb then false else sbi.bfree_bitmap b)
  pub consistent : IsConsistent sbi'
  pub same_blocks : sbi'.nr_blocks ≡ sbi.nr_blocks
  pub others : (b : ℕ) → b ≢ ib → b ≢ number buffer ib i → (b ≡ nb → b ≡ 0) → buffer' b ≡ buffer b
  pub kept :
      (a : ℕ)
      → a < size buffer ib i
      → buffer' (number buffer ib i) a ≡ buffer (number buffer ib i) a
  pub moved :
      (a : ℕ)
      → a < m
      → buffer' (number buffer ib i) (size buffer ib i + a) ≡ buffer (number buffer ib j) a
  pub left : (a : ℕ) → a < size buffer ib j - m → buffer' nb a ≡ buffer (number buffer ib j) (m + a)

module _ (ib k i j m nb : ℕ) (sbi : SbInfo) (buffer : ℕ → Bytes) (sbi' : SbInfo)
    (buffer' : ℕ → Bytes) (live : IsLive ib k sbi buffer)
    (s : Stepped ib k i j m nb sbi buffer sbi' buffer') where
  new_block : (l : ℕ) → l < k → number buffer ib l ≢ 0 → number buffer ib l ≢ nb
  new_block l p n e = ground (arith, live.used l p, s.nb_free, ap sbi.bfree_bitmap e)

  new_index : nb ≢ 0 → nb ≢ ib
  new_index n e = ground (arith, live.index_used, s.nb_free n, ap sbi.bfree_bitmap e)

  Stepped-used : (l : ℕ) → l < k → sbi'.bfree_bitmap (number buffer' ib l) ≡ false
  Stepped-used l p = elim (Bool-cases (l == j)) [
    | inl e ↦ ground (arith, s.numbers l, s.bits nb, new_block j s.below s.real_j)
    | inr e ↦ ground (
      arith,
      s.numbers l,
      s.bits (number buffer ib l),
      live.used l p,
      live.distinct j l s.below p s.real_j,
    )
  ]

  Stepped-apart : (l : ℕ) → l < k → number buffer' ib l ≢ 0 → number buffer' ib l ≢ ib
  Stepped-apart l p n = ground (arith, s.numbers l, new_index, live.apart l p)

  Stepped-distinct :
      (l l' : ℕ)
      → l < k
      → l' < k
      → number buffer' ib l ≢ 0
      → number buffer' ib l ≡ number buffer' ib l'
      → l ≡ l'
  Stepped-distinct l l' p q n e =
      ground
        (arith, s.numbers l, s.numbers l', new_block l p, new_block l' q, live.distinct l l' p q)

  Stepped-IsLive : IsLive ib k sbi' buffer'
  Stepped-IsLive = record {
    consistent = s.consistent;
    small = omega (arith, live.small, s.same_blocks);
    index_used = ground (arith, s.bits ib, live.index_used, live.apart j, s.below, s.real_j);
    hole = λ l p e. ground (arith, s.numbers l, s.sizes l, s.all, s.real_i, live.hole l, s.behind);
    in_range = λ l p. ground (arith, s.numbers l, live.in_range l, s.nb_in_range, s.same_blocks);
    used = Stepped-used;
    apart = Stepped-apart;
    distinct = Stepped-distinct;
  }

  same_i : number buffer' ib i ≡ number buffer ib i
  same_i = ground (arith, s.numbers i, s.behind)

  becomes_new : number buffer' ib j ≡ nb
  becomes_new = ground (arith, s.numbers j)

  -- A block of another entry with bytes in it.
  Stepped-others :
      (l : ℕ)
      → l < k
      → l ≢ i
      → l ≢ j
      → 0 < size buffer ib l
      → buffer' (number buffer' ib l) ≡ buffer (number buffer ib l)
  Stepped-others l p n n' h =
      let real : number buffer ib l ≢ 0 = λ z. ground (arith, live.hole l p) in
      ap buffer' (ground (arith, s.numbers l))
      ∙ s.others (number buffer ib l) (live.apart l p real)
          (λ e. n (live.distinct l i p (omega (arith, s.behind, s.below)) real e))
          (λ e. absurd (new_block l p real e))

  Stepped-IsMoved : IsMoved k i j m buffer (buffer ib) buffer' (buffer' ib)
  Stepped-IsMoved = record {
    gap = s.gap;
    enough = s.enough;
    sizes = λ l p. s.sizes l;
    others = λ l a p n n' h. ap (λ (b : Bytes). b a) (Stepped-others l p n n' (omega arith));
    kept = λ a h. ap (λ b. buffer' b a) same_i ∙ s.kept a h;
    moved = λ a h. ap (λ b. buffer' b (size buffer ib i + a)) same_i ∙ s.moved a h;
    left = λ a h. ap (λ b. buffer' b a) becomes_new ∙ s.left a h;
  }

  Stepped-new : (b : ℕ) → sbi.bfree_bitmap b ≡ false → b ≡ nb → b ≡ 0
  Stepped-new b used e = ground (arith, s.nb_free, ap sbi.bfree_bitmap e)

  Stepped-IsForeign : (b : ℕ) → IsForeign ib k b sbi buffer → IsForeign ib k b sbi' buffer'
  Stepped-IsForeign b f = record {
    used = ground (arith, s.bits b, f.used, f.not_entry j s.below s.real_j);
    not_index = f.not_index;
    not_entry = λ l p n. ground (arith, s.numbers l, f.not_entry l p, Stepped-new b f.used);
  }

  Stepped-content :
      (total_size (buffer' ib) k 0 ≡ total_size (buffer ib) k 0)
      × ((p : ℕ) → byte_at buffer' (buffer' ib) k 0 p ≡ byte_at buffer (buffer ib) k 0 p)
  Stepped-content =
      IsMoved-content k i j m buffer (buffer ib) buffer' (buffer' ib) s.behind s.below
        Stepped-IsMoved

  pub Stepped-Keeps : Keeps ib k sbi buffer sbi' buffer'
  Stepped-Keeps = record {
    live = Stepped-IsLive;
    same_blocks = s.same_blocks;
    total = Stepped-content.0;
    byte = Stepped-content.1;
    foreign = Stepped-IsForeign;
    unchanged = λ b f.
        s.others b f.not_index
          (λ e. f.not_entry i (omega (arith, s.behind, s.below)) s.real_i (sym e))
          (Stepped-new b f.used);
  }
