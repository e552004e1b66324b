-- ===== src/File/Content/Moved.antt =====
-- Bytes that move from the front of one block to the end of an earlier one, with nothing in between:
-- the content of the file is the same.
use pnl.Base.{
  ℕ, zero, suc, ◌+◌, ◌-◌, ◌≤◌, ◌<◌, ◌≡◌, ◌≢◌, refl, sym, ap, ◌∙◌, ltb, ◌==◌, if◌then◌else◌, arith,
  Bool-cases, inl, inr, subst,
}
use pnl.Block.{get_block_number, get_block_size}
use pnl.File.Content.{entry, total_size, byte_at}
use pnl.File.Content.Holds.{byte_at-append, total_size-append}
use pnl.Memory.{Bytes}

-- The same sizes and bytes in use.
pub total_size-same :
    (index index' : Bytes) (k i : ℕ)
    → ((l : ℕ)
        → i ≤ l
        → l < i + k
        → get_block_size (entry index' l) ≡ get_block_size (entry index l))
    → total_size index' k i ≡ total_size index k i
unfolding total_size
total_size-same index index' zero i h = refl
total_size-same index index' (suc k) i h = omega (
  arith,
  h i (omega arith) (omega arith),
  total_size-same index index' k (i + 1) (λ l p q. h l (omega arith) (omega arith)),
)

pub byte_at-same :
    (buffer buffer' : ℕ → Bytes) (index index' : Bytes) (k i p : ℕ)
    → ((l : ℕ)
        → i ≤ l
        → l < i + k
        → get_block_size (entry index' l) ≡ get_block_size (entry index l))
    → ((l a : ℕ)
        → i ≤ l
        → l < i + k
        → a < get_block_size (entry index l)
        → buffer' (get_block_number (entry index' l)) a
          ≡ buffer (get_block_number (entry index l)) a)
    → byte_at buffer' index' k i p ≡ byte_at buffer index k i p
unfolding byte_at
byte_at-same buffer buffer' index index' zero i p h g = refl
byte_at-same buffer buffer' index index' (suc k) i p h g = ground (
  arith,
  h i (omega arith) (omega arith),
  g i p (omega arith) (omega arith),
  byte_at-same buffer buffer' index index' k (i + 1) (p - get_block_size (entry index i))
      (λ l q r. h l (omega arith) (omega arith)) (λ l a q r s. g l a (omega arith) (omega arith) s),
)

-- Empty blocks.
pub total_size-none :
    (index : Bytes) (g i : ℕ)
    → ((l : ℕ) → i ≤ l → l < i + g → get_block_size (entry index l) ≡ 0)
    → total_size index g i ≡ 0
unfolding total_size
total_size-none index zero i h = refl
total_size-none index (suc g) i h = omega (
  arith,
  h i (omega arith) (omega arith),
  total_size-none index g (i + 1) (λ l p q. h l (omega arith) (omega arith)),
)

-- The content at two blocks with `g` empty ones between them, and `s` blocks behind them.
record Cut (buffer : ℕ → Bytes) (index : Bytes) (k i j s : ℕ) : Type 0 where
  total :
      total_size index k 0
      ≡ total_size index i 0
        + (get_block_size (entry index i)
            + (get_block_size (entry index j) + total_size index s (j + 1)))
  byte :
      (p : ℕ)
      → byte_at buffer index k 0 p ≡ (
          let front = total_size index i 0 in
          let size_i = get_block_size (entry index i) in
          let size_j = get_block_size (entry index j) in
          if ltb p front
          then byte_at buffer index i 0 p
          else if ltb (p - front) size_i
          then buffer (get_block_number (entry index i)) (p - front)
          else if ltb (p - front - size_i) size_j
          then buffer (get_block_number (entry index j)) (p - front - size_i)
          else byte_at buffer index s (j + 1) (p - front - size_i - size_j))

module _ (buffer : ℕ → Bytes) (index : Bytes) (i g s : ℕ)
    (empty : (l : ℕ) → i + 1 ≤ l → l < i + 1 + g → get_block_size (entry index l) ≡ 0) where
  none : total_size index g (i + 1) ≡ 0
  none = total_size-none index g (i + 1) empty

  after_total :
      total_size index (suc (g + suc s)) i
      ≡ get_block_size (entry index i)
        + (get_block_size (entry index (i + 1 + g)) + total_size index s (i + 1 + g + 1))
  unfolding total_size
  after_total = omega (arith, total_size-append index g (suc s) (i + 1), none)

  after_byte :
      (p : ℕ)
      → byte_at buffer index (suc (g + suc s)) i p ≡ (
          let size_i = get_block_size (entry index i) in
          let size_j = get_block_size (entry index (i + 1 + g)) in
          if ltb p size_i
          then buffer (get_block_number (entry index i)) p
          else if ltb (p - size_i) size_j
          then buffer (get_block_number (entry index (i + 1 + g))) (p - size_i)
          else byte_at buffer index s (i + 1 + g + 1) (p - size_i - size_j))
  unfolding byte_at
  after_byte p = ground (
    arith,
    byte_at-append buffer index g (suc s) (i + 1) (p - get_block_size (entry index i)),
    none,
    same,
  )
    where
      same :
          byte_at buffer index
            (suc s)
            (i + 1 + g)
            (p - get_block_size (entry index i) - total_size index g (i + 1))
          ≡ byte_at buffer index (suc s) (i + 1 + g) (p - get_block_size (entry index i))
      same = ap (byte_at buffer index (suc s) (i + 1 + g)) (omega (arith, none))

  cut : Cut buffer index (i + suc (g + suc s)) i (i + 1 + g) s
  cut = record {
    total =
        total_size-append index i (suc (g + suc s)) 0
        ∙ ap (λ l. total_size index i 0 + total_size index (suc (g + suc s)) l) start
        ∙ ap (λ n. total_size index i 0 + n) after_total;
    byte = λ p.
        byte_at-append buffer index i (suc (g + suc s)) 0 p
        ∙ ap
            (λ l.
              if ltb p (total_size index i 0)
              then byte_at buffer index i 0 p
              else byte_at buffer index (suc (g + suc s)) l (p - total_size index i 0))
            start
        ∙ ap (λ b. if ltb p (total_size index i 0) then byte_at buffer index i 0 p else b)
            (after_byte (p - total_size index i 0));
  }
    where
      start : 0 + i ≡ i
      start = omega arith

-- The content behind the prefix, as a function of its parts.
spread_lem :
    (front size_i size_j m p : ℕ) (prefix block_i block_j block_i' block_j' suffix : Bytes)
    → m ≤ size_j
    → ((a : ℕ) → a < size_i → block_i' a ≡ block_i a)
    → ((a : ℕ) → a < m → block_i' (size_i + a) ≡ block_j a)
    → ((a : ℕ) → a < size_j - m → block_j' a ≡ block_j (m + a))
    → (if ltb p front
        then prefix p
        else if ltb (p - front) (size_i + m)
        then block_i' (p - front)
        else if ltb (p - front - (size_i + m)) (size_j - m)
        then block_j' (p - front - (size_i + m))
        else suffix (p - front - (size_i + m) - (size_j - m)))
      ≡ (if ltb p front
          then prefix p
          else if ltb (p - front) size_i
          then block_i (p - front)
          else if ltb (p - front - size_i) size_j
          then block_j (p - front - size_i)
          else suffix (p - front - size_i - size_j))
spread_lem front size_i size_j m p prefix block_i block_j block_i' block_j' suffix le kept moved
      left =
    elim (Bool-cases (ltb p front)) [
      | inl e ↦ ground arith
      | inr e ↦ elim (Bool-cases (ltb (p - front) (size_i + m))) [
        | inl f ↦ elim (Bool-cases (ltb (p - front) size_i)) [
          | inl g ↦ ground (arith, kept (p - front))
          | inr g ↦ ground (arith, moved (p - front - size_i), back)
        ]
        | inr f ↦ ground (arith, left (p - front - (size_i + m)), ap block_j rest, behind)
      ]
    ]
  where
    back : size_i ≤ p - front → block_i' (size_i + (p - front - size_i)) ≡ block_i' (p - front)
    back h = ap block_i' (omega arith)

    rest :
        m + (p - front - (size_i + m))
        ≡ (if ltb (p - front - size_i) m then m else p - front - size_i)
    rest = ground arith

    behind :
        size_i + size_j ≤ p - front
        → suffix (p - front - (size_i + m) - (size_j - m)) ≡ suffix (p - front - size_i - size_j)
    behind h = ap suffix (omega (arith, le))

-- In the file of `k` blocks `m` bytes have moved from the block of the entry `j` to that of the entry
-- `i`, and all entries between them are empty.
pub record IsMoved (k i j m : ℕ) (buffer : ℕ → Bytes) (index : Bytes) (buffer' : ℕ → Bytes)
    (index' : Bytes) : Type 0 where
  pub gap : (l : ℕ) → i < l → l < j → get_block_size (entry index l) ≡ 0
  pub enough : m ≤ get_block_size (entry index j)
  pub sizes :
      (l : ℕ)
      → l < k
      → get_block_size (entry index' l) ≡ (
          if l == i
          then get_block_size (entry index i) + m
          else if l == j
          then get_block_size (entry index j) - m
          else get_block_size (entry index l))
  pub others :
      (l a : ℕ)
      → l < k
      → l ≢ i
      → l ≢ j
      → a < get_block_size (entry index l)
      → buffer' (get_block_number (entry index' l)) a ≡ buffer (get_block_number (entry index l)) a
  pub kept :
      (a : ℕ)
      → a < get_block_size (entry index i)
      → buffer' (get_block_number (entry index' i)) a ≡ buffer (get_block_number (entry index i)) a
  pub moved :
      (a : ℕ)
      → a < m
      → buffer' (get_block_number (entry index' i)) (get_block_size (entry index i) + a)
        ≡ buffer (get_block_number (entry index j)) a
  pub left :
      (a : ℕ)
      → a < get_block_size (entry index j) - m
      → buffer' (get_block_number (entry index' j)) a
        ≡ buffer (get_block_number (entry index j)) (m + a)

IsMoved-parts :
    (i g s m : ℕ) (buffer : ℕ → Bytes) (index : Bytes) (buffer' : ℕ → Bytes) (index' : Bytes)
    → let k = i + suc (g + suc s) in
      IsMoved k i (i + 1 + g) m buffer index buffer' index'
      → (total_size index' k 0 ≡ total_size index k 0)
        × ((p : ℕ) → byte_at buffer' index' k 0 p ≡ byte_at buffer index k 0 p)
IsMoved-parts i g s m buffer index buffer' index' v = (
  omega (arith, old.total, new.total, front, back, size_i, size_j, v.enough),
  λ p.
      new.byte p
      ∙ rw (front, size_i, size_j, prefix p)
          (ap
              (λ b.
                if ltb p (total_size index i 0)
                then byte_at buffer index i 0 p
                else if ltb (p - total_size index i 0) (get_block_size (entry index i) + m)
                then buffer' (get_block_number (entry index' i)) (p - total_size index i 0)
                else if ltb (p - total_size index i 0 - (get_block_size (entry index i) + m))
                    (get_block_size (entry index (i + 1 + g)) - m)
                then buffer' (get_block_number (entry index' (i + 1 + g)))
                    (p - total_size index i 0 - (get_block_size (entry index i) + m))
                else b)
              (suffix (
                p
                - total_size index i 0
                - (get_block_size (entry index i) + m)
                - (get_block_size (entry index (i + 1 + g)) - m)))
            ∙ spread_lem (total_size index i 0) (get_block_size (entry index i))
                (get_block_size (entry index (i + 1 + g))) m p (byte_at buffer index i 0)
                (buffer (get_block_number (entry index i)))
                (buffer (get_block_number (entry index (i + 1 + g))))
                (buffer' (get_block_number (entry index' i)))
                (buffer' (get_block_number (entry index' (i + 1 + g))))
                (byte_at buffer index s (i + 1 + g + 1)) v.enough v.kept v.moved v.left)
      ∙ sym (old.byte p),
)
  where
    old : Cut buffer index (i + suc (g + suc s)) i (i + 1 + g) s
    old = cut buffer index i g s (λ l p q. v.gap l (omega arith) (omega arith))

    new : Cut buffer' index' (i + suc (g + suc s)) i (i + 1 + g) s
    new = cut buffer' index' i g s (λ l p q. ground (arith, v.sizes l, v.gap l))

    size_i : get_block_size (entry index' i) ≡ get_block_size (entry index i) + m
    size_i = ground (arith, v.sizes i)

    size_j :
        get_block_size (entry index' (i + 1 + g)) ≡ get_block_size (entry index (i + 1 + g)) - m
    size_j = ground (arith, v.sizes (i + 1 + g))

    front : total_size index' i 0 ≡ total_size index i 0
    front = total_size-same index index' i 0 (λ l p q. ground (arith, v.sizes l))

    back : total_size index' s (i + 1 + g + 1) ≡ total_size index s (i + 1 + g + 1)
    back = total_size-same index index' s (i + 1 + g + 1) (λ l p q. ground (arith, v.sizes l))

    prefix : (p : ℕ) → byte_at buffer' index' i 0 p ≡ byte_at buffer index i 0 p
    prefix p =
        byte_at-same buffer buffer' index index' i 0 p (λ l q r. ground (arith, v.sizes l))
          (λ l a q r h. v.others l a (omega arith) (omega arith) (omega arith) h)

    suffix :
        (p : ℕ)
        → byte_at buffer' index' s (i + 1 + g + 1) p ≡ byte_at buffer index s (i + 1 + g + 1) p
    suffix p =
        byte_at-same buffer buffer' index index' s (i + 1 + g + 1) p
          (λ l q r. ground (arith, v.sizes l))
          (λ l a q r h. v.others l a (omega arith) (omega arith) (omega arith) h)

-- The content stays.
pub IsMoved-content :
    (k i j m : ℕ) (buffer : ℕ → Bytes) (index : Bytes) (buffer' : ℕ → Bytes) (index' : Bytes)
    → i < j
    → j < k
    → IsMoved k i j m buffer index buffer' index'
    → (total_size index' k 0 ≡ total_size index k 0)
      × ((p : ℕ) → byte_at buffer' index' k 0 p ≡ byte_at buffer index k 0 p)
IsMoved-content k i j m buffer index buffer' index' behind below v =
    subst
      (λ n.
        (total_size index' n 0 ≡ total_size index n 0)
        × ((p : ℕ) → byte_at buffer' index' n 0 p ≡ byte_at buffer index n 0 p))
      parts
      (IsMoved-parts i (j - i - 1) (k - j - 1) m buffer index buffer' index' (
        subst (λ n. IsMoved n i (i + 1 + (j - i - 1)) m buffer index buffer' index') (sym parts)
          (subst (λ l. IsMoved k i l m buffer index buffer' index') between v)))
  where
    parts : i + suc (j - i - 1 + suc (k - j - 1)) ≡ k
    parts = omega arith

    between : j ≡ i + 1 + (j - i - 1)
    between = omega arith
