-- ===== src/File/Content/Holds.antt =====
-- The bytes of consecutive blocks: how they are put together and when they stay the same.
use pnl.Base.{ℕ, zero, suc, ◌+◌, ◌-◌, ◌<◌, ◌≡◌, refl, sym, ap, ◌∙◌, ltb, if◌then◌else◌, arith}
use pnl.Block.{get_block_number, get_block_size}
use pnl.File.Content.{entry, total_size, byte_at}
use pnl.Memory.{Bytes}
use native.Mathlib.Numerals.{unary_clauses}

-- The `k` blocks from the entry `i` on hold the first `n` bytes of `f`.
pub record Holds (buffer : ℕ → Bytes) (index : Bytes) (k i n : ℕ) (f : Bytes) : Type 0 where
  pub size : total_size index k i ≡ n
  pub bytes : (p : ℕ) → p < n → byte_at buffer index k i p ≡ f p

suc_plus : (k l : ℕ) → suc k + l ≡ suc (k + l)
suc_plus k l = omega arith

pub total_size-append :
    (index : Bytes) (k l i : ℕ)
    → total_size index (k + l) i ≡ total_size index k i + total_size index l (i + k)
unfolding total_size
total_size-append index zero l i =
    ap (λ m. total_size index m i) none ∙ omega (arith, ap (total_size index l) same)
  where
    none : 0 + l ≡ l
    none = omega arith

    same : i + 0 ≡ i
    same = omega arith
total_size-append index (suc k) l i =
    omega (arith, total_size-append index k l (i + 1), ap (total_size index l) next, one)
  where
    one :
        total_size index (suc k + l) i
        ≡ get_block_size (entry index i) + total_size index (k + l) (i + 1)
    one = ap (λ m. total_size index m i) (suc_plus k l)

    next : i + 1 + k ≡ i + suc k
    next = omega arith

pub byte_at-append :
    (buffer : ℕ → Bytes) (index : Bytes) (k l i p : ℕ)
    → byte_at buffer index (k + l) i p ≡ (
        if ltb p (total_size index k i)
        then byte_at buffer index k i p
        else byte_at buffer index l (i + k) (p - total_size index k i))
unfolding total_size byte_at
byte_at-append buffer index zero l i p = simp unary_clauses (ground arith)
byte_at-append buffer index (suc k) l i p = ground (
  arith,
  byte_at-append buffer index k l (i + 1) (p - get_block_size (entry index i)),
  later,
  one,
)
  where
    size : ℕ
    size = get_block_size (entry index i)

    one : byte_at buffer index (suc k + l) i p ≡ byte_at buffer index (suc (k + l)) i p
    one = ap (λ m. byte_at buffer index m i p) (suc_plus k l)

    later :
        byte_at buffer index l (i + 1 + k) (p - size - total_size index k (i + 1))
        ≡ byte_at buffer index l (i + suc k) (p - (size + total_size index k (i + 1)))
    later =
        ap (λ j. byte_at buffer index l j (p - size - total_size index k (i + 1))) (omega arith)
        ∙ ap (byte_at buffer index l (i + suc k)) (omega arith)

pub Holds-append :
    (buffer : ℕ → Bytes) (index : Bytes) (k l i m n : ℕ) (f g : Bytes)
    → Holds buffer index k i m f
    → Holds buffer index l (i + k) n g
    → Holds buffer index (k + l) i (m + n) (λ p. if ltb p m then f p else g (p - m))
Holds-append buffer index k l i m n f g a b = record {
  size = omega (arith, total_size-append index k l i, a.size, b.size);
  bytes = λ p h.
      byte_at-append buffer index k l i p ∙ rw a.size (ground (arith, a.bytes p, b.bytes (p - m)));
}

pub Holds-one :
    (buffer : ℕ → Bytes) (index : Bytes) (i n : ℕ) (f : Bytes)
    → get_block_size (entry index i) ≡ n
    → ((p : ℕ) → p < n → buffer (get_block_number (entry index i)) p ≡ f p)
    → Holds buffer index 1 i n f
unfolding total_size byte_at
Holds-one buffer index i n f size bytes = record {
  size = omega (arith, size);
  bytes = λ p h. ground (arith, size, bytes p h);
}

-- The same blocks elsewhere, with the same sizes and bytes in use.
pub Holds-moved :
    (buffer buffer' : ℕ → Bytes) (index index' : Bytes) (k i i' : ℕ)
    → ((t : ℕ)
        → t < k
        → get_block_size (entry index' (i' + t)) ≡ get_block_size (entry index (i + t)))
    → ((t a : ℕ)
        → t < k
        → buffer' (get_block_number (entry index' (i' + t))) a
          ≡ buffer (get_block_number (entry index (i + t))) a)
    → Holds buffer' index' k i' (total_size index k i) (byte_at buffer index k i)
unfolding total_size byte_at
Holds-moved buffer buffer' index index' zero i i' size bytes = record {
  size = refl;
  bytes = λ p h. refl;
}
Holds-moved buffer buffer' index index' (suc k) i i' size bytes =
    let rest =
      Holds-moved buffer buffer' index index' k (i + 1) (i' + 1)
        (λ t p.
          ap (λ j. get_block_size (entry index' j)) (omega arith)
          ∙ size (t + 1) (omega arith)
          ∙ ap (λ j. get_block_size (entry index j)) (omega arith))
        (λ t a p.
          ap (λ j. buffer' (get_block_number (entry index' j)) a) (omega arith)
          ∙ bytes (t + 1) a (omega arith)
          ∙ ap (λ j. buffer (get_block_number (entry index j)) a) (omega arith)) in
    record {
      size = omega (arith, rest.size, size 0 (omega arith), here, here');
      bytes = λ p h. ground (arith, rest.bytes (p - get_block_size (entry index i)), same p, sizes);
    }
  where
    here : get_block_size (entry index (i + 0)) ≡ get_block_size (entry index i)
    here = ap (λ j. get_block_size (entry index j)) (omega arith)

    here' : get_block_size (entry index' (i' + 0)) ≡ get_block_size (entry index' i')
    here' = ap (λ j. get_block_size (entry index' j)) (omega arith)

    sizes : get_block_size (entry index' i') ≡ get_block_size (entry index i)
    sizes = omega (arith, size 0 (omega arith), here, here')

    same :
        (p : ℕ)
        → buffer' (get_block_number (entry index' i')) p
          ≡ buffer (get_block_number (entry index i)) p
    same p =
        ap (λ j. buffer' (get_block_number (entry index' j)) p) (omega arith)
        ∙ bytes 0 p (omega arith)
        ∙ ap (λ j. buffer (get_block_number (entry index j)) p) (omega arith)

pub Holds-cong :
    (buffer : ℕ → Bytes) (index : Bytes) (k k' i n n' : ℕ) (f g : Bytes)
    → k ≡ k'
    → n ≡ n'
    → ((p : ℕ) → p < n → f p ≡ g p)
    → Holds buffer index k i n f
    → Holds buffer index k' i n' g
Holds-cong buffer index k k' i n n' f g ek en e h = record {
  size = ap (λ l. total_size index l i) (sym ek) ∙ h.size ∙ en;
  bytes = λ p q.
      ap (λ l. byte_at buffer index l i p) (sym ek) ∙ h.bytes p (omega arith) ∙ e p (omega arith);
}
