-- ===== src/Memory/Laws.antt =====
-- Reading back what was written.
use pnl.Base.{
  ℕ, ◌+◌, ◌*◌, ◌%◌, ◌≤◌, ◌<◌, ◌≡◌, ◌⊎◌, refl, false, within, ap, ◌∙◌, ◌<◌, arith, ◌==◌, u32_mod,
  if◌then◌else◌,
}
use pnl.Memory.{Bytes, load32, store32, memset}

pub load-store_self : (b : Bytes) (o v : ℕ) → load32 (store32 b o v) o ≡ v % u32_mod
unfolding load32 store32
load-store_self b o v = ground arith

pub load-store_ne :
    (b : Bytes) (o p v : ℕ) → (o + 4 ≤ p) ⊎ (p + 4 ≤ o) → load32 (store32 b o v) p ≡ load32 b p
unfolding load32 store32
load-store_ne b o p v h = ground arith

-- The word of index `j` after a write of the word of index `i`.
pub load-store :
    (b : Bytes) (i j v : ℕ)
    → load32 (store32 b (4 * i) v) (4 * j) ≡ (if j == i then v % u32_mod else load32 b (4 * j))
load-store b i j v = ground (arith, load-store_self b (4 * i) v, load-store_ne b (4 * i) (4 * j) v)

pub load-memset : (b : Bytes) (d n p : ℕ) → d ≤ p → p + 4 ≤ d + n → load32 (memset b d 0 n) p ≡ 0
unfolding load32 memset
load-memset b d n p h k = ground arith

pub load-cong :
    (b c : Bytes) (o p : ℕ) → ((k : ℕ) → k < 4 → b (o + k) ≡ c (p + k)) → load32 b o ≡ load32 c p
unfolding load32
load-cong b c o p h = ground (
  arith,
  h 0 (omega arith),
  h 1 (omega arith),
  h 2 (omega arith),
  h 3 (omega arith),
  zero_b,
  zero_c,
)
  where
    zero_b : b (o + 0) ≡ b o
    zero_b = ap b (omega arith)

    zero_c : c (p + 0) ≡ c p
    zero_c = ap c (omega arith)

pub load-zero : (b : Bytes) (o : ℕ) → ((k : ℕ) → k < 4 → b (o + k) ≡ 0) → load32 b o ≡ 0
load-zero b o h = load-cong b (λ a. 0) o 0 h ∙ zeros
  where
    zeros : load32 (λ a. 0) 0 ≡ 0
    zeros = unfold load32 in refl

pub store-outside : (b : Bytes) (o v a : ℕ) → within o 4 a ≡ false → store32 b o v a ≡ b a
unfolding store32
store-outside b o v a h = ground arith
