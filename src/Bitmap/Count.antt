-- ===== src/Bitmap/Count.antt =====
-- How many of the first `n` bits of a bitmap are set.
use pnl.Base.{
  ℕ, zero, suc, ◌+◌, ◌≤◌, ◌<◌, ◌≡◌, refl, Bool, true, false, arith, ◌==◌, inl, inr, Bool-cases,
  if◌then◌else◌,
}
use pnl.Kernel.{Bits}

unfoldable pub count : Bits → ℕ → ℕ
count bits zero = 0
count bits (suc n) = count bits n + (if bits n then 1 else 0)

pub count-le : (bits : Bits) (n : ℕ) → count bits n ≤ n
unfolding count
count-le bits zero = omega arith
count-le bits (suc n) = ground (arith, count-le bits n)

pub count-ext : (f g : Bits) (n : ℕ) → ((i : ℕ) → i < n → f i ≡ g i) → count f n ≡ count g n
unfolding count
count-ext f g zero h = refl
count-ext f g (suc n) h = ground (arith, count-ext f g n (λ i p. h i (omega arith)), h n)

pub count-zero : (f : Bits) (n : ℕ) → count f n ≡ 0 → (i : ℕ) → i < n → f i ≡ false
unfolding count
count-zero f zero h i p = absurd (omega arith)
count-zero f (suc n) h i p =
    elim (f n) as (λ b. f n ≡ b → f i ≡ false) [
      | true ↦ λ e. ground arith
      | false ↦ λ e. ground (arith, count-zero f n (ground arith) i)
    ]
      refl

pub count-none : (f : Bits) (n : ℕ) → ((i : ℕ) → i < n → f i ≡ false) → count f n ≡ 0
unfolding count
count-none f zero h = refl
count-none f (suc n) h = ground (arith, count-none f n (λ i p. h i (omega arith)), h n)

-- The count after the bit `b` has changed to `v`.
module _ (f g : Bits) (b : ℕ) (v : Bool) (same : (i : ℕ) → g i ≡ (if i == b then v else f i)) where
  pub count-outside : (n : ℕ) → n ≤ b → count g n ≡ count f n
  count-outside n h = count-ext g f n (λ i p. ground (arith, same i))

  pub count-update :
      (n : ℕ) → b < n → count g n + (if f b then 1 else 0) ≡ count f n + (if v then 1 else 0)
  unfolding count
  count-update zero h = absurd (omega arith)
  count-update (suc n) h = elim (Bool-cases (n == b)) [
    | inl last ↦ ground (arith, count-outside n (ground arith), same n)
    | inr below ↦ ground (arith, count-update n (ground arith), same n)
  ]
