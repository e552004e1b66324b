-- ===== src/Base/Bits.antt =====
-- `&` with a mask of low or of high bits and `|` of disjoint fields, as arithmetic.
use Prim.Native.Nat.{
  ℕ, zero, suc, ◌+◌, ◌-◌, ◌*◌, ◌/◌, ◌%◌, ◌^◌, ◌≤◌, ◌<◌, min, max, bit_and, bit_or, digits,
  bit_and-bitwise, bit_or-bitwise,
}
use mathlib.Core.Path.{◌≡◌, refl, ap}
use native.Mathlib.Nat.{pow-suc, one-le-pow, mod-lt, div-add-mod'}
use native.Mathlib.Omega.{arith}

digits_enough :
    (z : ℕ → ℕ) (f : ℕ → ℕ → ℕ) (n m a b : ℕ) → a ≤ n → a ≤ m → digits z f n a b ≡ digits z f m a b
digits_enough z f zero zero a b p q = refl
digits_enough z f zero (suc m) zero b p q = refl
digits_enough z f zero (suc m) (suc a) b p q = absurd (omega arith)
digits_enough z f (suc n) zero zero b p q = refl
digits_enough z f (suc n) zero (suc a) b p q = absurd (omega arith)
digits_enough z f (suc n) (suc m) zero b p q = refl
digits_enough z f (suc n) (suc m) (suc a) b p q =
    rw (digits_enough z f n m (suc a / 2) (b / 2) (omega arith) (omega arith))

and_digit : (a b : ℕ) → bit_and a b ≡ bit_and (a / 2) (b / 2) * 2 + min (a % 2) (b % 2)
and_digit zero b = simp bit_and-bitwise (omega arith)
and_digit (suc a) b = simp bit_and-bitwise (
    omega (
      arith,
      digits_enough (λ y. 0) min a (suc a / 2) (suc a / 2) (b / 2) (omega arith) (omega arith),
    ))

or_digit : (a b : ℕ) → bit_or a b ≡ bit_or (a / 2) (b / 2) * 2 + max (a % 2) (b % 2)
or_digit zero b = simp bit_or-bitwise (omega arith)
or_digit (suc a) b = simp bit_or-bitwise (
    omega (
      arith,
      digits_enough (λ y. y) max a (suc a / 2) (suc a / 2) (b / 2) (omega arith) (omega arith),
    ))

and_zero : (n a : ℕ) → a ≤ n → bit_and a 0 ≡ 0
and_zero n zero h = refl
and_zero zero (suc a) h = absurd (omega arith)
and_zero (suc n) (suc a) h =
    omega (arith, and_digit (suc a) 0, and_zero n (suc a / 2) (omega arith))

or_zero : (n a : ℕ) → a ≤ n → bit_or a 0 ≡ a
or_zero n zero h = refl
or_zero zero (suc a) h = absurd (omega arith)
or_zero (suc n) (suc a) h = omega (arith, or_digit (suc a) 0, or_zero n (suc a / 2) (omega arith))

double : (q k : ℕ) → q * 2 ^ suc k ≡ 2 * (q * 2 ^ k)
double q k = omega (arith, ap (λ (t : ℕ). q * t) (pow-suc 2 k))

-- `high | low`, where `low` fits below the lowest bit of `high`
pub or_disjoint : (k q r : ℕ) → r < 2 ^ k → bit_or (q * 2 ^ k) r ≡ q * 2 ^ k + r
or_disjoint zero q r h =
    let e : r ≡ 0 = omega arith in rw e (omega (arith, or_zero (q * 1) (q * 1)))
or_disjoint (suc k) q r h = omega (
  arith,
  or_digit (q * 2 ^ suc k) r,
  double q k,
  ap (λ (t : ℕ). bit_or t (r / 2)) (half q k),
  or_disjoint k q (r / 2) (omega (arith, pow-suc 2 k)),
)
  where
    half : (q k : ℕ) → q * 2 ^ suc k / 2 ≡ q * 2 ^ k
    half q k = omega (arith, double q k)

zero_or : (b : ℕ) → bit_or 0 b ≡ b
zero_or b = simp bit_or-bitwise (omega arith)

-- The same with the fields in the other order.
pub or_disjoint_right : (k q r : ℕ) → r < 2 ^ k → bit_or r (q * 2 ^ k) ≡ q * 2 ^ k + r
or_disjoint_right zero q r h = let e : r ≡ 0 = omega arith in rw e (omega (arith, zero_or (q * 1)))
or_disjoint_right (suc k) q r h = omega (
  arith,
  or_digit r (q * 2 ^ suc k),
  double q k,
  ap (λ (t : ℕ). bit_or (r / 2) t) (half q k),
  or_disjoint_right k q (r / 2) (omega (arith, pow-suc 2 k)),
)
  where
    half : (q k : ℕ) → q * 2 ^ suc k / 2 ≡ q * 2 ^ k
    half q k = omega (arith, double q k)

-- A mask of high bits drops the low field.
and_fields : (k q r m : ℕ) → r < 2 ^ k → bit_and (q * 2 ^ k + r) (m * 2 ^ k) ≡ bit_and q m * 2 ^ k
and_fields zero q r m h =
    let e : r ≡ 0 = omega arith in
    rw e (
      omega
        (arith, ap (λ (t : ℕ). bit_and t (m * 1)) (one q), ap (λ (t : ℕ). bit_and q t) (times m)))
  where
    one : (q : ℕ) → q * 1 + 0 ≡ q
    one q = omega arith

    times : (q : ℕ) → q * 1 ≡ q
    times q = omega arith
and_fields (suc k) q r m h = omega (
  arith,
  and_digit (q * 2 ^ suc k + r) (m * 2 ^ suc k),
  double q k,
  double m k,
  double (bit_and q m) k,
  ap (λ (t : ℕ). bit_and t (m * 2 ^ suc k / 2)) (low q k r),
  ap (λ (t : ℕ). bit_and (q * 2 ^ k + r / 2) t) (half m k),
  and_fields k q (r / 2) m (omega (arith, pow-suc 2 k)),
)
  where
    half : (q k : ℕ) → q * 2 ^ suc k / 2 ≡ q * 2 ^ k
    half q k = omega (arith, double q k)

    low : (q k r : ℕ) → (q * 2 ^ suc k + r) / 2 ≡ q * 2 ^ k + r / 2
    low q k r = omega (arith, double q k)

low_fields : (k q r : ℕ) → r < 2 ^ k → bit_and (q * 2 ^ k + r) (2 ^ k - 1) ≡ r
low_fields zero q r h = omega (arith, and_zero (q * 1 + r) (q * 1 + r))
low_fields (suc k) q r h = omega (
  arith,
  and_digit (q * 2 ^ suc k + r) (2 ^ suc k - 1),
  double q k,
  pow-suc 2 k,
  one-le-pow k 2,
  ap (λ (t : ℕ). bit_and t ((2 ^ suc k - 1) / 2)) (low q k r),
  ap (λ (t : ℕ). bit_and (q * 2 ^ k + r / 2) t) (half k),
  low_fields k q (r / 2) (omega (arith, pow-suc 2 k)),
)
  where
    low : (q k r : ℕ) → (q * 2 ^ suc k + r) / 2 ≡ q * 2 ^ k + r / 2
    low q k r = omega (arith, double q k)

    half : (k : ℕ) → (2 ^ suc k - 1) / 2 ≡ 2 ^ k - 1
    half k = omega (arith, pow-suc 2 k, one-le-pow k 2)

-- `a & (2^k - 1)`
pub and_low : (k a : ℕ) → bit_and a (2 ^ k - 1) ≡ a % 2 ^ k
and_low k a =
    rw div-add-mod' at
      (low_fields k (a / 2 ^ k) (a % 2 ^ k) (mod-lt a (one-le-pow k 2 (omega arith))))

-- `a & ((2^n - 1) << k)`
pub and_high : (k n a : ℕ) → bit_and a ((2 ^ n - 1) * 2 ^ k) ≡ a / 2 ^ k % 2 ^ n * 2 ^ k
and_high k n a = rw (← and_low n (a / 2 ^ k)) (
    rw div-add-mod' at
      (and_fields k (a / 2 ^ k) (a % 2 ^ k) (2 ^ n - 1) (mod-lt a (one-le-pow k 2 (omega arith)))))
