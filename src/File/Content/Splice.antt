-- ===== src/File/Content/Splice.antt =====
-- Bytes put together in parts, with others inserted in the middle one.
use pnl.Base.{ℕ, ◌+◌, ◌-◌, ◌≤◌, ◌≡◌, ap, ltb, if◌then◌else◌, arith, Bool-cases, inl, inr}
use pnl.File.Content.{inserted}
use pnl.Memory.{Bytes}

-- `old` is `prefix`, then `size` bytes of `block`, then `suffix`; this is cut `jump` bytes into `block`.
pub spliced_lem :
    (front size jump len space : ℕ) (prefix block suffix user old : Bytes)
    → jump ≤ size
    → ((q : ℕ)
        → old q ≡ (
            if ltb q front
            then prefix q
            else if ltb (q - front) size
            then block (q - front)
            else suffix (q - front - size)))
    → (q : ℕ)
    → (if ltb q front
        then prefix q
        else if ltb (q - front) (jump + len)
        then (if ltb (q - front) jump then block (q - front) else user (space + (q - front - jump)))
        else if ltb (q - front - (jump + len)) (size - jump)
        then block (jump + (q - front - (jump + len)))
        else suffix (q - front - (jump + len) - (size - jump)))
      ≡ inserted old (front + jump) len (λ a. user (space + a)) q
spliced_lem front size jump len space prefix block suffix user old le parts q =
    elim (Bool-cases (ltb q (front + jump))) [
      | inl e ↦ ground (arith, parts q)
      | inr e ↦ elim (Bool-cases (ltb q (front + jump + len))) [
        | inl f ↦ ground (arith, ap user user_at)
        | inr f ↦ ground (arith, parts (q - len), block_at, suffix_at)
      ]
    ]
  where
    user_at : space + (q - front - jump) ≡ space + (q - (front + jump))
    user_at = omega arith

    block_at :
        front + jump + len ≤ q → block (jump + (q - front - (jump + len))) ≡ block (q - len - front)
    block_at h = ap block (omega arith)

    suffix_at :
        front + size + len ≤ q
        → suffix (q - front - (jump + len) - (size - jump)) ≡ suffix (q - len - front - size)
    suffix_at h = ap suffix (omega arith)
