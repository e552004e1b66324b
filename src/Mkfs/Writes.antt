-- ===== src/Mkfs/Writes.antt =====
-- Where the functions of the formatting tool put their blocks, if nothing fails.
use pnl.Base.{
  ℕ, zero, suc, ◌+◌, ◌-◌, ◌<◌, ◌≡◌, refl, sym, subst, Bool, true, arith, ◌==◌, if◌then◌else◌, inl,
  inr, Bool-cases, update,
}
use pnl.Memory.{Bytes}
use pnl.Mkfs.{Image, PosixApi, and_then, write_block, write_blocks, write_copies}

-- A step that succeeds and writes `n` blocks, one block and then copies of another.
pub record Puts (first other : Bytes) (n : ℕ) (img : Image) (r : Bool × Image) : Type 0 where
  pub done : r.0 ≡ true
  pub pos : r.1.pos ≡ img.pos + n
  pub before : (b : ℕ) → b < img.pos → r.1.block b ≡ img.block b
  pub head : 0 < n → r.1.block img.pos ≡ first
  pub tail : (b : ℕ) → img.pos < b → b < img.pos + n → r.1.block b ≡ other

-- The `i`-th of these blocks.
pub Puts-at :
    (first other : Bytes) (n : ℕ) (img : Image) (r : Bool × Image) (b i : ℕ)
    → Puts first other n img r
    → i < n
    → img.pos + i ≡ b
    → r.1.block b ≡ (if i == 0 then first else other)
Puts-at first other n img r b i p lt e = elim (Bool-cases (i == 0)) [
  | inl z ↦ rw z (
      subst (λ c. r.1.block c ≡ first) (let f : img.pos ≡ b = ground arith in f)
        (p.head (omega arith)))
  | inr z ↦ rw z (p.tail b (ground arith) (omega arith))
]

module _ ⦃posix : PosixApi⦄ (written : (b : ℕ) → posix.write_ok b ≡ true) where
  -- The image after one block.
  grown : Bytes → Image → Image
  grown b img = record { pos = img.pos + 1; block = update img.block img.pos b }

  write_block-ok : (b : Bytes) (img : Image) → write_block b img ≡ (true, grown b img)
  unfolding write_block grown
  write_block-ok b img = rw (written img.pos) refl

  write_copies-step :
      (b : Bytes) (k : ℕ) (img : Image)
      → write_copies b (suc k) img ≡ write_copies b k (grown b img)
  unfolding write_copies
  write_copies-step b k img = rw (write_block-ok b img) refl

  Puts-more :
      (b : Bytes) (k : ℕ) (img : Image) (r : Bool × Image)
      → Puts b b k (grown b img) r
      → Puts b b (suc k) img r
  unfolding grown
  Puts-more b k img r p = record {
    done = p.done;
    pos = omega (arith, p.pos);
    before = λ c q. ground (arith, p.before c);
    head = λ q. ground (arith, p.before img.pos);
    tail = λ c q t. elim (Bool-cases (c == img.pos + 1)) [
      | inl e ↦ let z : c ≡ img.pos + 1 = ground arith in rw z (p.head (ground arith))
      | inr e ↦ p.tail c (ground arith) (omega arith)
    ];
  }

  write_copies-Puts : (b : Bytes) (k : ℕ) (img : Image) → Puts b b k img (write_copies b k img)
  write_copies-Puts b zero img =
      unfold write_copies in
      record {
        done = refl;
        pos = omega arith;
        before = λ c q. refl;
        head = λ q. absurd (omega arith);
        tail = λ c q t. absurd (omega arith);
      }
  write_copies-Puts b (suc k) img =
      subst (Puts b b (suc k) img) (sym (write_copies-step b k img))
        (Puts-more b k img (write_copies b k (grown b img)) (write_copies-Puts b k (grown b img)))

  Puts-first :
      (first other : Bytes) (n : ℕ) (img : Image) (r : Bool × Image)
      → 0 < n
      → Puts other other (n - 1) (grown first img) r
      → Puts first other n img r
  unfolding grown
  Puts-first first other n img r pos p = record {
    done = p.done;
    pos = omega (arith, p.pos);
    before = λ c q. ground (arith, p.before c);
    head = λ q. ground (arith, p.before img.pos);
    tail = λ c q t. elim (Bool-cases (c == img.pos + 1)) [
      | inl e ↦ let z : c ≡ img.pos + 1 = ground arith in rw z (p.head (ground arith))
      | inr e ↦ p.tail c (ground arith) (omega arith)
    ];
  }

  -- One block, and `n - 1` copies of another.
  pub and_then-Puts :
      (first other : Bytes) (n : ℕ) (img : Image)
      → 0 < n
      → Puts first other n img (and_then (write_block first img) (write_copies other (n - 1)))
  and_then-Puts first other n img pos = rw (write_block-ok first img) (
      Puts-first first other n img (write_copies other (n - 1) (grown first img)) pos
        (write_copies-Puts other (n - 1) (grown first img)))

  pub write_blocks-Puts :
      (call : ℕ) (first other : Bytes) (n : ℕ) (img : Image)
      → 0 < n
      → posix.malloc_ok call ≡ true
      → Puts first other n img (write_blocks call first other n img)
  unfolding write_blocks
  write_blocks-Puts call first other n img pos m = rw m (and_then-Puts first other n img pos)

  pub write_block-Puts : (b : Bytes) (img : Image) → Puts b b 1 img (write_block b img)
  write_block-Puts b img = rw (write_block-ok b img) (
      Puts-first b b 1 img (true, grown b img) (omega arith)
        (unfold write_copies in write_copies-Puts b 0 (grown b img)))
