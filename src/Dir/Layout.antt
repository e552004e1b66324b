-- ===== src/Dir/Layout.antt =====
-- Directory blocks whose used entries come first, as every handler leaves them.
use pnl.Base.{
  ℕ, ◌+◌, ◌-◌, ◌*◌, ◌≤◌, ◌<◌, ◌≡◌, ◌≢◌, inl, inr, arith, ◌==◌, ltb, if◌then◌else◌, Bool-cases, ap,
  ◌∙◌,
}
use pnl.Memory.{Bytes, memmove, memset}
use pnl.Memory.Laws.{load-cong, load-zero}
use pnl.Fs.{filename_len, max_subfiles}
use pnl.Dir.{sub_inode, name_at, remove_entry}

-- The entries below `n` are used, the others free.
pub record Compact (n : ℕ) (dblock : Bytes) : Type 0 where
  pub fits : n ≤ max_subfiles
  pub used : (i : ℕ) → i < n → sub_inode dblock i ≢ 0
  pub free : (i : ℕ) → n ≤ i → i < max_subfiles → sub_inode dblock i ≡ 0

-- What taking out the entry `f` of `n` does to the bytes of the block.
pub record Removed (f n : ℕ) (old new : Bytes) : Type 0 where
  pub before : (a : ℕ) → a < 32 * f → new a ≡ old a
  pub moved : (a : ℕ) → 32 * f ≤ a → a + 32 < 32 * n → new a ≡ old (a + 32)
  pub last : (a : ℕ) → 32 * (n - 1) ≤ a → a < 32 * n → new a ≡ 0
  pub after : (a : ℕ) → 32 * n ≤ a → new a ≡ old a

pub remove_entry-Removed :
    (d : Bytes) (f n : ℕ) → f < n → n ≤ max_subfiles → Removed f n d (remove_entry d f n)
unfolding remove_entry memmove memset
remove_entry-Removed d f n lt fits = record {
  before = λ a p. ground arith;
  moved = λ a p q. ground (arith, source a p);
  last = λ a p q. ground arith;
  after = λ a p. ground arith;
}
  where
    source : (a : ℕ) → 32 * f ≤ a → d (32 * (f + 1) + (a - 32 * f)) ≡ d (a + 32)
    source a p = ap d (omega arith)

-- The same, entry by entry: the inode numbers and the characters of the names.
pub record Entries (f n : ℕ) (old new : Bytes) : Type 0 where
  pub inodes :
      (i : ℕ)
      → i < max_subfiles
      → sub_inode new i ≡ (
          if ltb i f
          then sub_inode old i
          else if ltb (i + 1) n
          then sub_inode old (i + 1)
          else if i + 1 == n
          then 0
          else sub_inode old i)
  pub names :
      (i k : ℕ)
      → i + 1 < n
      → k < filename_len
      → new (name_at i + k) ≡ old (name_at (if ltb i f then i else i + 1) + k)

Removed-Entries :
    (d e : Bytes) (f n : ℕ) → f < n → n ≤ max_subfiles → Removed f n d e → Entries f n d e
Removed-Entries d e f n lt fits r = record {
  inodes = λ i p. elim (Bool-cases (ltb i f)) [
    | inl h ↦ rw h (load-cong e d (32 * i) (32 * i) (λ k q. r.before (32 * i + k) (ground arith)))
    | inr h ↦ rw h (elim (Bool-cases (ltb (i + 1) n)) [
      | inl g ↦ rw g (
          load-cong e d (32 * i) (32 * (i + 1))
            (λ k q. r.moved (32 * i + k) (ground arith) (ground arith) ∙ ap d (omega arith)))
      | inr g ↦ rw g (elim (Bool-cases (i + 1 == n)) [
        | inl z ↦
            rw z (load-zero e (32 * i) (λ k q. r.last (32 * i + k) (ground arith) (ground arith)))
        | inr z ↦
            rw z (load-cong e d (32 * i) (32 * i) (λ k q. r.after (32 * i + k) (ground arith)))
      ])
    ])
  ];
  names = λ i k p q. elim (Bool-cases (ltb i f)) [
    | inl h ↦ rw h (r.before (name_at i + k) (ground arith))
    | inr h ↦ rw h (r.moved (name_at i + k) (ground arith) (ground arith) ∙ ap d (omega arith))
  ];
}

-- Taking out one of the `n` used entries of a compact directory block leaves the other entries, in
-- their order, as the first ones, and the block compact.
pub remove_entry_lem :
    (d : Bytes) (f n : ℕ)
    → f < n
    → Compact n d
    → Entries f n d (remove_entry d f n) × Compact (n - 1) (remove_entry d f n)
remove_entry_lem d f n lt c = (
  e,
  record {
    fits = omega (arith, c.fits);
    used = λ i p. ground (arith, e.inodes i, c.used i, c.used (i + 1), c.fits);
    free = λ i p q. ground (arith, e.inodes i, c.free i, c.fits);
  },
)
  where
    e : Entries f n d (remove_entry d f n)
    e = Removed-Entries d (remove_entry d f n) f n lt c.fits (remove_entry-Removed d f n lt c.fits)
