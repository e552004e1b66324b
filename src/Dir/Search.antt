-- ===== src/Dir/Search.antt =====
-- The searches in a directory block: for an inode, for a free entry, for a name.
use pnl.Base.{
  ℕ, zero, suc, ◌+◌, ◌*◌, ◌%◌, ◌≤◌, ◌<◌, ◌≡◌, ◌≢◌, inl, inr, refl, true, false, arith, Option, none,
  some, List, [], ◌∷◌, length, ◌==◌, leb, if◌then◌else◌, Bool-cases, ap, sym, ◌∙◌, u32_mod,
}
use pnl.Kernel.{StringApi, char_at}
use pnl.Memory.{Bytes, store32}
use pnl.Memory.Laws.{load-cong, load-store_self, load-store_ne, store-outside}
use pnl.Fs.{filename_len, max_subfiles}
use pnl.Dir.{sub_inode, name_at, same_name, find_name, find_slot, find_inode, set_entry}
use pnl.Dir.Layout.{Compact}

find_inode_from :
    (d : Bytes) (ino n f k i : ℕ) (acc : Option ℕ)
    → Compact n d
    → ino ≢ 0
    → f < n
    → sub_inode d f ≡ ino
    → ((j : ℕ) → j < n → sub_inode d j ≡ ino → j ≡ f)
    → k + i ≡ max_subfiles
    → i ≤ n
    → find_inode d ino k i acc ≡ (n, (if leb i f then some f else acc))
unfolding find_inode
find_inode_from d ino n f zero i acc c nz lt here unique e le = ground (arith, c.fits)
find_inode_from d ino n f (suc k) i acc c nz lt here unique e le = elim (Bool-cases (i == n)) [
  | inl end ↦ ground (arith, c.free i, c.used i)
  | inr more ↦ ground (
    arith,
    c.used i,
    unique i,
    find_inode_from d ino n f k (i + 1) (if sub_inode d i == ino then some i else acc) c nz lt here
        unique (omega arith) (ground arith),
  )
]

-- In a compact block with one entry `f` for the inode, the search finds that entry and the number of
-- used entries.
pub find_inode_lem :
    (d : Bytes) (ino n f : ℕ)
    → Compact n d
    → ino ≢ 0
    → f < n
    → sub_inode d f ≡ ino
    → ((j : ℕ) → j < n → sub_inode d j ≡ ino → j ≡ f)
    → find_inode d ino 128 0 none ≡ (n, some f)
find_inode_lem d ino n f c nz lt here unique =
    find_inode_from d ino n f 128 0 none c nz lt here unique refl (omega arith) ∙ ground arith

find_slot_from :
    (d : Bytes) (n k i : ℕ) → Compact n d → k + i ≡ max_subfiles → i ≤ n → find_slot d k i ≡ n
unfolding find_slot
find_slot_from d n zero i c e le = omega (arith, c.fits)
find_slot_from d n (suc k) i c e le = elim (Bool-cases (i == n)) [
  | inl end ↦ ground (arith, c.free i)
  | inr more ↦ ground (arith, c.used i, find_slot_from d n k (i + 1) c (omega arith) (ground arith))
]

-- The first free entry of a compact block is the one behind its used entries.
pub find_slot_lem : (d : Bytes) (n : ℕ) → Compact n d → find_slot d 128 0 ≡ n
find_slot_lem d n c = find_slot_from d n 128 0 c refl (omega arith)

char_at-beyond : (s : List ℕ) → char_at s (length s) ≡ 0
char_at-beyond [] = refl
char_at-beyond (c ∷ s) = char_at-beyond s

same_name-true :
    (d : Bytes) (o : ℕ) (name : List ℕ) (i k : ℕ)
    → ((j : ℕ) → j ≤ length name → d (o + j) ≡ char_at name j)
    → i ≤ length name
    → length name < i + k
    → same_name d o name i k ≡ true
unfolding same_name
same_name-true d o name i zero h le lt = absurd (omega arith)
same_name-true d o name i (suc k) h le lt = elim (Bool-cases (i == length name)) [
  | inl end ↦
      let z : char_at name i ≡ 0 = ap (char_at name) (ground arith) ∙ char_at-beyond name in
      ground (arith, h i)
  | inr more ↦ ground (arith, h i, same_name-true d o name (i + 1) k h (ground arith) (omega arith))
]

pub same_name-cong :
    (d e : Bytes) (o : ℕ) (name : List ℕ) (i k : ℕ)
    → ((j : ℕ) → i ≤ j → j < i + k → d (o + j) ≡ e (o + j))
    → same_name d o name i k ≡ same_name e o name i k
unfolding same_name
same_name-cong d e o name i zero h = refl
same_name-cong d e o name i (suc k) h =
    ground
      (arith, h i, same_name-cong d e o name (i + 1) k (λ j p q. h j (omega arith) (omega arith)))

none_from :
    (d : Bytes) (name : List ℕ) (n k i : ℕ)
    → Compact n d
    → ((j : ℕ) → j < n → same_name d (name_at j) name 0 filename_len ≡ false)
    → k + i ≡ max_subfiles
    → find_name d name k i ≡ none
unfolding find_name
none_from d name n zero i c fresh e = refl
none_from d name n (suc k) i c fresh e = elim (Bool-cases (leb n i)) [
  | inl end ↦ ground (arith, c.free i)
  | inr more ↦ ground (arith, fresh i, none_from d name n k (i + 1) c fresh (omega arith))
]

-- A name that no entry has is not found.
pub find_name-none :
    (d : Bytes) (name : List ℕ) (n : ℕ)
    → Compact n d
    → ((j : ℕ) → j < n → same_name d (name_at j) name 0 filename_len ≡ false)
    → find_name d name 128 0 ≡ none
find_name-none d name n c fresh = none_from d name n 128 0 c fresh refl

module _ ⦃str : StringApi⦄ where
  open str use {strscpy-copied, strscpy-terminated, strscpy-outside}

  -- The entry `n` of a block after it was set.
  pub record Set (d : Bytes) (n ino : ℕ) (name : List ℕ) (e : Bytes) : Type 0 where
    pub inode : sub_inode e n ≡ ino % u32_mod
    pub named : (j : ℕ) → j ≤ length name → e (name_at n + j) ≡ char_at name j
    pub inodes : (i : ℕ) → i ≢ n → sub_inode e i ≡ sub_inode d i
    pub names : (i j : ℕ) → i ≢ n → j < filename_len → e (name_at i + j) ≡ d (name_at i + j)

  pub set_entry-Set :
      (d : Bytes) (n ino : ℕ) (name : List ℕ)
      → length name < filename_len
      → Set d n ino name (set_entry d n ino name)
  unfolding set_entry
  set_entry-Set d n ino name short = record {
    inode =
        load-cong (set_entry d n ino name) base (32 * n) (32 * n)
          (λ k q. strscpy-outside base (name_at n) name 28 (32 * n + k) (ground arith))
        ∙ load-store_self d (32 * n) ino;
    named = λ j p. elim (Bool-cases (j == length name)) [
      | inl end ↦
          let e : j ≡ length name = ground arith in
          rw (e, char_at-beyond name)
            (ap (λ (t : ℕ). set_entry d n ino name (name_at n + t)) (omega arith)
              ∙ strscpy-terminated base (name_at n) name 28 (omega arith))
      | inr more ↦ strscpy-copied base (name_at n) name 28 j (ground arith) (ground arith)
    ];
    inodes = λ i ne.
        load-cong (set_entry d n ino name) base (32 * i) (32 * i)
          (λ k q. strscpy-outside base (name_at n) name 28 (32 * i + k) (ground arith))
        ∙ load-store_ne d (32 * n) (32 * i) ino (ground arith);
    names = λ i j ne lt.
        strscpy-outside base (name_at n) name 28 (name_at i + j) (ground arith)
        ∙ store-outside d (32 * n) ino (name_at i + j) (ground arith);
  }
    where
      base : Bytes
      base = store32 d (32 * n) ino

  find_name_from :
      (d e : Bytes) (name : List ℕ) (n ino k i : ℕ)
      → Compact n d
      → Set d n ino name e
      → length name < filename_len
      → ino % u32_mod ≢ 0
      → ((j : ℕ) → j < n → same_name d (name_at j) name 0 filename_len ≡ false)
      → k + i ≡ max_subfiles
      → i ≤ n
      → n < max_subfiles
      → find_name e name k i ≡ some (ino % u32_mod)
  unfolding find_name
  find_name_from d e name n ino zero i c s short nz fresh q le room = absurd (omega arith)
  find_name_from d e name n ino (suc k) i c s short nz fresh q le room =
      elim (Bool-cases (i == n)) [
        | inl end ↦
            let at : i ≡ n = ground arith in
            rw (at, s.inode)
              (ground (arith, same_name-true e (name_at n) name 0 28 s.named (omega arith) short))
        | inr more ↦ ground (
          arith,
          s.inodes i,
          c.used i,
          fresh i,
          same_name-cong e d (name_at i) name 0 28 (λ j p r. s.names i j (ground arith) r),
          find_name_from d e name n ino k (i + 1) c s short nz fresh (omega arith) (ground arith)
              room,
        )
      ]

  -- In a compact block with room for one more, no entry of which has the name, which is shorter than
  -- 28 characters: after the first free entry was set, a search for the name finds its inode.
  pub find_name-set :
      (d : Bytes) (name : List ℕ) (n ino : ℕ)
      → Compact n d
      → n < max_subfiles
      → length name < filename_len
      → ino % u32_mod ≢ 0
      → ((j : ℕ) → j < n → same_name d (name_at j) name 0 filename_len ≡ false)
      → find_name (set_entry d (find_slot d 128 0) ino name) name 128 0 ≡ some (ino % u32_mod)
  find_name-set d name n ino c room short nz fresh = rw (find_slot_lem d n c) (
      find_name_from d (set_entry d n ino name) name n ino 128 0 c
        (set_entry-Set d n ino name short) short nz fresh refl (omega arith) room)

  same_name-false :
      (d : Bytes) (o : ℕ) (name : List ℕ) (j i k : ℕ)
      → i ≤ j
      → j < i + k
      → d (o + j) ≢ char_at name j
      → ((l : ℕ) → l < j → char_at name l ≢ 0)
      → same_name d o name i k ≡ false
  unfolding same_name
  same_name-false d o name j i zero le lt differ nonzero = absurd (omega arith)
  same_name-false d o name j i (suc k) le lt differ nonzero = elim (Bool-cases (i == j)) [
    | inl here ↦ let e : d (o + i) ≢ char_at name i = λ p. differ (ground arith) in ground arith
    | inr more ↦ ground (
      arith,
      nonzero i,
      same_name-false d o name j (i + 1) k (ground arith) (omega arith) differ nonzero,
    )
  ]

  -- A name of 28 characters, the most that the handlers accept, is cut to 27 when it is stored: the
  -- entry just set does not compare equal to the name.
  pub same_name-longest :
      (d : Bytes) (n ino : ℕ) (name : List ℕ)
      → length name ≡ filename_len
      → ((l : ℕ) → l < filename_len → char_at name l ≢ 0)
      → same_name (set_entry d n ino name) (name_at n) name 0 filename_len ≡ false
  unfolding set_entry
  same_name-longest d n ino name long nonzero =
      same_name-false (set_entry d n ino name) (name_at n) name 27 0 28 (omega arith) (omega arith)
        (λ p. nonzero 27 (omega arith) (sym p ∙ cut)) (λ l q. nonzero l (omega arith))
    where
      cut : set_entry d n ino name (name_at n + 27) ≡ 0
      cut =
          ap (λ (t : ℕ). set_entry d n ino name (name_at n + t)) (omega arith)
          ∙ strscpy-terminated (store32 d (32 * n) ino) (name_at n) name 28 (omega arith)
