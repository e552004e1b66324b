-- ===== src/Weasel/Show.antt =====
-- What the files of the weasel modules show.
use pnl.Base.{
  ℕ, zero, suc, ◌+◌, ◌-◌, ◌%◌, ◌^◌, ◌≤◌, ◌<◌, ◌≡◌, inl, inr, ◌⊎◌, ◌==◌, refl, ap, ◌∙◌, Bool, true,
  false, none, some, List, [], ◌∷◌, ◌++◌, length, ltb, leb, if◌then◌else◌, Bool-cases, arith,
}
use native.Mathlib.Nat.{pow-le-pow_right, one-le-pow}
use pnl.Fs.{Result, ok, fault}
use pnl.Weasel.{
  Dentry, Dcache, nr_buckets, is_negative, negatives, read_bucket, in_front, dcache_show_from,
  pwd_show_from, weasel_dcache_show, weasel_pwd_show, dcache_show, count_from, count_dentries,
  int_shift, shifted, hash_bits, count_buckets,
}

-- The dentries of the `k` buckets from the bucket `i` on.
unfoldable pub dentries : Dcache → (k i : ℕ) → List Dentry
dentries t zero i = []
dentries t (suc k) i = t.bucket i ++ dentries t k (i + 1)

dcache_show_from-dentries :
    (t : Dcache) (k i : ℕ) → k + i ≤ nr_buckets t → dcache_show_from t k i ≡ ok (dentries t k i)
unfolding dcache_show_from dentries in_front read_bucket
dcache_show_from-dentries t zero i h = refl
dcache_show_from-dentries t (suc k) i h =
    let below : leb (nr_buckets t) i ≡ false = ground arith in
    rw (below, dcache_show_from-dentries t k (i + 1) (omega arith)) refl

negatives-append : (a b : List Dentry) → negatives (a ++ b) ≡ negatives a ++ negatives b
unfolding negatives
negatives-append [] b = refl
negatives-append (d ∷ a) b = elim (Bool-cases (is_negative d)) [
  | inl e ↦ rw e (ap (λ l. d ∷ l) (negatives-append a b))
  | inr e ↦ rw e (negatives-append a b)
]

pwd_show_from-dentries :
    (t : Dcache) (k i : ℕ)
    → k + i ≤ nr_buckets t
    → pwd_show_from t k i ≡ ok (negatives (dentries t k i))
unfolding pwd_show_from dentries in_front read_bucket
pwd_show_from-dentries t zero i h = unfold negatives in refl
pwd_show_from-dentries t (suc k) i h =
    let below : leb (nr_buckets t) i ≡ false = ground arith in
    rw
      (
        below,
        pwd_show_from-dentries t k (i + 1) (omega arith),
        negatives-append (t.bucket i) (dentries t k (i + 1)),
      )
      refl

dcache_show_from-outside :
    (t : Dcache) (k i : ℕ)
    → i ≤ nr_buckets t
    → nr_buckets t < k + i
    → dcache_show_from t k i ≡ fault
unfolding dcache_show_from in_front read_bucket
dcache_show_from-outside t zero i le h = absurd (omega arith)
dcache_show_from-outside t (suc k) i le h = elim (Bool-cases (leb (nr_buckets t) i)) [
  | inl end ↦ rw end refl
  | inr more ↦
      let rest = dcache_show_from-outside t k (i + 1) (ground arith) (omega arith) in
      rw (more, rest) refl
]

int_shift-small : (k : ℕ) → k ≤ 30 → int_shift k ≡ 2 ^ k
unfolding int_shift
int_shift-small k h = ground arith

int_shift-large : (k : ℕ) → 30 < k → int_shift k ≡ 2 ^ 64 - 2 ^ 31
unfolding int_shift
int_shift-large k h = ground arith

shifted-small : {A : Type 0} (k : ℕ) (f : ℕ → Result A) → k ≤ 31 → shifted k f ≡ f (int_shift k)
unfolding shifted
shifted-small k f h = ground (arith, h)

-- With a shift above 16 there are fewer buckets than `1 << d_hash_shift`.
few_buckets :
    (t : Dcache)
    → 2 ≤ t.d_hash_shift
    → 16 < t.d_hash_shift
    → t.d_hash_shift ≤ 31
    → nr_buckets t < int_shift t.d_hash_shift
few_buckets t low over h = elim (Bool-cases (ltb t.d_hash_shift 31)) [
  | inl e ↦ omega (arith, int_shift-small t.d_hash_shift (ground arith), double, positive)
  | inr e ↦ omega (arith, int_shift-large t.d_hash_shift (ground arith), bounded)
]
  where
    double : 2 ^ suc (32 - t.d_hash_shift) ≤ 2 ^ t.d_hash_shift
    double = pow-le-pow_right (omega arith) (omega arith)

    positive : 1 ≤ 2 ^ (32 - t.d_hash_shift)
    positive = one-le-pow (32 - t.d_hash_shift) 2 (omega arith)

    bounded : 2 ^ (32 - t.d_hash_shift) ≤ 2 ^ 30
    bounded = pow-le-pow_right (omega arith) {i = 32 - t.d_hash_shift} {j = 30} (omega arith)

-- With the shift of harena, `1 << d_hash_shift` for a `d_hash_shift` from 2 to 31: above 16 the loop
-- leaves the table, and up to 16 it shows the first `2 ^ d_hash_shift` buckets only.
pub dcache_show-shift :
    (t : Dcache)
    → 2 ≤ t.d_hash_shift
    → t.d_hash_shift ≤ 31
    → (16 < t.d_hash_shift → dcache_show t ≡ fault)
      × (t.d_hash_shift ≤ 16 → dcache_show t ≡ ok (dentries t (2 ^ t.d_hash_shift) 0))
unfolding dcache_show
dcache_show-shift t low h =
    rw (shifted-small t.d_hash_shift (λ size. dcache_show_from t size 0) h) (
      λ over.
          dcache_show_from-outside t (int_shift t.d_hash_shift) 0 (omega arith)
            (omega (arith, few_buckets t low over h)),
      λ under.
          let fits : 2 ^ t.d_hash_shift ≤ 2 ^ (32 - t.d_hash_shift) =
            pow-le-pow_right (omega arith) (omega arith) in
          ap (λ n. dcache_show_from t n 0) (int_shift-small t.d_hash_shift (omega arith))
          ∙ dcache_show_from-dentries t (2 ^ t.d_hash_shift) 0 (omega (arith, fits)),
    )

length-append_list : (a b : List Dentry) → length (a ++ b) ≡ length a + length b
length-append_list [] b = omega arith
length-append_list (x ∷ a) b = omega (arith, length-append_list a b)

count_from-length :
    (t : Dcache) (k i c m : ℕ) → (count_from t k i (c, m)).0 ≡ c + length (dentries t k i)
unfolding count_from dentries
count_from-length t zero i c m = omega arith
count_from-length t (suc k) i c m = omega (
  arith,
  count_from-length t k (i + 1) (c + length (t.bucket i))
      (if ltb m (length (t.bucket i)) then length (t.bucket i) else m),
  length-append_list (t.bucket i) (dentries t k (i + 1)),
)

-- The maximum is one: no bucket is longer, and it is the start or one of the buckets.
record IsMax (t : Dcache) (k i m r : ℕ) : Type 0 where
  start : m ≤ r
  above : (j : ℕ) → i ≤ j → j < i + k → length (t.bucket j) ≤ r
  attained : (r ≡ m) ⊎ ((j : ℕ) × (i ≤ j) × (j < i + k) × (length (t.bucket j) ≡ r))

count_from-IsMax : (t : Dcache) (k i c m : ℕ) → IsMax t k i m (count_from t k i (c, m)).1
unfolding count_from
count_from-IsMax t zero i c m = record {
  start = omega arith;
  above = λ j p q. absurd (omega arith);
  attained = inl refl;
}
count_from-IsMax t (suc k) i c m =
    let n = if ltb m (length (t.bucket i)) then length (t.bucket i) else m in
    let r = count_from-IsMax t k (i + 1) (c + length (t.bucket i)) n in
    record {
      start = ground (arith, r.start);
      above = λ j p q. elim (Bool-cases (j == i)) [
        | inl here ↦
            let same : length (t.bucket j) ≡ length (t.bucket i) =
              ap (λ l. length (t.bucket l)) (ground arith) in
            ground (arith, r.start, same)
        | inr later ↦ r.above j (ground arith) (omega arith)
      ];
      attained = elim r.attained [
        | inl e ↦ elim (Bool-cases (ltb m (length (t.bucket i)))) [
          | inl more ↦ inr (i, omega arith, omega arith, ground (arith, e))
          | inr less ↦ inl (ground (arith, e))
        ]
        | inr (j, p, q, e) ↦ inr (j, omega arith, omega arith, e)
      ];
    }

-- The second list has, in their order, the dentries of the first one that have no inode.
pub data IsNegatives : List Dentry → List Dentry → Type 0 where
  done : IsNegatives [] []
  kept :
      {d : Dentry} {ds l : List Dentry}
      → d.d_inode ≡ none
      → IsNegatives ds l
      → IsNegatives (d ∷ ds) (d ∷ l)
  dropped :
      {d : Dentry} {ds l : List Dentry} {inode : ℕ}
      → d.d_inode ≡ some inode
      → IsNegatives ds l
      → IsNegatives (d ∷ ds) l

negatives-IsNegatives : (ds : List Dentry) → IsNegatives ds (negatives ds)
unfolding negatives
negatives-IsNegatives [] = done
negatives-IsNegatives (d ∷ ds) =
    elim d.d_inode
        as (λ n.
          d.d_inode ≡ n
          → IsNegatives (d ∷ ds) (
              if elim n as (λ m. Bool) [ some i ↦ false | none ↦ true ]
              then d ∷ negatives ds
              else negatives ds)) [
                | none ↦ λ e. kept e (negatives-IsNegatives ds)
                | some i ↦ λ e. dropped e (negatives-IsNegatives ds)
              ]
      refl

-- In task-2 the size of the table is right.
size_lem :
    {A : Type 0} (t : Dcache) (f : ℕ → Result A)
    → 2 ≤ t.d_hash_shift
    → t.d_hash_shift ≤ 32
    → shifted (hash_bits t) f ≡ f (nr_buckets t)
unfolding hash_bits
size_lem t f low high =
    ap (λ k. shifted k f) bits
    ∙ shifted-small (32 - t.d_hash_shift) f (omega arith)
    ∙ ap f (int_shift-small (32 - t.d_hash_shift) (omega arith))
  where
    bits : (2 ^ 32 + 32 - t.d_hash_shift) % 2 ^ 32 ≡ 32 - t.d_hash_shift
    bits = omega arith

-- In task-2, for a `d_hash_shift` from 2 to 32, the file `dcache` shows the dentries of all buckets, in
-- their order, and the file `pwd` those of them that have no inode; weasel.c counts as many dentries
-- as `dcache` shows, and the length of the longest bucket: no bucket is longer, and one has that
-- length.
pub weasel_show_lem :
    (t : Dcache)
    → 2 ≤ t.d_hash_shift
    → t.d_hash_shift ≤ 32
    → let all = dentries t (nr_buckets t) 0 in
      (weasel_dcache_show t ≡ ok all)
      × ((l : List Dentry) × (weasel_pwd_show t ≡ ok l) × IsNegatives all l)
      × ((longest : ℕ) × (count_dentries t ≡ ok (length all, longest))
          × ((j : ℕ) → j < nr_buckets t → length (t.bucket j) ≤ longest)
          × ((j : ℕ) × (j < nr_buckets t) × (length (t.bucket j) ≡ longest)))
unfolding count_dentries count_buckets weasel_dcache_show weasel_pwd_show
weasel_show_lem t low high = (
  size_lem t (λ size. dcache_show_from t size 0) low high
      ∙ dcache_show_from-dentries t (nr_buckets t) 0 (omega arith),
  (
    negatives (dentries t (nr_buckets t) 0),
    size_lem t (λ size. pwd_show_from t size 0) low high
        ∙ pwd_show_from-dentries t (nr_buckets t) 0 (omega arith),
    negatives-IsNegatives (dentries t (nr_buckets t) 0),
  ),
  (
    (count_from t (nr_buckets t) 0 (0, 0)).1,
    size_lem t (count_buckets t) low high
        ∙ within
        ∙ ap (λ n. ok (n, (count_from t (nr_buckets t) 0 (0, 0)).1)) all_counted,
    λ j p. r.above j (omega arith) (omega arith),
    elim r.attained [
      | inl e ↦
          (0, some_bucket, omega (arith, e, r.above 0 (omega arith) (omega (arith, some_bucket))))
      | inr (j, p, q, e) ↦ (j, omega arith, e)
    ],
  ),
)
  where
    r : IsMax t (nr_buckets t) 0 0 (count_from t (nr_buckets t) 0 (0, 0)).1
    r = count_from-IsMax t (nr_buckets t) 0 0 0

    within : count_buckets t (nr_buckets t) ≡ ok (count_from t (nr_buckets t) 0 (0, 0))
    within = unfold count_buckets in ground arith

    all_counted : (count_from t (nr_buckets t) 0 (0, 0)).0 ≡ length (dentries t (nr_buckets t) 0)
    all_counted = omega (arith, count_from-length t (nr_buckets t) 0 0 0)

    some_bucket : 0 < nr_buckets t
    some_bucket = one-le-pow (32 - t.d_hash_shift) 2 (omega arith)
