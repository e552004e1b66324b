-- ===== src/Weasel.antt =====
-- labs/7: the kernel modules that show the dentry cache, weasel.c and weasel_procfs.c of task-2 and
-- weasel.c of harena. What goes to the sequence file is the list of the dentries shown, each with its
-- path; the lock of the table is not modelled.
pub mod Show
use pnl.Base.{
  ℕ, zero, suc, ◌+◌, ◌-◌, ◌*◌, ◌%◌, ◌^◌, max, Bool, true, false, Option, none, some, List, [], ◌∷◌,
  ◌++◌, length, ltb, leb, if◌then◌else◌, not,
}
use pnl.Fs.{Result, ok, err, fault}

-- struct dentry: the path that `seq_dentry` prints, and the number of `d_inode`.
pub record Dentry : Type 0 where
  pub path : List ℕ
  pub d_inode : Option ℕ

-- `dentry_hashtable` with the variable `d_hash_shift` of fs/dcache.c, which makes `32 - d_hash_shift`
-- bits of the hash select one of the buckets; the kernel's value is at most 32.
pub record Dcache : Type 0 where
  pub d_hash_shift : ℕ
  pub bucket : ℕ → List Dentry

abbrev pub nr_buckets : Dcache → ℕ
nr_buckets t = 2 ^ (32 - t.d_hash_shift)

abbrev pub is_negative : Dentry → Bool
is_negative d = elim d.d_inode [ some i ↦ false | none ↦ true ]

-- `hlist_bl_for_each_entry` of `weasel_pwd_show`
unfoldable pub negatives : List Dentry → List Dentry
negatives [] = []
negatives (d ∷ ds) = let rest = negatives ds in if is_negative d then d ∷ rest else rest

-- What a walk over the table does with a bucket: nothing is read behind its end.
unfoldable pub read_bucket : {A : Type 0} → Dcache → (i : ℕ) → (List Dentry → A) → Result A
read_bucket t i f = if leb (nr_buckets t) i then fault else ok (f (t.bucket i))

-- A bucket before the later ones.
unfoldable pub in_front : Result (List Dentry) → Result (List Dentry) → Result (List Dentry)
in_front (ok ds) (ok rest) = ok (ds ++ rest)
in_front (ok ds) (err e) = err e
in_front (ok ds) fault = fault
in_front (err e) rest = err e
in_front fault rest = fault

-- The loops over the buckets, at the bucket `i` with `k` left.
unfoldable pub dcache_show_from : Dcache → (k i : ℕ) → Result (List Dentry)
dcache_show_from t zero i = ok []
dcache_show_from t (suc k) i = in_front (read_bucket t i (λ ds. ds)) (dcache_show_from t k (i + 1))

unfoldable pub pwd_show_from : Dcache → (k i : ℕ) → Result (List Dentry)
pwd_show_from t zero i = ok []
pwd_show_from t (suc k) i = in_front (read_bucket t i negatives) (pwd_show_from t k (i + 1))

-- `1 << k` for an `int`, as an `unsigned long`: by 31 the result is negative.
unfoldable pub int_shift : ℕ → ℕ
int_shift k = if ltb k 31 then 2 ^ k else 2 ^ 64 - 2 ^ 31

-- What follows the computation of `1 << k`; a shift by 32 or more is undefined, and a fault here.
unfoldable pub shifted : {A : Type 0} → ℕ → (ℕ → Result A) → Result A
shifted k f = if ltb 31 k then fault else f (int_shift k)

-- `32 - d_hash_shift`, an unsigned int
unfoldable pub hash_bits : Dcache → ℕ
hash_bits t = (2 ^ 32 + 32 - t.d_hash_shift) % 2 ^ 32

-- task-2/weasel_procfs.c
unfoldable pub weasel_dcache_show : Dcache → Result (List Dentry)
weasel_dcache_show t = shifted (hash_bits t) (λ size. dcache_show_from t size 0)

unfoldable pub weasel_pwd_show : Dcache → Result (List Dentry)
weasel_pwd_show t = shifted (hash_bits t) (λ size. pwd_show_from t size 0)

-- harena/weasel.c
unfoldable pub dcache_show : Dcache → Result (List Dentry)
dcache_show t = shifted t.d_hash_shift (λ size. dcache_show_from t size 0)

unfoldable pub pwd_show : Dcache → Result (List Dentry)
pwd_show t = shifted t.d_hash_shift (λ size. pwd_show_from t size 0)

-- The loop of task-2/weasel.c: `buckets_count` and `max_bucket_entry_count`.
unfoldable pub count_from : Dcache → (k i : ℕ) → ℕ × ℕ → ℕ × ℕ
count_from t zero i counts = counts
count_from t (suc k) i counts =
    let bucket_entry_count = length (t.bucket i) in
    count_from t k (i + 1) (
      counts.0 + bucket_entry_count,
      (if ltb counts.1 bucket_entry_count then bucket_entry_count else counts.1),
    )

-- With more rounds than the table has buckets it reads behind the end of the table.
unfoldable pub count_buckets : Dcache → (size : ℕ) → Result (ℕ × ℕ)
count_buckets t size = if ltb (nr_buckets t) size then fault else ok (count_from t size 0 (0, 0))

unfoldable pub count_dentries : Dcache → Result (ℕ × ℕ)
count_dentries t = shifted (hash_bits t) (count_buckets t)
