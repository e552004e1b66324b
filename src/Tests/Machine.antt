-- ===== src/Tests/Machine.antt =====
-- The kernel's interfaces as concrete functions: every access succeeds.
use pnl.Base.{
  ℕ, zero, suc, ◌+◌, ◌-◌, ◌≤◌, ◌<◌, ◌≡◌, refl, ap, min, max, true, false, ◌&&◌, ltb, ◌==◌, within,
  length, if◌then◌else◌, arith, List, inl, inr, Bool-cases,
}
use pnl.File.Page.{PageApi}
use pnl.Fs.{ok, set_inode}
use pnl.Inode.Store.{VfsApi}
use pnl.Kernel.{Bits, BitmapApi, DeviceApi, StringApi, char_at}
use pnl.Memory.{Bytes, memmove}

-- The first set bit from `i` on, among `k`.
unfoldable pub first_set : Bits → ℕ → ℕ → ℕ
first_set bits zero i = i
first_set bits (suc k) i = let rest = first_set bits k (i + 1) in if bits i then i else rest

first_set-le : (bits : Bits) (k i : ℕ) → first_set bits k i ≤ k + i
unfolding first_set
first_set-le bits zero i = omega arith
first_set-le bits (suc k) i = ground (arith, first_set-le bits k (i + 1))

first_set-set :
    (bits : Bits) (k i : ℕ) → first_set bits k i < k + i → bits (first_set bits k i) ≡ true
unfolding first_set
first_set-set bits zero i h = absurd (omega arith)
first_set-set bits (suc k) i h = elim (Bool-cases (bits i)) [
  | inl e ↦ rw (e) e
  | inr e ↦ ground (arith, first_set-set bits k (i + 1))
]

first_set-least : (bits : Bits) (k i j : ℕ) → i ≤ j → j < first_set bits k i → bits j ≡ false
unfolding first_set
first_set-least bits zero i j le h = absurd (omega arith)
first_set-least bits (suc k) i j le h = elim (Bool-cases (bits i)) [
  | inl e ↦ absurd (ground arith)
  | inr e ↦ elim (Bool-cases (j == i)) [
    | inl z ↦ ground arith
    | inr z ↦ first_set-least bits k (i + 1) j (ground arith) (ground arith)
  ]
]

pub first-le : (bits : Bits) (size : ℕ) → first_set bits size 0 ≤ size
first-le bits size = omega (arith, first_set-le bits size 0)

pub first-set :
    (bits : Bits) (size : ℕ) → first_set bits size 0 < size → bits (first_set bits size 0) ≡ true
first-set bits size h = first_set-set bits size 0 (omega arith)

pub first-least : (bits : Bits) (size i : ℕ) → i < first_set bits size 0 → bits i ≡ false
first-least bits size i h = first_set-least bits size 0 i (omega arith) h

instance abbrev pub bitmap_api : BitmapApi
bitmap_api = record {
  find_first_bit = λ bits size. first_set bits size 0;
  bitmap_clear = λ bits start n i. if within start n i then false else bits i;
  bitmap_set = λ bits start n i. if within start n i then true else bits i;
  find_first_bit-le = first-le;
  find_first_bit-set = first-set;
  find_first_bit-least = first-least;
  bitmap_clear_lem = λ bits start n i. refl;
  bitmap_set_lem = λ bits start n i. refl;
}

instance abbrev pub device_api : DeviceApi
device_api = record {
  bread_ok = λ b. true;
  current_time = record { tv_sec = 1700000000; tv_nsec = 0 };
  copy_to_user = λ user to buf from n. (0, memmove user to buf from n);
  copy_from_user = λ buf to user from n. (0, memmove buf to user from n);
  copy_to_user_lem = λ user to buf from n e. refl;
  copy_from_user_lem = λ buf to user from n e. refl;
}

-- A device of 20 blocks, which fails behind its end.
abbrev pub small_device : DeviceApi
small_device = record device_api { bread_ok = λ b. ltb b 20 }

-- How many characters `strscpy` copies.
abbrev pub copied : List ℕ → ℕ → ℕ
copied src count = min (length src) (count - 1)

unfoldable pub copy_text : Bytes → ℕ → List ℕ → ℕ → Bytes
copy_text dst o src count a =
    if within o (copied src count) a
    then char_at src (a - o)
    else if (a == o + copied src count) && within o count a
    then 0
    else dst a

pub copy_text-copied :
    (dst : Bytes) (o : ℕ) (src : List ℕ) (count i : ℕ)
    → i < length src
    → i + 1 < count
    → copy_text dst o src count (o + i) ≡ char_at src i
unfolding copy_text
copy_text-copied dst o src count i h k = ground (arith, at)
  where
    at : char_at src (o + i - o) ≡ char_at src i
    at = ap (char_at src) (omega arith)

pub copy_text-terminated :
    (dst : Bytes) (o : ℕ) (src : List ℕ) (count : ℕ)
    → 0 < count
    → copy_text dst o src count (o + min (length src) (count - 1)) ≡ 0
unfolding copy_text
copy_text-terminated dst o src count h = ground arith

pub copy_text-outside :
    (dst : Bytes) (o : ℕ) (src : List ℕ) (count a : ℕ)
    → within o count a ≡ false
    → copy_text dst o src count a ≡ dst a
unfolding copy_text
copy_text-outside dst o src count a h = ground arith

instance abbrev pub string_api : StringApi
string_api = record {
  strscpy = copy_text;
  strscpy-copied = copy_text-copied;
  strscpy-terminated = copy_text-terminated;
  strscpy-outside = copy_text-outside;
}

pub modes_apart : (mode : ℕ) → (mode == 1) ≡ true → (mode == 2) ≡ true → ⊥
modes_apart mode p q = ground arith

-- Mode 1 is a directory's, and mode 2 a regular file's.
instance abbrev pub vfs_api : VfsApi
vfs_api = record {
  iget_ok = λ ino. true;
  is_dir = λ mode. mode == 1;
  is_reg = λ mode. mode == 2;
  s_ifdir = λ mode. 1;
  inode_init_owner =
      λ inode dir mode. record inode { i_mode = mode; i_uid = dir.i_uid; i_gid = dir.i_gid };
  init_owner_root = λ inode mode. record inode { i_mode = mode; i_uid = 0; i_gid = 0 };
  iput = λ ino fs. fs;
  not_both = modes_apart;
  inode_init_owner_lem = λ inode dir mode. refl;
  init_owner_root_lem = λ inode mode. refl;
  iput_lem = λ ino fs. refl;
}

-- The generic code sets the size of the file when a write went past its end.
abbrev pub page_api : PageApi
page_api = record {
  block_write_begin = λ ino pos len get fs. (ok tt, fs);
  generic_write_end = λ ino pos len copied fs. (
    copied,
    set_inode fs ino (record (fs.inode ino) { i_size = max (fs.inode ino).i_size (pos + copied) }),
  );
  truncate_pagecache = λ ino size fs. fs;
}
