-- ===== src/Kernel.antt =====
-- What the file system takes from the Linux kernel, as an interface: operations with their
-- documented behaviour. The C library's functions on bytes are in `Memory`.
use pnl.Memory.{Bytes, memmove}
use pnl.Base.{
  ℕ, zero, suc, ◌+◌, ◌-◌, min, List, [], ◌∷◌, length, ◌≤◌, ◌<◌, ◌≡◌, Bool, true, false, within,
  if◌then◌else◌,
}

-- A bitmap of `unsigned long` words, bit by bit.
abbrev pub Bits : Type 0
Bits = ℕ → Bool

-- linux/find.h and linux/bitmap.h
pub record BitmapApi : Type 0 where
  pub find_first_bit : Bits → ℕ → ℕ
  -- start, number of bits
  pub bitmap_clear : Bits → ℕ → ℕ → Bits
  pub bitmap_set : Bits → ℕ → ℕ → Bits
  pub find_first_bit-le : (bits : Bits) (size : ℕ) → find_first_bit bits size ≤ size
  pub find_first_bit-set :
      (bits : Bits) (size : ℕ)
      → find_first_bit bits size < size
      → bits (find_first_bit bits size) ≡ true
  pub find_first_bit-least :
      (bits : Bits) (size i : ℕ) → i < find_first_bit bits size → bits i ≡ false
  pub bitmap_clear_lem :
      (bits : Bits) (start n i : ℕ)
      → bitmap_clear bits start n i ≡ (if within start n i then false else bits i)
  pub bitmap_set_lem :
      (bits : Bits) (start n i : ℕ)
      → bitmap_set bits start n i ≡ (if within start n i then true else bits i)

-- struct timespec64
pub record Timespec : Type 0 where
  pub tv_sec : ℕ
  pub tv_nsec : ℕ

-- linux/buffer_head.h, linux/fs.h and linux/uaccess.h. During one call `sb_bread` gives a buffer for
-- a block always or never; `copy_to_user` and `copy_from_user` return the number of bytes that they
-- could not copy.
pub record DeviceApi : Type 0 where
  pub bread_ok : ℕ → Bool
  pub current_time : Timespec
  -- user memory, address, buffer, offset, number of bytes; with the new user memory
  pub copy_to_user : Bytes → ℕ → Bytes → ℕ → ℕ → ℕ × Bytes
  -- buffer, offset, user memory, address, number of bytes; with the new buffer
  pub copy_from_user : Bytes → ℕ → Bytes → ℕ → ℕ → ℕ × Bytes
  pub copy_to_user_lem :
      (user : Bytes) (to : ℕ) (buf : Bytes) (from n : ℕ)
      → (copy_to_user user to buf from n).0 ≡ 0
      → (copy_to_user user to buf from n).1 ≡ memmove user to buf from n
  pub copy_from_user_lem :
      (buf : Bytes) (to : ℕ) (user : Bytes) (from n : ℕ)
      → (copy_from_user buf to user from n).0 ≡ 0
      → (copy_from_user buf to user from n).1 ≡ memmove buf to user from n

-- The character at `i` of a text that ends in a 0.
abbrev pub char_at : List ℕ → ℕ → ℕ
char_at [] i = 0
char_at (c ∷ s) zero = c
char_at (c ∷ s) (suc i) = char_at s i

-- linux/string.h
pub record StringApi : Type 0 where
  -- destination, offset, source, size of the destination
  pub strscpy : Bytes → ℕ → List ℕ → ℕ → Bytes
  pub strscpy-copied :
      (dst : Bytes) (o : ℕ) (src : List ℕ) (count i : ℕ)
      → i < length src
      → i + 1 < count
      → strscpy dst o src count (o + i) ≡ char_at src i
  pub strscpy-terminated :
      (dst : Bytes) (o : ℕ) (src : List ℕ) (count : ℕ)
      → 0 < count
      → strscpy dst o src count (o + min (length src) (count - 1)) ≡ 0
  pub strscpy-outside :
      (dst : Bytes) (o : ℕ) (src : List ℕ) (count a : ℕ)
      → within o count a ≡ false
      → strscpy dst o src count a ≡ dst a
