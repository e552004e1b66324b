-- ===== src/Memory.antt =====
-- The bytes that a buffer head points to, as a function of the offset; the C library's `memcpy`,
-- `memmove` and `memset` on them, and the `uint32_t` at an offset, in little-endian order as the
-- x86-64 machines of the course read it.
pub mod Laws
use pnl.Base.{ℕ, ◌+◌, ◌-◌, ◌*◌, ◌/◌, ◌%◌, ◌^◌, within, update, if◌then◌else◌}

abbrev pub Bytes : Type 0
Bytes = ℕ → ℕ

-- `memmove(dst + d, src + s, n)`. The source is read as it was before the copy.
unfoldable pub memmove : Bytes → ℕ → Bytes → ℕ → ℕ → Bytes
memmove dst d src s n o = if within d n o then src (s + (o - d)) else dst o

unfoldable pub memset : Bytes → ℕ → ℕ → ℕ → Bytes
memset dst d v n o = if within d n o then v else dst o

unfoldable pub load32 : Bytes → ℕ → ℕ
load32 b o = b o + b (o + 1) * 2 ^ 8 + b (o + 2) * 2 ^ 16 + b (o + 3) * 2 ^ 24

unfoldable pub store32 : Bytes → ℕ → ℕ → Bytes
store32 b o v =
    update
      (update (update (update b o (v % 2 ^ 8)) (o + 1) (v / 2 ^ 8 % 2 ^ 8)) (o + 2)
        (v / 2 ^ 16 % 2 ^ 8))
      (o + 3) (v / 2 ^ 24 % 2 ^ 8)
