-- ===== src/Super/RoundTrip.antt =====
-- What was written to the bitmap blocks is read back.
use pnl.Base.{
  ℕ, zero, suc, ◌+◌, ◌-◌, ◌*◌, ◌/◌, ◌%◌, ◌≤◌, ◌<◌, ◌≡◌, refl, ap, subst, sym, ◌∙◌, true, ◌&&◌, some,
  if◌then◌else◌, arith, within,
}
use pnl.Fs.{Fs, Result, ok, block_size, mark_buffer_dirty, set_buffer}
use pnl.Kernel.{Bits, DeviceApi}
use pnl.Memory.{Bytes, memmove}
use pnl.Super.{bits_value, bit_of, bitmap_bytes, bytes_bitmap, sync_bitmap, read_bitmap}

pub bit_of-bits_value :
    (bits : Bits) (o k j : ℕ) → j < k → bit_of (bits_value bits o k) j ≡ bits (o + j)
unfolding bit_of bits_value
bit_of-bits_value bits o zero j h = absurd (omega arith)
bit_of-bits_value bits o (suc k) zero h = ground (arith, start)
  where
    start : bits (o + 0) ≡ bits o
    start = ap bits (omega arith)
bit_of-bits_value bits o (suc k) (suc j) h =
    ap (λ n. bit_of n j) half
    ∙ bit_of-bits_value bits (o + 1) k j (omega arith)
    ∙ ap bits (omega arith)
  where
    half :
        ((if bits o then 1 else 0) + 2 * bits_value bits (o + 1) k) / 2 ≡ bits_value bits (o + 1) k
    half = ground arith

bytes_bitmap-bitmap_bytes : (bits : Bits) (i : ℕ) → bytes_bitmap (bitmap_bytes bits) i ≡ bits i
bytes_bitmap-bitmap_bytes bits i =
    bit_of-bits_value bits (8 * (i / 8)) 8 (i % 8) (omega arith) ∙ ap bits (omega arith)

module _ ⦃dev : DeviceApi⦄ where
  open dev use {bread_ok}

  sync_step :
      (bits : Bits) (base k i : ℕ) (fs : Fs)
      → bread_ok (base + i) ≡ true
      → sync_bitmap bits base (suc k) i fs
        ≡ sync_bitmap bits base k (i + 1) (
            mark_buffer_dirty
              (set_buffer fs
                (base + i)
                (memmove (fs.buffer (base + i)) 0 (bitmap_bytes bits) (i * block_size) block_size))
              (base + i))
  unfolding sync_bitmap
  sync_step bits base k i fs e = ground arith

  -- The state after one round.
  written_round : Bits → (base i : ℕ) → Fs → Fs
  written_round bits base i fs =
      mark_buffer_dirty
        (set_buffer fs (base + i)
          (memmove (fs.buffer (base + i)) 0 (bitmap_bytes bits) (i * block_size) block_size))
        (base + i)

  sync_round :
      (bits : Bits) (base k i : ℕ) (fs : Fs)
      → bread_ok (base + i) ≡ true
      → sync_bitmap bits base (suc k) i fs
        ≡ sync_bitmap bits base k (i + 1) (written_round bits base i fs)
  unfolding written_round
  sync_round = sync_step

  -- The bytes of the bitmap in the blocks from `base + i` on, and in no other.
  record Synced (bits : Bits) (base k i : ℕ) (fs : Fs) (s : Result (Unit {0}) × Fs) : Type 0 where
    done : s.0 ≡ ok tt
    bytes :
        (b a : ℕ)
        → s.1.buffer b a ≡ (
            if within (base + i) k b && within 0 block_size a
            then bitmap_bytes bits ((b - base) * block_size + a)
            else fs.buffer b a)

  Synced-more :
      (bits : Bits) (base k i : ℕ) (fs : Fs) (s : Result (Unit {0}) × Fs)
      → Synced bits base k (i + 1) (written_round bits base i fs) s
      → Synced bits base (suc k) i fs s
  unfolding written_round memmove
  Synced-more bits base k i fs s h = record {
    done = h.done;
    bytes = λ b a. ground (arith, h.bytes b a, at b a);
  }
    where
      at :
          (b a : ℕ)
          → b ≡ base + i
          → bitmap_bytes bits (i * block_size + (a - 0))
            ≡ bitmap_bytes bits ((b - base) * block_size + a)
      at b a e = ap (bitmap_bytes bits) (omega arith)

  sync_bitmap-Synced :
      (bits : Bits) (base k i : ℕ) (fs : Fs)
      → ((b : ℕ) → bread_ok b ≡ true)
      → Synced bits base k i fs (sync_bitmap bits base k i fs)
  sync_bitmap-Synced bits base zero i fs r =
      unfold sync_bitmap in record { done = refl; bytes = λ b a. ground arith }
  sync_bitmap-Synced bits base (suc k) i fs r =
      subst (Synced bits base (suc k) i fs) (sym (sync_round bits base k i fs (r (base + i)))) (
        Synced-more bits base k i fs
          (sync_bitmap bits base k (i + 1) (written_round bits base i fs))
          (sync_bitmap-Synced bits base k (i + 1) (written_round bits base i fs) r))

  read_step :
      (buffer : ℕ → Bytes) (base k i : ℕ) (bytes : Bytes)
      → bread_ok (base + i) ≡ true
      → read_bitmap buffer base (suc k) i bytes
        ≡ read_bitmap buffer base k
            (i + 1)
            (memmove bytes (i * block_size) (buffer (base + i)) 0 block_size)
  unfolding read_bitmap
  read_step buffer base k i bytes e = ground arith

  -- With all blocks readable, the loop copies the blocks from `base + i` on into the memory.
  pub read_bitmap_lem :
      (buffer : ℕ → Bytes) (base k i : ℕ) (bytes : Bytes)
      → ((b : ℕ) → bread_ok b ≡ true)
      → (bytes' : Bytes) × (read_bitmap buffer base k i bytes ≡ some bytes')
        × ((a : ℕ)
            → bytes' a ≡ (
                if within (i * block_size) (k * block_size) a
                then buffer (base + a / block_size) (a % block_size)
                else bytes a))
  unfolding memmove
  read_bitmap_lem buffer base zero i bytes r =
      (bytes, unfold read_bitmap in refl, λ a. ground arith)
  read_bitmap_lem buffer base (suc k) i bytes r =
      let h =
        read_bitmap_lem buffer base k (i + 1)
          (memmove bytes (i * block_size) (buffer (base + i)) 0 block_size) r in
      (h.0, read_step buffer base k i bytes (r (base + i)) ∙ h.1, λ a. ground (arith, h.2 a, at a))
    where
      at :
          (a : ℕ)
          → i * block_size ≤ a
          → a < i * block_size + block_size
          → buffer (base + i) (0 + (a - i * block_size))
            ≡ buffer (base + a / block_size) (a % block_size)
      at a p q =
          let e : a / block_size ≡ i = omega arith in
          let f : a % block_size ≡ 0 + (a - i * block_size) = omega arith in rw (e, f) refl

  -- If all blocks can be read: the loop of `sync_ifree` and `sync_bfree` over `k` blocks from `base` on
  -- succeeds, and the loop of `ouichefs_fill_super` over the same blocks then reads a bitmap that
  -- agrees with the one written in all of their `k * 32768` bits.
  pub read-sync :
      (bits : Bits) (base k : ℕ) (fs : Fs)
      → ((b : ℕ) → bread_ok b ≡ true)
      → ((sync_bitmap bits base k 0 fs).0 ≡ ok tt)
        × ((bytes : Bytes) × (read_bitmap (sync_bitmap bits base k 0 fs).1.buffer base k 0 (λ a. 0)
              ≡ some bytes)
            × ((i : ℕ) → i < k * 32768 → bytes_bitmap bytes i ≡ bits i))
  read-sync bits base k fs r =
      let w = sync_bitmap-Synced bits base k 0 fs r in
      let h = read_bitmap_lem (sync_bitmap bits base k 0 fs).1.buffer base k 0 (λ a. 0) r in
      (
        w.done,
        (
          h.0,
          h.1,
          λ i p.
              ap (λ n. bit_of n (i % 8))
                (ground (
                  arith,
                  h.2 (i / 8),
                  w.bytes (base + i / 8 / block_size) (i / 8 % block_size),
                  at (i / 8),
                ))
              ∙ bytes_bitmap-bitmap_bytes bits i,
        ),
      )
    where
      at :
          (a : ℕ)
          → bitmap_bytes bits ((base + a / block_size - base) * block_size + a % block_size)
            ≡ bitmap_bytes bits a
      at a = ap (bitmap_bytes bits) (omega arith)
