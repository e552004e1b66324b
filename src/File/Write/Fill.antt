-- ===== src/File/Write/Fill.antt =====
-- The loop of `ouichefs_write` that copies the user's bytes into the blocks.
pub mod Rounds
use pnl.Base.{
  ℕ, zero, suc, ◌+◌, ◌-◌, ◌*◌, ◌/◌, ◌%◌, ◌^◌, ◌≤◌, ◌<◌, ◌≡◌, ◌≢◌, refl, sym, subst, ap, ◌∙◌, true,
  false, ltb, ◌==◌, ◌||◌, if◌then◌else◌, arith, Bool, Bool-cases, inl, inr, update, update-at,
  update-id, within, u32_mod,
}
use pnl.Block.{get_block_number, get_block_size, set_block_size}
use pnl.Block.Laws.{number_lem, size_lem, set_size_lem}
use pnl.File.Content.{entry, total_size, byte_at}
use pnl.File.Content.Holds.{Holds, Holds-append, Holds-one, Holds-cong}
use pnl.File.Write.{Plan, write_blocks, set_entry_size}
use pnl.Fs.{Fs, ok, set_buffer, mark_buffer_dirty, max_block_size}
use pnl.Kernel.{DeviceApi, BitmapApi}
use pnl.Memory.{Bytes, memmove}
use pnl.Memory.Laws.{load-store}

-- The entries after `set_block_size`.
pub sized_entry :
    (index : Bytes) (i size j : ℕ)
    → (get_block_number (entry (set_entry_size index i size) j) ≡ get_block_number (entry index j))
      × (get_block_size (entry (set_entry_size index i size) j)
          ≡ (if j == i then size % 2 ^ 12 else get_block_size (entry index j)))
      × (j ≢ i → entry (set_entry_size index i size) j ≡ entry index j)
sized_entry index i size j =
    let here = load-store index i j (set_block_size (entry index i) size) in
    let same : (j == i) ≡ true → entry index i ≡ entry index j =
      λ e. ap (entry index) (ground arith) in
    (
      rw (here, number_lem (entry index j), set_size_lem (entry index i) size)
          (ground (
            arith,
            same,
            number_lem (
                if j == i
                then (size % 2 ^ 12 * 2 ^ 20 + entry index i % 2 ^ 20) % u32_mod
                else entry index j),
          )),
      rw (here, set_size_lem (entry index i) size)
          (ground (arith, size_lem ((size % 2 ^ 12 * 2 ^ 20 + entry index i % 2 ^ 20) % u32_mod))),
      λ h. ground (arith, here),
    )

module _ ⦃api : BitmapApi⦄ ⦃dev : DeviceApi⦄ where
  open dev use {bread_ok, copy_from_user, copy_from_user_lem}

  -- All buffers are read, and the `len` bytes of the user's memory from `start` on are.
  pub record Writes (user : Bytes) (start len : ℕ) : Type 0 where
    pub reads : (b : ℕ) → bread_ok b ≡ true
    pub copies :
        (buf : Bytes) (to from n : ℕ)
        → start ≤ from
        → from + n ≤ start + len
        → (copy_from_user buf to user from n).0 ≡ 0

  -- The entries from `i` on are ready for `k` rounds: different blocks, the first one with `jump`
  -- bytes in use and the others with none.
  pub record Ready (ib k i jump : ℕ) (fs : Fs) : Type 0 where
    pub apart : (j : ℕ) → within i k j ≡ true → get_block_number (entry (fs.buffer ib) j) ≢ ib
    pub distinct :
        (j j' : ℕ)
        → within i k j ≡ true
        → within i k j' ≡ true
        → get_block_number (entry (fs.buffer ib) j) ≡ get_block_number (entry (fs.buffer ib) j')
        → j ≡ j'
    pub first : get_block_size (entry (fs.buffer ib) i) ≡ jump
    pub empty :
        (j : ℕ) → within (i + 1) (k - 1) j ≡ true → get_block_size (entry (fs.buffer ib) j) ≡ 0

  -- What the loop leaves.
  pub record Written (ib k i jump left space : ℕ) (fs fs' : Fs) : Type 0 where
    pub numbers :
        (j : ℕ)
        → get_block_number (entry (fs'.buffer ib) j) ≡ get_block_number (entry (fs.buffer ib) j)
    pub outside : (j : ℕ) → within i k j ≡ false → entry (fs'.buffer ib) j ≡ entry (fs.buffer ib) j
    pub blocks :
        (b : ℕ)
        → b ≢ ib
        → ((j : ℕ) → within i k j ≡ true → get_block_number (entry (fs.buffer ib) j) ≢ b)
        → fs'.buffer b ≡ fs.buffer b
    pub holds : Holds fs'.buffer (fs'.buffer ib) k i (jump + left) (λ p.
        if ltb p jump
        then fs.buffer (get_block_number (entry (fs.buffer ib) i)) p
        else fs.user (space + (p - jump)))
    pub rest : record fs { buffer = fs'.buffer; buffer_dirty = fs'.buffer_dirty } ≡ fs'

  -- The state after a round that copies `n` bytes and sets the size.
  unfoldable pub round : (ib i jump space n size : ℕ) → Fs → Fs
  round ib i jump space n size fs =
      let b = get_block_number (entry (fs.buffer ib) i) in
      mark_buffer_dirty
        (set_buffer (set_buffer fs b (memmove (fs.buffer b) jump fs.user space n)) ib
          (set_entry_size (fs.buffer ib) i size))
        b

  pub round_index :
      (ib i jump space n size : ℕ) (fs : Fs) (j : ℕ)
      → entry ((round ib i jump space n size fs).buffer ib) j
        ≡ entry (set_entry_size (fs.buffer ib) i size) j
  unfolding round
  round_index ib i jump space n size fs j =
      ap (λ (b : Bytes). entry b j)
        (update-at
          (update fs.buffer (get_block_number (entry (fs.buffer ib) i))
            (memmove (fs.buffer (get_block_number (entry (fs.buffer ib) i))) jump fs.user space n))
          ib (set_entry_size (fs.buffer ib) i size))

  pub write_step :
      (p : Plan) (k i jump left space written start len : ℕ) (last : Bool) (fs : Fs)
      → let n = if last then left else max_block_size - jump in
        let size =
          if last then get_block_size (entry (fs.buffer p.ib) i) + left else max_block_size in
        Writes fs.user start len
        → start ≤ space
        → space + n ≤ start + len
        → left ≢ 0
        → jump + n ≤ max_block_size
        → jump ≤ max_block_size
        → get_block_number (entry (fs.buffer p.ib) i) ≢ p.ib
        → (i ≢ p.block_jump → jump ≡ 0)
        → ((k == 0) || (p.i_blocks == 2)) ≡ last
        → write_blocks p (suc k) i jump left space written fs
          ≡ write_blocks p k
              (i + 1)
              0
              (left - n)
              (space + n)
              (written + n)
              (round p.ib i jump space n size fs)
  unfolding write_blocks round
  write_step p k i jump left space written start len last fs w from to some_left fits small apart z
        is_last =
      rw (is_last, no_jump, all_copied, ← copied, w.reads b, index_same) (ground arith)
    where
      b : ℕ
      b = get_block_number (entry (fs.buffer p.ib) i)

      n : ℕ
      n = if last then left else max_block_size - jump

      all_copied : (copy_from_user (fs.buffer b) jump fs.user space n).0 ≡ 0
      all_copied = w.copies (fs.buffer b) jump space n from to

      copied :
          (copy_from_user (fs.buffer b) jump fs.user space n).1
          ≡ memmove (fs.buffer b) jump fs.user space n
      copied = copy_from_user_lem (fs.buffer b) jump fs.user space n all_copied

      no_jump : (if i == p.block_jump then 0 else jump) ≡ 0
      no_jump = ground (arith, z)

      index_same :
          update fs.buffer b (copy_from_user (fs.buffer b) jump fs.user space n).1 p.ib
          ≡ fs.buffer p.ib
      index_same = ground arith
