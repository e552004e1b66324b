-- ===== src/Defrag/Move.antt =====
-- `move_bytes` as a step, when all blocks can be read and a block is free.
use pnl.Base.{
  ℕ, ◌+◌, ◌-◌, ◌*◌, ◌<◌, ◌≡◌, ◌≢◌, inl, inr, refl, ap, ◌∙◌, true, false, arith, Bool, ◌==◌,
  if◌then◌else◌, Bool-cases, min, update, update-at,
}
use pnl.Bitmap.{get_free_block, put_block}
use pnl.Bitmap.Consistent.{BlockTaken}
use pnl.Bitmap.Put.{BlockPut, put_block_lem}
use pnl.Defrag.{Next, go, move_bytes, clear_entry}
use pnl.Defrag.Live.{number, size, Stepped}
use pnl.Defrag.Step.{
  IsReady, emptied-Stepped, split-Stepped, apart_i, apart_j, apart_ij, new_i, new_index,
}
use pnl.File.Write.{set_entry_size, set_entry_number}
use pnl.File.Write.Alloc.{some_free}
use pnl.Fs.{Fs, set_buffer, mark_buffer_dirty}
use pnl.Kernel.{BitmapApi, DeviceApi}
use pnl.Memory.{Bytes, store32, memmove}

module _ ⦃api : BitmapApi⦄ ⦃dev : DeviceApi⦄ where
  open dev use {bread_ok}

  -- The state after the bytes have moved.
  unfoldable grown : (ib i j m : ℕ) → Fs → Fs
  grown ib i j m fs =
      let into = number fs.buffer ib i in
      let moved =
        set_buffer fs into (
          memmove (fs.buffer into) (size fs.buffer ib i) (fs.buffer (number fs.buffer ib j)) 0 m) in
      set_buffer moved ib (set_entry_size (moved.buffer ib) i (size fs.buffer ib i + m))

  unfoldable emptied : (ib i j m : ℕ) → Fs → Fs
  emptied ib i j m fs =
      let g = grown ib i j m fs in
      clear_entry (record g { sbi = put_block g.sbi (number fs.buffer ib j) }) ib j

  unfoldable divided : (ib i j m : ℕ) → Fs → Fs
  divided ib i j m fs =
      let g = grown ib i j m fs in
      let left = size fs.buffer ib j - m in
      let taken = get_free_block fs.sbi in
      let copied =
        set_buffer (record g { sbi = taken.1 }) taken.0
          (memmove (g.buffer taken.0) 0 (g.buffer (number fs.buffer ib j)) m left) in
      let renumbered =
        set_buffer copied ib
          (set_entry_number (set_entry_size (copied.buffer ib) j left) j taken.0) in
      mark_buffer_dirty
        (record renumbered { sbi = put_block renumbered.sbi (number fs.buffer ib j) }) taken.0

  move_bytes-emptied :
      (ib i j left : ℕ) (fs : Fs)
      → bread_ok (number fs.buffer ib j) ≡ true
      → (size fs.buffer ib j - min left (size fs.buffer ib j) == 0) ≡ true
      → move_bytes ib i j left fs ≡ (
        go (left - min left (size fs.buffer ib j), true),
        emptied ib i j (min left (size fs.buffer ib j)) fs,
      )
  unfolding move_bytes emptied grown
  move_bytes-emptied ib i j left fs readable e = rw (readable, e) refl

  move_bytes-divided :
      (ib i j left : ℕ) (fs : Fs)
      → bread_ok (number fs.buffer ib j) ≡ true
      → bread_ok (get_free_block fs.sbi).0 ≡ true
      → (size fs.buffer ib j - min left (size fs.buffer ib j) == 0) ≡ false
      → move_bytes ib i j left fs ≡ (
        go (left - min left (size fs.buffer ib j), false),
        divided ib i j (min left (size fs.buffer ib j)) fs,
      )
  unfolding move_bytes divided grown
  move_bytes-divided ib i j left fs readable readable' e = rw (readable, readable', e) refl

  module _ (ib i j m : ℕ) (fs : Fs) (ni : number fs.buffer ib i ≢ ib) where
    grown-index :
        (grown ib i j m fs).buffer ib ≡ set_entry_size (fs.buffer ib) i (size fs.buffer ib i + m)
    unfolding grown
    grown-index = ground arith

    grown-others :
        (b : ℕ)
        → b ≢ ib
        → (grown ib i j m fs).buffer b ≡ (
            if b == number fs.buffer ib i
            then memmove
                (fs.buffer (number fs.buffer ib i))
                (size fs.buffer ib i)
                (fs.buffer (number fs.buffer ib j))
                0
                m
            else fs.buffer b)
    unfolding grown
    grown-others b n = ground arith

  -- What a step of `move_bytes` leaves: `nb` is the new block of the entry `j`, or 0.
  pub record IsMove (ib k i j left : ℕ) (fs : Fs) (r : Next (ℕ × Bool) × Fs) : Type 0 where
    pub nb : ℕ
    pub result : r.0 ≡ go (left - min left (size fs.buffer ib j), nb == 0)
    pub stepped :
        Stepped ib k i j (min left (size fs.buffer ib j)) nb fs.sbi fs.buffer r.1.sbi r.1.buffer
    pub spare : 0 < r.1.sbi.nr_free_blocks
    pub inodes : r.1.inode ≡ fs.inode
    -- The entry `j` keeps bytes only if the entry `i` is full.
    pub rest : nb ≢ 0 → left < size fs.buffer ib j

  module _ (ib k i j m : ℕ) (fs : Fs) (r : IsReady ib k i j m fs.sbi fs.buffer) where
    i_apart : number fs.buffer ib i ≢ ib
    i_apart = apart_i ib k i j m fs.sbi fs.buffer r

    -- The block of the entry `j` has not changed yet.
    grown-j : (grown ib i j m fs).buffer (number fs.buffer ib j) ≡ fs.buffer (number fs.buffer ib j)
    grown-j = ground (
      arith,
      grown-others ib i j m fs i_apart (number fs.buffer ib j)
          (apart_j ib k i j m fs.sbi fs.buffer r),
      apart_ij ib k i j m fs.sbi fs.buffer r,
    )

    put_j : BlockPut fs.sbi (number fs.buffer ib j) (put_block fs.sbi (number fs.buffer ib j))
    put_j =
        put_block_lem fs.sbi (number fs.buffer ib j) r.live.consistent r.real_j
          (r.live.in_range j r.below) (r.live.used j r.below)

    emptied-Move :
        m ≡ size fs.buffer ib j
        → Stepped ib k i j m 0 fs.sbi fs.buffer
            (emptied ib i j m fs).sbi
            (emptied ib i j m fs).buffer
    unfolding emptied
    emptied-Move all =
        emptied-Stepped ib k i j m fs.sbi fs.buffer r _ (emptied ib i j m fs).buffer all
          (unfold grown in put_j)
          (update-at (grown ib i j m fs).buffer ib _
            ∙ ap (λ (index : Bytes). store32 index (4 * j) 0) (grown-index ib i j m fs i_apart))
          (λ b n. ground (arith, grown-others ib i j m fs i_apart b n))

    emptied-spare : 0 < (emptied ib i j m fs).sbi.nr_free_blocks
    unfolding emptied grown
    emptied-spare = omega (arith, put_j.counter)

    module _ (take : BlockTaken fs.sbi (get_free_block fs.sbi).0 (get_free_block fs.sbi).1) where
      put_taken :
          BlockPut
            (get_free_block fs.sbi).1
            (number fs.buffer ib j)
            (put_block (get_free_block fs.sbi).1 (number fs.buffer ib j))
      put_taken =
          put_block_lem (get_free_block fs.sbi).1 (number fs.buffer ib j) take.consistent r.real_j
            (ground (arith, r.live.in_range j r.below, take.rest))
            (ground (arith, take.takes.changes (number fs.buffer ib j), r.live.used j r.below))

      apart : (get_free_block fs.sbi).0 ≢ ib
      apart =
          new_index ib k i j m fs.sbi fs.buffer r (get_free_block fs.sbi).0
            (get_free_block fs.sbi).1 take

      -- The new block is as it was.
      grown-new :
          (grown ib i j m fs).buffer (get_free_block fs.sbi).0 ≡ fs.buffer (get_free_block fs.sbi).0
      grown-new = ground (
        arith,
        grown-others ib i j m fs i_apart (get_free_block fs.sbi).0 apart,
        new_i ib k i j m fs.sbi fs.buffer r (get_free_block fs.sbi).0 (get_free_block fs.sbi).1
            take,
      )

      divided-index :
          (divided ib i j m fs).buffer ib
          ≡ set_entry_number
              (set_entry_size
                (set_entry_size (fs.buffer ib) i (size fs.buffer ib i + m))
                j
                (size fs.buffer ib j - m))
              j
              (get_free_block fs.sbi).0
      unfolding divided
      divided-index =
          update-at (update (grown ib i j m fs).buffer (get_free_block fs.sbi).0 copied) ib _
          ∙ ap
              (λ (index : Bytes).
                set_entry_number (set_entry_size index j (size fs.buffer ib j - m)) j
                  (get_free_block fs.sbi).0)
              before
        where
          copied : Bytes
          copied =
              memmove ((grown ib i j m fs).buffer (get_free_block fs.sbi).0) 0
                ((grown ib i j m fs).buffer (number fs.buffer ib j)) m (size fs.buffer ib j - m)

          before :
              update (grown ib i j m fs).buffer (get_free_block fs.sbi).0 copied ib
              ≡ set_entry_size (fs.buffer ib) i (size fs.buffer ib i + m)
          before = ground (arith, grown-index ib i j m fs i_apart, apart)

      divided-others :
          (b : ℕ)
          → b ≢ ib
          → (divided ib i j m fs).buffer b ≡ (
              if b == (get_free_block fs.sbi).0
              then memmove
                  (fs.buffer (get_free_block fs.sbi).0)
                  0
                  (fs.buffer (number fs.buffer ib j))
                  m
                  (size fs.buffer ib j - m)
              else if b == number fs.buffer ib i
              then memmove
                  (fs.buffer (number fs.buffer ib i))
                  (size fs.buffer ib i)
                  (fs.buffer (number fs.buffer ib j))
                  0
                  m
              else fs.buffer b)
      unfolding divided
      divided-others b n = ground (arith, grown-new, grown-j, grown-others ib i j m fs i_apart b n)

      divided-spare : 0 < fs.sbi.nr_free_blocks → 0 < (divided ib i j m fs).sbi.nr_free_blocks
      unfolding divided
      divided-spare spare = omega (arith, take.counter, put_taken.counter)

      divided-Move :
          Stepped ib k i j m
            (get_free_block fs.sbi).0
            fs.sbi
            fs.buffer
            (divided ib i j m fs).sbi
            (divided ib i j m fs).buffer
      unfolding divided
      divided-Move =
          split-Stepped ib k i j m fs.sbi fs.buffer r (get_free_block fs.sbi).0
            (get_free_block fs.sbi).1 _ (divided ib i j m fs).buffer take put_taken divided-index
            divided-others

  module _ (ib i j left k : ℕ) (fs : Fs)
      (r : IsReady ib k i j (min left (size fs.buffer ib j)) fs.sbi fs.buffer)
      (spare : 0 < fs.sbi.nr_free_blocks)
      (readable : (b : ℕ) → b < fs.sbi.nr_blocks → bread_ok b ≡ true) where
    taken : BlockTaken fs.sbi (get_free_block fs.sbi).0 (get_free_block fs.sbi).1
    taken = some_free fs.sbi r.live.consistent spare

    pub move_bytes-IsMove : IsMove ib k i j left fs (move_bytes ib i j left fs)
    move_bytes-IsMove =
        elim (Bool-cases (size fs.buffer ib j - min left (size fs.buffer ib j) == 0)) [
          | inl e ↦
              rw
                (move_bytes-emptied ib i j left fs
                  (readable (number fs.buffer ib j) (r.live.in_range j r.below)) e)
                (record {
                  nb = 0;
                  result = refl;
                  stepped =
                      emptied-Move ib k i j (min left (size fs.buffer ib j)) fs r (ground arith);
                  spare = emptied-spare ib k i j (min left (size fs.buffer ib j)) fs r;
                  inodes = unfold emptied in unfold grown in refl;
                  rest = λ n. absurd (n refl);
                })
          | inr e ↦
              rw
                (move_bytes-divided ib i j left fs
                  (readable (number fs.buffer ib j) (r.live.in_range j r.below))
                  (readable (get_free_block fs.sbi).0 taken.takes.in_range) e)
                (record {
                  nb = (get_free_block fs.sbi).0;
                  result = ground (arith, taken.takes.nonzero);
                  stepped = divided-Move ib k i j (min left (size fs.buffer ib j)) fs r taken;
                  spare = divided-spare ib k i j (min left (size fs.buffer ib j)) fs r taken spare;
                  inodes = unfold divided in unfold grown in refl;
                  rest = λ n. ground arith;
                })
        ]
