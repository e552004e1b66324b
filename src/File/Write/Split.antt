-- ===== src/File/Write/Split.antt =====
-- `ouichefs_write` splits the block of the offset: its bytes from there on go to the last new block.
use pnl.Base.{
  ℕ, ◌+◌, ◌-◌, ◌≤◌, ◌<◌, ◌≡◌, ◌≢◌, refl, sym, ap, ◌∙◌, true, ltb, ◌==◌, if◌then◌else◌, arith,
  Bool-cases, inl, inr, update, update-at,
}
use pnl.Block.{get_block_number, get_block_size}
use pnl.Block.Laws.{size_lem}
use pnl.File.Content.{entry}
use pnl.File.Write.{Plan, split_block, pad_block, set_entry_size}
use pnl.File.Write.Fill.{sized_entry}
use pnl.Fs.{Fs, ok, set_buffer, max_block_size}
use pnl.Kernel.{DeviceApi, BitmapApi}
use pnl.Memory.{Bytes, memmove, memset}

pub size-le : (w : ℕ) → get_block_size w ≤ max_block_size
size-le w = omega (arith, size_lem w)

-- `last` is the last new entry and its block.
pub record Divided (p : Plan) (last_entry last_block : ℕ) (fs fs' : Fs) : Type 0 where
  pub numbers :
      (j : ℕ)
      → get_block_number (entry (fs'.buffer p.ib) j) ≡ get_block_number (entry (fs.buffer p.ib) j)
  pub sizes :
      (j : ℕ)
      → get_block_size (entry (fs'.buffer p.ib) j) ≡ (
          if j == last_entry
          then get_block_size (entry (fs.buffer p.ib) p.block_jump) - p.byte_jump
          else if j == p.block_jump
          then p.byte_jump
          else get_block_size (entry (fs.buffer p.ib) j))
  pub outside :
      (j : ℕ)
      → j ≢ p.block_jump
      → j ≢ last_entry
      → entry (fs'.buffer p.ib) j ≡ entry (fs.buffer p.ib) j
  pub tail :
      (a : ℕ)
      → p.byte_jump + a < get_block_size (entry (fs.buffer p.ib) p.block_jump)
      → fs'.buffer last_block a
        ≡ fs.buffer (get_block_number (entry (fs.buffer p.ib) p.block_jump)) (p.byte_jump + a)
  pub kept :
      (a : ℕ)
      → a < p.byte_jump
      → fs'.buffer (get_block_number (entry (fs.buffer p.ib) p.block_jump)) a
        ≡ fs.buffer (get_block_number (entry (fs.buffer p.ib) p.block_jump)) a
  pub blocks :
      (b : ℕ)
      → b ≢ p.ib
      → b ≢ last_block
      → b ≢ get_block_number (entry (fs.buffer p.ib) p.block_jump)
      → fs'.buffer b ≡ fs.buffer b
  pub rest : record fs { buffer = fs'.buffer; buffer_dirty = fs'.buffer_dirty } ≡ fs'

-- The index block after both sizes are set.
divided : Plan → ℕ → Bytes → Bytes
divided p last_entry index =
    set_entry_size (set_entry_size index p.block_jump p.byte_jump) last_entry
      (get_block_size (entry index p.block_jump) - p.byte_jump)

entry-divided :
    (p : Plan) (last_entry : ℕ) (index : Bytes) (j : ℕ)
    → last_entry ≢ p.block_jump
    → p.byte_jump ≤ get_block_size (entry index p.block_jump)
    → (get_block_number (entry (divided p last_entry index) j) ≡ get_block_number (entry index j))
      × (get_block_size (entry (divided p last_entry index) j) ≡ (
          if j == last_entry
          then get_block_size (entry index p.block_jump) - p.byte_jump
          else if j == p.block_jump
          then p.byte_jump
          else get_block_size (entry index j)))
      × (j ≢ p.block_jump → j ≢ last_entry → entry (divided p last_entry index) j ≡ entry index j)
unfolding divided
entry-divided p last_entry index j apart le =
    let a = sized_entry index p.block_jump p.byte_jump j in
    let b =
      sized_entry (set_entry_size index p.block_jump p.byte_jump) last_entry
        (get_block_size (entry index p.block_jump) - p.byte_jump) j in
    (b.0 ∙ a.0, ground (arith, b.1, a.1, size-le (entry index p.block_jump)), λ h k. b.2 k ∙ a.2 h)

-- The state after the split.
halves : Plan → (last_entry last_block : ℕ) → Fs → Fs
halves p last_entry last_block fs =
    let from = get_block_number (entry (fs.buffer p.ib) p.block_jump) in
    set_buffer
      (set_buffer fs last_block (
        memmove (fs.buffer last_block) 0 (fs.buffer from) p.byte_jump
          (max_block_size - p.byte_jump)))
      p.ib (divided p last_entry (fs.buffer p.ib))

halves-Divided :
    (p : Plan) (last_entry last_block : ℕ) (fs : Fs)
    → let from = get_block_number (entry (fs.buffer p.ib) p.block_jump) in
      last_block ≢ p.ib
      → from ≢ p.ib
      → from ≢ last_block
      → last_entry ≢ p.block_jump
      → p.byte_jump ≤ get_block_size (entry (fs.buffer p.ib) p.block_jump)
      → Divided p last_entry last_block fs (halves p last_entry last_block fs)
unfolding halves
halves-Divided p last_entry last_block fs last_apart apart moved other le = record {
  numbers = λ j. ap get_block_number (at j) ∙ (parts j).0;
  sizes = λ j. ap get_block_size (at j) ∙ (parts j).1;
  outside = λ j h k. at j ∙ (parts j).2 h k;
  tail = λ a h. unfold memmove in ground (arith, size-le (entry (fs.buffer p.ib) p.block_jump));
  kept = λ a h. unfold memmove in ground arith;
  blocks = λ b h k l. ground arith;
  rest = refl;
}
  where
    from : ℕ
    from = get_block_number (entry (fs.buffer p.ib) p.block_jump)

    at :
        (j : ℕ)
        → entry ((halves p last_entry last_block fs).buffer p.ib) j
          ≡ entry (divided p last_entry (fs.buffer p.ib)) j
    at j =
        ap (λ (b : Bytes). entry b j)
          (update-at
            (update fs.buffer last_block (
              memmove (fs.buffer last_block) 0 (fs.buffer from) p.byte_jump
                (max_block_size - p.byte_jump)))
            p.ib (divided p last_entry (fs.buffer p.ib)))

    parts :
        (j : ℕ)
        → (get_block_number (entry (divided p last_entry (fs.buffer p.ib)) j)
            ≡ get_block_number (entry (fs.buffer p.ib) j))
          × (get_block_size (entry (divided p last_entry (fs.buffer p.ib)) j) ≡ (
              if j == last_entry
              then get_block_size (entry (fs.buffer p.ib) p.block_jump) - p.byte_jump
              else if j == p.block_jump
              then p.byte_jump
              else get_block_size (entry (fs.buffer p.ib) j)))
          × (j ≢ p.block_jump
              → j ≢ last_entry
              → entry (divided p last_entry (fs.buffer p.ib)) j ≡ entry (fs.buffer p.ib) j)
    parts j = entry-divided p last_entry (fs.buffer p.ib) j other le

module _ ⦃api : BitmapApi⦄ ⦃dev : DeviceApi⦄ where
  open dev use {bread_ok}

  -- The padding changes no byte in use.
  pad_other :
      (p : Plan) (last_block from b : ℕ) (fs : Fs)
      → b ≢ from
      → (pad_block p last_block from fs).buffer b ≡ fs.buffer b
  unfolding pad_block
  pad_other p last_block from b fs h = ground arith

  pad_kept :
      (p : Plan) (last_block from a : ℕ) (fs : Fs)
      → a < p.byte_jump
      → (pad_block p last_block from fs).buffer from a ≡ fs.buffer from a
  unfolding pad_block memset
  pad_kept p last_block from a fs h = ground arith

  pad_rest :
      (p : Plan) (last_block from : ℕ) (fs : Fs)
      → let fs' = pad_block p last_block from fs in
        record fs { buffer = fs'.buffer; buffer_dirty = fs'.buffer_dirty } ≡ fs'
  unfolding pad_block
  pad_rest p last_block from fs = elim (Bool-cases (ltb (p.byte_jump + p.len) max_block_size)) [
    | inl e ↦ rw e refl
    | inr e ↦ rw e refl
  ]

  Divided-padded :
      (p : Plan) (last_entry last_block : ℕ) (fs fs' : Fs)
      → let from = get_block_number (entry (fs.buffer p.ib) p.block_jump) in
        from ≢ p.ib
        → from ≢ last_block
        → Divided p last_entry last_block fs fs'
        → Divided p last_entry last_block fs (pad_block p last_block from fs')
  Divided-padded p last_entry last_block fs fs' apart moved d = record {
    numbers = λ j. ap get_block_number (at j) ∙ d.numbers j;
    sizes = λ j. ap get_block_size (at j) ∙ d.sizes j;
    outside = λ j h k. at j ∙ d.outside j h k;
    tail = λ a h.
        ap (λ (b : Bytes). b a) (pad_other p last_block from last_block fs' (λ e. moved (sym e)))
        ∙ d.tail a h;
    kept = λ a h. pad_kept p last_block from a fs' h ∙ d.kept a h;
    blocks = λ b h k l. pad_other p last_block from b fs' l ∙ d.blocks b h k l;
    rest =
        ap
          (λ (s : Fs). record s {
            buffer = (pad_block p last_block from fs').buffer;
            buffer_dirty = (pad_block p last_block from fs').buffer_dirty;
          })
          d.rest
        ∙ pad_rest p last_block from fs';
  }
    where
      from : ℕ
      from = get_block_number (entry (fs.buffer p.ib) p.block_jump)

      at :
          (j : ℕ)
          → entry ((pad_block p last_block from fs').buffer p.ib) j ≡ entry (fs'.buffer p.ib) j
      at j =
          ap (λ (b : Bytes). entry b j) (pad_other p last_block from p.ib fs' (λ e. apart (sym e)))

  split_result :
      (p : Plan) (last_entry last_block : ℕ) (fs : Fs)
      → let from = get_block_number (entry (fs.buffer p.ib) p.block_jump) in
        p.not_a_new_file ≡ true
        → bread_ok from ≡ true
        → last_block ≢ p.ib
        → p.byte_jump ≤ max_block_size
        → split_block p (last_entry, last_block) fs ≡ (ok from, halves p last_entry last_block fs)
  unfolding split_block halves divided
  split_result p last_entry last_block fs old readable apart le =
      rw (old, readable, index_same) (ground arith)
    where
      from : ℕ
      from = get_block_number (entry (fs.buffer p.ib) p.block_jump)

      index_same :
          update fs.buffer last_block
            (memmove
              (fs.buffer last_block)
              0
              (fs.buffer from)
              p.byte_jump
              (max_block_size - p.byte_jump))
            p.ib
          ≡ fs.buffer p.ib
      index_same = ground arith

  -- Splitting and padding, for a file that has blocks.
  pub split_block_lem :
      (p : Plan) (last_entry last_block : ℕ) (fs : Fs)
      → let from = get_block_number (entry (fs.buffer p.ib) p.block_jump) in
        p.not_a_new_file ≡ true
        → bread_ok from ≡ true
        → last_block ≢ p.ib
        → from ≢ p.ib
        → from ≢ last_block
        → last_entry ≢ p.block_jump
        → p.byte_jump ≤ get_block_size (entry (fs.buffer p.ib) p.block_jump)
        → ((split_block p (last_entry, last_block) fs).0 ≡ ok from)
          × Divided p last_entry last_block fs
              (pad_block p last_block from (split_block p (last_entry, last_block) fs).1)
  split_block_lem p last_entry last_block fs old readable last_apart from_apart moved other le =
      rw
        (split_result p last_entry last_block fs old readable last_apart
          (omega (arith, size-le (entry (fs.buffer p.ib) p.block_jump))))
        (
          refl,
          Divided-padded p last_entry last_block fs (halves p last_entry last_block fs) from_apart
              moved
              (halves-Divided p last_entry last_block fs last_apart from_apart moved other le),
        )
