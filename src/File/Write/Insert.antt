-- ===== src/File/Write/Insert.antt =====
-- The blocks of a file when `ouichefs_write` has made room, split a block and copied the bytes.
use pnl.Base.{
  ℕ, suc, ◌+◌, ◌-◌, ◌≤◌, ◌<◌, ◌≡◌, ◌≢◌, ◌⊎◌, refl, sym, subst, ap, ◌∙◌, ltb, if◌then◌else◌, arith,
  inl, inr,
}
use pnl.Block.{get_block_number, get_block_size}
use pnl.File.Content.{entry, total_size, byte_at, inserted}
use pnl.File.Content.Holds.{
  Holds, Holds-append, Holds-cong, Holds-moved, Holds-one, byte_at-append, total_size-append,
}
use pnl.File.Content.Splice.{spliced_lem}
use pnl.File.Write.{Plan}
use pnl.File.Write.Fill.{Written}
use pnl.File.Write.Room.{IsListed, Room}
use pnl.File.Write.Split.{Divided}
use pnl.Fs.{Fs, Inode}
use pnl.Kernel.{BitmapApi, DeviceApi}
use pnl.Memory.{Bytes}

module _ ⦃api : BitmapApi⦄ ⦃dev : DeviceApi⦄ (p : Plan) (k space : ℕ) (fs fs1 fs2 fs3 : Fs)
    (inodes : ℕ → Inode) (inside : p.block_jump < k) (some : 0 < p.nr_blocks_to_allocate)
    (listed : IsListed fs.sbi (fs.buffer p.ib) p.ib k)
    (room : Room p.ib k p.block_jump p.nr_blocks_to_allocate fs fs1)
    (d : Divided p
      (p.block_jump + p.nr_blocks_to_allocate)
      (get_block_number (entry (fs1.buffer p.ib) (p.block_jump + p.nr_blocks_to_allocate)))
      (record fs1 { inode = inodes })
      fs2)
    (w : Written p.ib p.nr_blocks_to_allocate p.block_jump p.byte_jump p.len space fs2 fs3)
    (jump_le : p.byte_jump ≤ get_block_size (entry (fs.buffer p.ib) p.block_jump)) where
  abbrev pub i : ℕ
  i = p.block_jump

  abbrev pub n : ℕ
  n = p.nr_blocks_to_allocate

  -- The number of an entry stays as it is from the allocation on.
  number :
      (j : ℕ)
      → get_block_number (entry (fs3.buffer p.ib) j) ≡ get_block_number (entry (fs1.buffer p.ib) j)
  number j = w.numbers j ∙ d.numbers j

  pub listed_lem : fs3.sbi ≡ fs1.sbi → IsListed fs3.sbi (fs3.buffer p.ib) p.ib (k + n)
  listed_lem e = record {
    blocks = record {
      apart = λ j h q. room.listed.blocks.apart j h (sym (number j) ∙ q);
      distinct =
          λ j j' h h' q. room.listed.blocks.distinct j j' h h' (sym (number j) ∙ q ∙ number j');
    };
    used = λ j h. rw (e, number j) (room.listed.used j h);
    index_used = rw e room.listed.index_used;
  }

  -- The blocks of the file with the room for more are different.
  distinct :
      (j j' : ℕ)
      → j < k + n
      → j' < k + n
      → j ≢ j'
      → get_block_number (entry (fs1.buffer p.ib) j) ≢ get_block_number (entry (fs1.buffer p.ib) j')
  distinct j j' h h' q e = q (room.listed.blocks.distinct j j' h h' e)

  -- A block that is neither the index block nor one of those from the entry `i` on, which are written.
  pub block_lem :
      (b : ℕ)
      → b ≢ p.ib
      → ((j : ℕ) → i ≤ j → j ≤ i + n → get_block_number (entry (fs1.buffer p.ib) j) ≢ b)
      → fs3.buffer b ≡ fs.buffer b
  block_lem b h q =
      w.blocks b h (λ j m e. q j (ground arith) (ground arith) (sym (d.numbers j) ∙ e))
      ∙ d.blocks b h (λ e. q (i + n) (omega arith) (omega arith) (sym e))
          (λ e. q i (omega arith) (omega arith) (sym e))
      ∙ ap (λ (s : Fs). s.buffer b) (sym room.rest)
      ∙ ground (arith, h)

  -- An entry behind or in front of those.
  far :
      (j : ℕ)
      → j < k + n
      → (j < i) ⊎ (i + n < j)
      → (get_block_size (entry (fs3.buffer p.ib) j) ≡ get_block_size (entry (fs1.buffer p.ib) j))
        × (fs3.buffer (get_block_number (entry (fs3.buffer p.ib) j))
            ≡ fs.buffer (get_block_number (entry (fs1.buffer p.ib) j)))
  far j h q = (
    ap get_block_size
        (w.outside j (ground (arith, q)) ∙ d.outside j (ground (arith, q)) (ground (arith, q))),
    ap fs3.buffer (number j)
        ∙ block_lem (get_block_number (entry (fs1.buffer p.ib) j)) (room.listed.blocks.apart j h)
            (λ j' le le'. distinct j' j (omega (arith, inside)) h (ground (arith, q))),
  )

  prefix :
      Holds fs3.buffer
        (fs3.buffer p.ib)
        i
        0
        (total_size (fs.buffer p.ib) i 0)
        (byte_at fs.buffer (fs.buffer p.ib) i 0)
  prefix =
      Holds-moved fs.buffer fs3.buffer (fs.buffer p.ib) (fs3.buffer p.ib) i 0 0
        (λ t h.
          (far (0 + t) (omega (arith, inside)) (inl (omega arith))).0
          ∙ ap get_block_size (room.low (0 + t) (omega arith)))
        (λ t a h.
          ap (λ (b : Bytes). b a) ((far (0 + t) (omega (arith, inside)) (inl (omega arith))).1)
          ∙ ap (λ c. fs.buffer c a) (ap get_block_number (room.low (0 + t) (omega arith))))

  suffix :
      Holds fs3.buffer
        (fs3.buffer p.ib)
        (k - 1 - i)
        (i + n + 1)
        (total_size (fs.buffer p.ib) (k - 1 - i) (i + 1))
        (byte_at fs.buffer (fs.buffer p.ib) (k - 1 - i) (i + 1))
  suffix =
      Holds-moved fs.buffer fs3.buffer (fs.buffer p.ib) (fs3.buffer p.ib) (k - 1 - i) (i + 1)
        (i + n + 1)
        (λ t h.
          (far (i + n + 1 + t) (omega (arith, inside)) (inr (omega arith))).0
          ∙ ap (λ j. get_block_size (entry (fs1.buffer p.ib) j)) (up t)
          ∙ room.high_size (i + 1 + t) (omega arith) (omega (arith, inside)))
        (λ t a h.
          ap (λ (b : Bytes). b a)
            ((far (i + n + 1 + t) (omega (arith, inside)) (inr (omega arith))).1)
          ∙ ap (λ j. fs.buffer (get_block_number (entry (fs1.buffer p.ib) j)) a) (up t)
          ∙ ap (λ c. fs.buffer c a)
              (room.high_number (i + 1 + t) (omega arith) (omega (arith, inside))))
    where
      up : (t : ℕ) → i + n + 1 + t ≡ i + 1 + t + n
      up t = omega arith

  -- The block of the offset.
  from : ℕ
  from = get_block_number (entry (fs.buffer p.ib) i)

  from_same : get_block_number (entry (fs1.buffer p.ib) i) ≡ from
  unfolding from
  from_same = ap get_block_number (room.low i (omega arith))

  user_same : fs2.user ≡ fs.user
  user_same = ap (λ (s : Fs). s.user) (sym d.rest) ∙ ap (λ (s : Fs). s.user) (sym room.rest)

  -- What the splitting copied, in terms of the first state.
  from_buffer :
      (a : ℕ) → fs1.buffer (get_block_number (entry (fs1.buffer p.ib) i)) a ≡ fs.buffer from a
  unfolding from
  from_buffer a =
      ap (λ c. fs1.buffer c a) from_same
      ∙ ap (λ (s : Fs). s.buffer from a) (sym room.rest)
      ∙ ground (arith, listed.blocks.apart i inside)

  middle :
      Holds fs3.buffer
        (fs3.buffer p.ib)
        n
        i
        (p.byte_jump + p.len)
        (λ q. if ltb q p.byte_jump then fs.buffer from q else fs.user (space + (q - p.byte_jump)))
  middle =
      Holds-cong fs3.buffer (fs3.buffer p.ib) n n i (p.byte_jump + p.len) (p.byte_jump + p.len) _ _
        refl refl
        (λ q h. ground (arith, kept q, ap (λ (u : Bytes). u (space + (q - p.byte_jump))) user_same))
        w.holds
    where
      kept :
          (q : ℕ)
          → q < p.byte_jump
          → fs2.buffer (get_block_number (entry (fs2.buffer p.ib) i)) q ≡ fs.buffer from q
      kept q h = ap (λ c. fs2.buffer c q) (d.numbers i) ∙ d.kept q h ∙ from_buffer q

  tail_size :
      get_block_size (entry (fs3.buffer p.ib) (i + n))
      ≡ get_block_size (entry (fs.buffer p.ib) i) - p.byte_jump
  tail_size =
      ap get_block_size (w.outside (i + n) (ground arith))
      ∙ ground (arith, d.sizes (i + n), ap get_block_size (room.low i (omega arith)))

  tail :
      Holds fs3.buffer
        (fs3.buffer p.ib)
        1
        (i + n)
        (get_block_size (entry (fs.buffer p.ib) i) - p.byte_jump)
        (λ q. fs.buffer from (p.byte_jump + q))
  tail =
      Holds-one fs3.buffer (fs3.buffer p.ib) (i + n)
        (get_block_size (entry (fs.buffer p.ib) i) - p.byte_jump)
        (λ q. fs.buffer from (p.byte_jump + q)) tail_size
        (λ q h.
          ap (λ c. fs3.buffer c q) (number (i + n))
          ∙ ap (λ (b : Bytes). b q)
              (w.blocks (get_block_number (entry (fs1.buffer p.ib) (i + n)))
                (room.listed.blocks.apart (i + n) (omega (arith, inside)))
                (λ j m e.
                  distinct j (i + n) (ground (arith, inside)) (omega (arith, inside)) (ground arith)
                    (sym (d.numbers j) ∙ e)))
          ∙ d.tail q (omega (arith, h, ap get_block_size (room.low i (omega arith))))
          ∙ from_buffer (p.byte_jump + q))

  -- The content before, at the block of the offset.
  old_size :
      total_size (fs.buffer p.ib) k 0
      ≡ total_size (fs.buffer p.ib) i 0
        + (get_block_size (entry (fs.buffer p.ib) i)
            + total_size (fs.buffer p.ib) (k - 1 - i) (i + 1))
  unfolding total_size
  old_size =
      ap (λ l. total_size (fs.buffer p.ib) l 0) count
      ∙ total_size-append (fs.buffer p.ib) i (suc (k - 1 - i)) 0
      ∙ ap
          (λ j.
            total_size (fs.buffer p.ib) i 0
            + (get_block_size (entry (fs.buffer p.ib) j)
                + total_size (fs.buffer p.ib) (k - 1 - i) (j + 1)))
          start
    where
      count : k ≡ i + suc (k - 1 - i)
      count = omega (arith, inside)

      start : 0 + i ≡ i
      start = omega arith

  old_byte :
      (q : ℕ)
      → byte_at fs.buffer (fs.buffer p.ib) k 0 q ≡ (
          if ltb q (total_size (fs.buffer p.ib) i 0)
          then byte_at fs.buffer (fs.buffer p.ib) i 0 q
          else if ltb
              (q - total_size (fs.buffer p.ib) i 0)
              (get_block_size (entry (fs.buffer p.ib) i))
          then fs.buffer from (q - total_size (fs.buffer p.ib) i 0)
          else byte_at fs.buffer
              (fs.buffer p.ib)
              (k - 1 - i)
              (i + 1)
              (q - total_size (fs.buffer p.ib) i 0 - get_block_size (entry (fs.buffer p.ib) i)))
  unfolding byte_at from
  old_byte q =
      ap (λ l. byte_at fs.buffer (fs.buffer p.ib) l 0 q) count
      ∙ byte_at-append fs.buffer (fs.buffer p.ib) i (suc (k - 1 - i)) 0 q
      ∙ ap
          (λ j.
            if ltb q (total_size (fs.buffer p.ib) i 0)
            then byte_at fs.buffer (fs.buffer p.ib) i 0 q
            else byte_at fs.buffer (fs.buffer p.ib) (suc (k - 1 - i)) j
                (q - total_size (fs.buffer p.ib) i 0))
          start
    where
      count : k ≡ i + suc (k - 1 - i)
      count = omega (arith, inside)

      start : 0 + i ≡ i
      start = omega arith

  -- The bytes behind the prefix, and their number.
  middle_bytes : Bytes
  middle_bytes q =
      if ltb q p.byte_jump then fs.buffer from q else fs.user (space + (q - p.byte_jump))

  tail_bytes : Bytes
  tail_bytes q =
      if ltb q (get_block_size (entry (fs.buffer p.ib) i) - p.byte_jump)
      then fs.buffer from (p.byte_jump + q)
      else byte_at fs.buffer (fs.buffer p.ib) (k - 1 - i) (i + 1)
          (q - (get_block_size (entry (fs.buffer p.ib) i) - p.byte_jump))

  back_bytes : Bytes
  back_bytes q =
      if ltb q (p.byte_jump + p.len) then middle_bytes q else tail_bytes (q - (p.byte_jump + p.len))

  back_size : ℕ
  back_size =
      p.byte_jump
      + p.len
      + (get_block_size (entry (fs.buffer p.ib) i)
          - p.byte_jump
          + total_size (fs.buffer p.ib) (k - 1 - i) (i + 1))

  back : Holds fs3.buffer (fs3.buffer p.ib) (n + (1 + (k - 1 - i))) (0 + i) back_size back_bytes
  unfolding back_size back_bytes middle_bytes tail_bytes
  back =
      subst (λ j. Holds fs3.buffer (fs3.buffer p.ib) (n + (1 + (k - 1 - i))) j back_size back_bytes)
        start
        (Holds-append fs3.buffer (fs3.buffer p.ib) n (1 + (k - 1 - i)) i (p.byte_jump + p.len)
          (get_block_size (entry (fs.buffer p.ib) i)
            - p.byte_jump
            + total_size (fs.buffer p.ib) (k - 1 - i) (i + 1))
          middle_bytes tail_bytes middle
          (Holds-append fs3.buffer (fs3.buffer p.ib) 1 (k - 1 - i) (i + n)
            (get_block_size (entry (fs.buffer p.ib) i) - p.byte_jump)
            (total_size (fs.buffer p.ib) (k - 1 - i) (i + 1))
            (λ q. fs.buffer from (p.byte_jump + q))
            (byte_at fs.buffer (fs.buffer p.ib) (k - 1 - i) (i + 1)) tail suffix))
    where
      start : i ≡ 0 + i
      start = omega arith

  -- These are the old bytes with the user's inserted.
  back_lem :
      (q : ℕ)
      → (if ltb q (total_size (fs.buffer p.ib) i 0)
          then byte_at fs.buffer (fs.buffer p.ib) i 0 q
          else back_bytes (q - total_size (fs.buffer p.ib) i 0))
        ≡ inserted
            (byte_at fs.buffer (fs.buffer p.ib) k 0)
            (total_size (fs.buffer p.ib) i 0 + p.byte_jump)
            p.len
            (λ a. fs.user (space + a))
            q
  unfolding back_bytes middle_bytes tail_bytes
  back_lem q =
      spliced_lem (total_size (fs.buffer p.ib) i 0) (get_block_size (entry (fs.buffer p.ib) i))
        p.byte_jump p.len space (byte_at fs.buffer (fs.buffer p.ib) i 0) (fs.buffer from)
        (byte_at fs.buffer (fs.buffer p.ib) (k - 1 - i) (i + 1)) fs.user
        (byte_at fs.buffer (fs.buffer p.ib) k 0) jump_le old_byte q

  -- The file holds the old bytes with the user's inserted.
  pub Holds-inserted :
      Holds fs3.buffer (fs3.buffer p.ib) (k + n) 0 (total_size (fs.buffer p.ib) k 0 + p.len) (
        inserted
          (byte_at fs.buffer (fs.buffer p.ib) k 0)
          (total_size (fs.buffer p.ib) i 0 + p.byte_jump)
          p.len
          (λ a. fs.user (space + a)))
  unfolding back_size
  Holds-inserted =
      Holds-cong fs3.buffer (fs3.buffer p.ib) (i + (n + (1 + (k - 1 - i)))) (k + n) 0
        (total_size (fs.buffer p.ib) i 0 + back_size) (total_size (fs.buffer p.ib) k 0 + p.len)
        (λ q.
          if ltb q (total_size (fs.buffer p.ib) i 0)
          then byte_at fs.buffer (fs.buffer p.ib) i 0 q
          else back_bytes (q - total_size (fs.buffer p.ib) i 0))
        _ (omega (arith, inside)) (omega (arith, old_size, jump_le)) (λ q h. back_lem q)
        (Holds-append fs3.buffer (fs3.buffer p.ib) i (n + (1 + (k - 1 - i))) 0
          (total_size (fs.buffer p.ib) i 0) back_size (byte_at fs.buffer (fs.buffer p.ib) i 0)
          back_bytes prefix back)
