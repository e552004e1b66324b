-- ===== src/File/Write/Outcome.antt =====
-- What a write makes of a file, and that the stages of `ouichefs_write` do so.
use pnl.Base.{
  ℕ, ◌+◌, ◌-◌, ◌≤◌, ◌<◌, ◌≡◌, ◌≢◌, refl, sym, subst, ap, ◌∙◌, false, ltb, ◌==◌, arith, Bool-cases,
  inl, inr, update-at,
}
use pnl.Bitmap.Consistent.{IsConsistent}
use pnl.Block.{get_block_number, get_block_size}
use pnl.File.Content.{byte_at, entry, inserted, total_size}
use pnl.File.Content.Holds.{Holds}
use pnl.File.Write.{Plan, ceil, finish_write, plan_write, run_plan}
use pnl.File.Write.Insert.{Holds-inserted, block_lem, listed_lem}
use pnl.File.Write.Room.{IsListed}
use pnl.File.Write.Run.{Ran, counted, last_block}
use pnl.Fs.{Fs, Inode, ok, max_block_size, max_blocks_per_file}
use pnl.Kernel.{BitmapApi, DeviceApi}
use pnl.Memory.{Bytes}

-- A regular file with its blocks in use and apart, whose size is the sum of theirs.
pub record IsFile (ino : ℕ) (fs : Fs) : Type 0 where
  pub listed :
      let inode = fs.inode ino in
      IsListed fs.sbi (fs.buffer inode.index_block) inode.index_block (inode.i_blocks - 1)
  pub sized :
      let inode = fs.inode ino in
      inode.i_size ≡ total_size (fs.buffer inode.index_block) (inode.i_blocks - 1) 0

-- The bytes of a file.
abbrev pub content : ℕ → Fs → Bytes
content ino fs =
    let inode = fs.inode ino in
    byte_at fs.buffer (fs.buffer inode.index_block) (inode.i_blocks - 1) 0

-- What a write of `len` bytes at `offset` makes of the file.
pub record Wrote (ino space len offset : ℕ) (fs fs' : Fs) : Type 0 where
  pub file : IsFile ino fs'
  pub consistent : IsConsistent fs'.sbi
  pub size : (fs'.inode ino).i_size ≡ (fs.inode ino).i_size + len
  pub bytes :
      (q : ℕ)
      → q < (fs.inode ino).i_size + len
      → content ino fs' q ≡ inserted (content ino fs) offset len (λ a. fs.user (space + a)) q
  -- the blocks in use that are not the file's
  pub others :
      let inode = fs.inode ino in
      (b : ℕ)
      → fs.sbi.bfree_bitmap b ≡ false
      → b ≢ inode.index_block
      → ((j : ℕ)
          → j < inode.i_blocks - 1
          → get_block_number (entry (fs.buffer inode.index_block) j) ≢ b)
      → fs'.buffer b ≡ fs.buffer b

-- From what holds of the index block and the blocks.
Wrote-from :
    (ino space len offset k : ℕ) (fs fs' : Fs)
    → let ib = (fs.inode ino).index_block in
      (fs'.inode ino).index_block ≡ ib
      → (fs'.inode ino).i_blocks - 1 ≡ k
      → (fs'.inode ino).i_size ≡ (fs.inode ino).i_size + len
      → IsFile ino fs
      → IsConsistent fs'.sbi
      → IsListed fs'.sbi (fs'.buffer ib) ib k
      → Holds fs'.buffer
          (fs'.buffer ib)
          k
          0
          (total_size (fs.buffer ib) ((fs.inode ino).i_blocks - 1) 0 + len)
          (inserted (content ino fs) offset len (λ a. fs.user (space + a)))
      → ((b : ℕ)
          → fs.sbi.bfree_bitmap b ≡ false
          → b ≢ ib
          → ((j : ℕ)
              → j < (fs.inode ino).i_blocks - 1
              → get_block_number (entry (fs.buffer ib) j) ≢ b)
          → fs'.buffer b ≡ fs.buffer b)
      → Wrote ino space len offset fs fs'
Wrote-from ino space len offset k fs fs' same_index blocks grown f c listed holds others = record {
  file = record {
    listed = rw (same_index, blocks) listed;
    sized = rw (same_index, blocks) (omega (arith, grown, holds.size, f.sized));
  };
  consistent = c;
  size = grown;
  bytes = λ q h. rw (same_index, blocks) (holds.bytes q (omega (arith, f.sized)));
  others = others;
}

-- The plan, if the file stays within the limit of blocks.
abbrev pub plan : (ino len block_jump byte_jump : ℕ) → Fs → Plan
plan ino len block_jump byte_jump fs =
    let inode = fs.inode ino in
    record {
      ino = ino;
      ib = inode.index_block;
      i_blocks = inode.i_blocks;
      not_a_new_file = ltb 0 inode.i_size;
      block_jump = block_jump;
      byte_jump = byte_jump;
      len = len;
      nr_blocks_to_allocate = ceil (byte_jump + len) max_block_size;
    }

module _ ⦃api : BitmapApi⦄ ⦃dev : DeviceApi⦄ where
  pub plan_step :
      (ino space len offset block_jump byte_jump : ℕ) (fs : Fs)
      → let wanted = ceil (byte_jump + len) max_block_size in
        (fs.inode ino).i_blocks + wanted ≤ max_blocks_per_file + 1
        → wanted ≢ 0
        → wanted ≤ fs.sbi.nr_free_blocks
        → plan_write ino space len offset (block_jump, byte_jump) fs
          ≡ run_plan (plan ino len block_jump byte_jump fs) space offset fs
  unfolding plan_write
  plan_step ino space len offset block_jump byte_jump fs limit asked enough =
      rw (within_limit, guard) (ground arith)
    where
      within_limit :
          ltb
            (max_blocks_per_file + 1)
            ((fs.inode ino).i_blocks + ceil (byte_jump + len) max_block_size)
          ≡ false
      within_limit = ground arith

      guard : ltb (max_blocks_per_file + 1) (fs.inode ino).i_blocks ≡ false
      guard = ground arith

  -- The outcome, from the states of the stages.
  Ran-Wrote :
      (ino space len offset block_jump byte_jump : ℕ) (fs : Fs)
      → let k = (fs.inode ino).i_blocks - 1 in
        let p = plan ino len block_jump byte_jump fs in
        let index = fs.buffer (fs.inode ino).index_block in
        IsFile ino fs
        → block_jump < k
        → 0 < p.nr_blocks_to_allocate
        → byte_jump ≤ get_block_size (entry index block_jump)
        → total_size index block_jump 0 + byte_jump ≡ offset
        → offset ≤ (fs.inode ino).i_size
        → (r : Ran p k space offset fs)
        → Wrote ino space len offset fs (finish_write p offset (last_block p k r.fs1) len r.fs3).1
  unfolding finish_write counted last_block
  Ran-Wrote ino space len offset block_jump byte_jump fs f inside grows le at off r =
      Wrote-from ino space len offset (k + n) fs
        (finish_write p offset (last_block p k r.fs1) len r.fs3).1 (ap index_of at_end)
        (ap (λ (i : Inode). i.i_blocks - 1) at_end ∙ omega (arith, inside))
        (ap size_of at_end ∙ omega (arith, off)) f
        (subst IsConsistent (sym same_sbi) r.room.consistent)
        (listed_lem p k space fs r.fs1 r.fs2 r.fs3 (counted p k r.fs1).inode inside grows f.listed
          r.room r.divided r.written le same_sbi)
        (subst
          (λ o.
            Holds r.fs3.buffer (r.fs3.buffer p.ib) (k + n) 0 (total_size (fs.buffer p.ib) k 0 + len)
              (inserted (content ino fs) o len (λ a. fs.user (space + a))))
          at
          (Holds-inserted p k space fs r.fs1 r.fs2 r.fs3 (counted p k r.fs1).inode inside grows
            f.listed r.room r.divided r.written le))
        (λ b used apart other.
          block_lem p k space fs r.fs1 r.fs2 r.fs3 (counted p k r.fs1).inode inside grows f.listed
            r.room r.divided r.written le b apart (untouched b used other))
    where
      k : ℕ
      k = (fs.inode ino).i_blocks - 1

      p : Plan
      p = plan ino len block_jump byte_jump fs

      n : ℕ
      n = p.nr_blocks_to_allocate

      -- A block in use that is not the file's is none of those written.
      untouched :
          (b : ℕ)
          → fs.sbi.bfree_bitmap b ≡ false
          → ((j : ℕ) → j < k → get_block_number (entry (fs.buffer p.ib) j) ≢ b)
          → (j : ℕ) → block_jump ≤ j
          → j ≤ block_jump + n
          → get_block_number (entry (r.fs1.buffer p.ib) j) ≢ b
      untouched b used other j low high e = elim (Bool-cases (j == block_jump)) [
        | inl z ↦
            other j (ground (arith, inside))
              (ap get_block_number (sym (r.room.low j (ground arith))) ∙ e)
        | inr z ↦ ground (arith, r.room.fresh j (ground arith), ap fs.sbi.bfree_bitmap e, used)
      ]

      same_sbi : r.fs3.sbi ≡ r.fs1.sbi
      same_sbi =
          ap (λ (s : Fs). s.sbi) (sym r.written.rest) ∙ ap (λ (s : Fs). s.sbi) (sym r.divided.rest)

      index_of : Inode → ℕ
      index_of i = i.index_block

      size_of : Inode → ℕ
      size_of i = i.i_size

      -- the inode before the last stage
      inode_lem : r.fs3.inode ino ≡ record (fs.inode ino) { i_blocks = (fs.inode ino).i_blocks + n }
      inode_lem =
          ap (λ (s : Fs). s.inode ino) (sym r.written.rest)
          ∙ ap (λ (s : Fs). s.inode ino) (sym r.divided.rest)
          ∙ update-at r.fs1.inode ino
              (record (r.fs1.inode ino) { i_blocks = (r.fs1.inode ino).i_blocks + n })
          ∙ ap (λ (s : Fs). record (s.inode ino) { i_blocks = (s.inode ino).i_blocks + n })
              (sym r.room.rest)

      finished : Inode → Inode
      finished i = record i {
        i_size = i.i_size + len + (offset - i.i_size);
        i_ctime = dev.current_time;
        i_mtime = dev.current_time;
      }

      at_end :
          (finish_write p offset (last_block p k r.fs1) len r.fs3).1.inode ino
          ≡ finished (record (fs.inode ino) { i_blocks = (fs.inode ino).i_blocks + n })
      at_end = update-at r.fs3.inode ino (finished (r.fs3.inode ino)) ∙ ap finished inode_lem

  pub Ran-done :
      (ino space len offset block_jump byte_jump : ℕ) (fs : Fs)
      → let k = (fs.inode ino).i_blocks - 1 in
        let p = plan ino len block_jump byte_jump fs in
        let index = fs.buffer (fs.inode ino).index_block in
        IsFile ino fs
        → block_jump < k
        → 0 < p.nr_blocks_to_allocate
        → byte_jump ≤ get_block_size (entry index block_jump)
        → total_size index block_jump 0 + byte_jump ≡ offset
        → offset ≤ (fs.inode ino).i_size
        → Ran p k space offset fs
        → let (ret, fs') = run_plan p space offset fs in
          (ret ≡ ok (len, offset + len)) × Wrote ino space len offset fs fs'
  Ran-done ino space len offset block_jump byte_jump fs f inside grows le at off r = rw r.result (
    unfold finish_write in refl,
    Ran-Wrote ino space len offset block_jump byte_jump fs f inside grows le at off r,
  )
