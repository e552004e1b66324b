-- ===== src/File/Write/Refine.antt =====
-- `ouichefs_write` on the level of the bytes that a file holds: it inserts.
use pnl.Base.{ℕ, zero, suc, ◌+◌, ◌-◌, ◌*◌, ◌/◌, ◌^◌, ◌≤◌, ◌<◌, ◌≡◌, ◌≢◌, ap, ◌∙◌, arith, some}
use pnl.Bitmap.Consistent.{IsConsistent}
use pnl.Block.{get_block_size}
use pnl.File.Content.{entry, total_size}
use pnl.File.Write.{ceil, ouichefs_write, plan_write, write_seek}
use pnl.File.Write.Fill.{Writes}
use pnl.File.Write.Run.{Ran, run_plan-Ran}
use pnl.File.Write.Seek.{Placed, write_seek-Placed}
use pnl.File.Write.Split.{size-le}
use pnl.Fs.{Fs, ok, max_block_size, max_filesize, max_blocks_per_file}
use pnl.Kernel.{BitmapApi, DeviceApi}
use pnl.Memory.{Bytes}
use pnl.File.Write.Outcome.{IsFile, Wrote, plan, plan_step, Ran-done}

-- A file with bytes has blocks.
total_size-pos : (index : Bytes) (k i : ℕ) → 0 < total_size index k i → 0 < k
unfolding total_size
total_size-pos index zero i h = absurd (omega arith)
total_size-pos index (suc k) i h = omega arith

module _ ⦃api : BitmapApi⦄ ⦃dev : DeviceApi⦄ where
  -- The bounds on the blocks to allocate, from those on the length.
  ceil_lem :
      (byte_jump len : ℕ)
      → len ≢ 0
      → let wanted = ceil (byte_jump + len) max_block_size in
        (0 < wanted)
        × (byte_jump + len ≤ wanted * max_block_size)
        × ((wanted - 1) * max_block_size < byte_jump + len)
        × (byte_jump ≤ max_block_size → wanted ≤ len / max_block_size + 2)
        × (byte_jump + len ≤ max_block_size → wanted ≡ 1)
  ceil_lem byte_jump len asked =
      (ground arith, ground arith, ground arith, λ h. ground arith, λ h. ground arith)

  -- The stages, once the search has found the block.
  Placed-Wrote :
      (ino space len offset : ℕ) (fs : Fs)
      → let inode = fs.inode ino in
        let k = inode.i_blocks - 1 in
        Writes fs.user space len
        → IsConsistent fs.sbi
        → fs.sbi.nr_blocks ≤ 2 ^ 20
        → IsFile ino fs
        → 0 < inode.i_size
        → offset ≤ inode.i_size
        → len ≢ 0
        → len / max_block_size + 2 ≤ fs.sbi.nr_free_blocks
        → inode.i_blocks + len / max_block_size + 2 ≤ max_blocks_per_file + 1
        → (inode.i_blocks ≡ 2 → offset + len ≤ max_block_size)
        → (s : Placed (fs.buffer inode.index_block) offset k k 0 0)
        → let (ret, fs') = plan_write ino space len offset (s.before, s.jump) fs in
          (ret ≡ ok (len, offset + len)) × Wrote ino space len offset fs fs'
  Placed-Wrote ino space len offset fs w c small f some_bytes off asked free limit two s =
      rw
        (plan_step ino space len offset s.before s.jump fs (omega (arith, wanted, jump_small))
          (omega (arith, wanted)) (omega (arith, wanted, jump_small)))
        (Ran-done ino space len offset s.before s.jump fs f s.inside wanted.0 jump_le
          (omega (arith, s.size)) off r)
    where
      k : ℕ
      k = (fs.inode ino).i_blocks - 1

      index : Bytes
      index = fs.buffer (fs.inode ino).index_block

      wanted :
          let wanted = ceil (s.jump + len) max_block_size in
          (0 < wanted)
          × (s.jump + len ≤ wanted * max_block_size)
          × ((wanted - 1) * max_block_size < s.jump + len)
          × (s.jump ≤ max_block_size → wanted ≤ len / max_block_size + 2)
          × (s.jump + len ≤ max_block_size → wanted ≡ 1)
      wanted = ceil_lem s.jump len asked

      jump_le : s.jump ≤ get_block_size (entry index s.before)
      jump_le = omega (arith, s.jump_le, ap (λ j. get_block_size (entry index j)) start)
        where
          start : 0 + s.before ≡ s.before
          start = omega arith

      jump_small : s.jump ≤ max_block_size
      jump_small = omega (arith, jump_le, size-le (entry index s.before))

      -- with one block, the write must stay in it
      one_block : (fs.inode ino).i_blocks ≡ 2 → s.jump + len ≤ max_block_size
      one_block e = omega (arith, two e, s.size)

      single : ceil (s.jump + len) max_block_size ≡ 1 → 1 < ceil (s.jump + len) max_block_size → ⊥
      single e more = omega (arith, e, more)

      r : Ran (plan ino len s.before s.jump fs) k space offset fs
      r =
          run_plan-Ran (plan ino len s.before s.jump fs) k space offset fs c small s.inside f.listed
            wanted.0 (omega (arith, wanted, jump_small)) w (ground arith) (omega (arith, s.inside))
            jump_le jump_small asked wanted.2 wanted.1
            (λ more e. single (wanted.4 (one_block e)) more)

  -- A write of at least one byte at an offset inside a nonempty file or at its end, below the limit of
  -- the function; the file is listed in its index block, with its blocks in use and apart, and its
  -- size is the sum of theirs; the superblock is consistent, with at most 2^20 blocks; buffers and the
  -- user's bytes can be read; as many blocks as the write can need are free and fit the file; and a
  -- file with one block has room for the write in it. Then `ouichefs_write` returns the length
  -- and moves the offset by it; the file's bytes are the old ones with the user's inserted at the
  -- offset; it is listed and sized as before, the superblock is consistent, and no block in use that
  -- is not the file's changes.
  pub ouichefs_write_lem :
      (junk : ℕ × ℕ) (ino space len offset : ℕ) (fs : Fs)
      → let inode = fs.inode ino in
        Writes fs.user space len
        → IsConsistent fs.sbi
        → fs.sbi.nr_blocks ≤ 2 ^ 20
        → IsFile ino fs
        → 0 < inode.i_size
        → offset ≤ inode.i_size
        → len ≢ 0
        → offset + len ≤ max_filesize - 1024
        → len / max_block_size + 2 ≤ fs.sbi.nr_free_blocks
        → inode.i_blocks + len / max_block_size + 2 ≤ max_blocks_per_file + 1
        → (inode.i_blocks ≡ 2 → offset + len ≤ max_block_size)
        → let (ret, fs') = ouichefs_write junk ino space len offset fs in
          (ret ≡ ok (len, offset + len)) × Wrote ino space len offset fs fs'
  unfolding ouichefs_write
  ouichefs_write_lem junk ino space len offset fs w c small f some_bytes off asked bound free limit
        two =
      rw (result, w.reads (fs.inode ino).index_block)
        (ground (
          arith,
          Placed-Wrote ino space len offset fs w c small f some_bytes off asked free limit two s,
        ))
    where
      k : ℕ
      k = (fs.inode ino).i_blocks - 1

      blocks : 0 < k
      blocks = total_size-pos (fs.buffer (fs.inode ino).index_block) k 0 (omega (arith, f.sized))

      s : Placed (fs.buffer (fs.inode ino).index_block) offset k k 0 0
      s =
          write_seek-Placed (fs.buffer (fs.inode ino).index_block) offset k k 0 0 blocks
            (omega arith) (omega arith) (omega (arith, f.sized))

      result :
          write_seek (fs.buffer (fs.inode ino).index_block) offset k k 0 0 ≡ some (s.before, s.jump)
      result =
          s.result
          ∙ ap some
              (ap (λ (i : ℕ). (i, s.jump)) (let e : 0 + s.before ≡ s.before = omega arith in e))
