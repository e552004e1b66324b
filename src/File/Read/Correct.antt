-- ===== src/File/Read/Correct.antt =====
-- `ouichefs_read` copies the bytes that the file holds from the offset on.
use pnl.Base.{
  ℕ, zero, suc, ◌+◌, ◌-◌, ◌≤◌, ◌<◌, ◌≡◌, ◌≢◌, ◌⊎◌, inl, inr, refl, some, true, min, ltb, ◌==◌,
  if◌then◌else◌, arith, ap, subst, Bool-cases, within,
}
use pnl.Block.{get_block_number, get_block_size}
use pnl.Fs.{Fs, ok, set_inode, max_filesize}
use pnl.Kernel.{DeviceApi}
use pnl.Memory.{Bytes, memmove}
use pnl.File.Content.{entry, total_size, byte_at}
use pnl.File.Read.{seek, copy_blocks, read_index, ouichefs_read}

-- Where the first loop stops: `rounds` entries are left from the entry `i'` on, whose block holds
-- the position `pos` or ends there, and `jump` is the position within it.
record Found (buffer : ℕ → Bytes) (index : Bytes) (k i pos rounds i' jump : ℕ) : Type 0 where
  split : rounds + i' ≡ k + i
  nonzero : 0 < rounds
  jump_le : jump ≤ get_block_size (entry index i')
  size : total_size index k i + jump ≡ pos + total_size index rounds i'
  same : (p : ℕ) → byte_at buffer index k i (pos + p) ≡ byte_at buffer index rounds i' (jump + p)

record Sought (buffer : ℕ → Bytes) (index : Bytes) (offset k i jumped : ℕ) : Type 0 where
  rounds : ℕ
  at : ℕ
  jump : ℕ
  result : seek index offset k i jumped ≡ some (at, jump)
  found : Found buffer index k i (offset - jumped) rounds at jump

Found-skip :
    (buffer : ℕ → Bytes) (index : Bytes) (k i pos rounds i' jump : ℕ)
    → Found buffer index k (i + 1) pos rounds i' jump
    → Found buffer index (suc k) i (get_block_size (entry index i) + pos) rounds i' jump
unfolding total_size byte_at
Found-skip buffer index k i pos rounds i' jump f = record {
  split = omega (arith, f.split);
  nonzero = f.nonzero;
  jump_le = f.jump_le;
  size = omega (arith, f.size);
  same = λ p. ground (arith, f.same p, rest p);
}
  where
    rest :
        (p : ℕ)
        → byte_at buffer index k
            (i + 1)
            (get_block_size (entry index i) + pos + p - get_block_size (entry index i))
          ≡ byte_at buffer index k (i + 1) (pos + p)
    rest p = ap (byte_at buffer index k (i + 1)) (omega arith)

seek-Sought :
    (buffer : ℕ → Bytes) (index : Bytes) (offset k i jumped : ℕ)
    → jumped ≤ offset
    → offset < jumped + total_size index k i
    → Sought buffer index offset k i jumped
unfolding seek total_size
seek-Sought buffer index offset zero i jumped le h = absurd (omega arith)
seek-Sought buffer index offset (suc k) i jumped le h =
    elim (Bool-cases (ltb (jumped + get_block_size (entry index i)) offset)) [
      | inl skip ↦
          next
            (seek-Sought buffer index offset k (i + 1) (jumped + get_block_size (entry index i))
              (ground arith) (omega arith))
            skip
      | inr here ↦ record {
        rounds = suc k;
        at = i;
        jump = offset - jumped;
        result = ground arith;
        found = record {
          split = refl;
          nonzero = omega arith;
          jump_le = ground arith;
          size = omega arith;
          same = λ p. refl;
        };
      }
    ]
  where
    next :
        Sought buffer index offset k (i + 1) (jumped + get_block_size (entry index i))
        → ltb (jumped + get_block_size (entry index i)) offset ≡ true
        → Sought buffer index offset (suc k) i jumped
    next s skip = record {
      rounds = s.rounds;
      at = s.at;
      jump = s.jump;
      result = rw skip s.result;
      found =
          subst (λ q. Found buffer index (suc k) i q s.rounds s.at s.jump)
            (let e : get_block_size (entry index i)
                    + (offset - (jumped + get_block_size (entry index i)))
                  ≡ offset - jumped =
                ground arith in
              e)
            (Found-skip buffer index k i (offset - (jumped + get_block_size (entry index i)))
              s.rounds s.at s.jump s.found);
    }

module _ ⦃dev : DeviceApi⦄ where
  open dev use {bread_ok, copy_to_user, copy_to_user_lem}

  -- All buffers are read, and all of the user's memory from `space` on is writable.
  pub record Works (user_from : ℕ) : Type 0 where
    pub reads : (b : ℕ) → bread_ok b ≡ true
    pub writes :
        (user : Bytes) (to : ℕ) (buf : Bytes) (from n : ℕ)
        → user_from ≤ to
        → (copy_to_user user to buf from n).0 ≡ 0

  -- One round of the second loop.
  copy_step :
      (buffer : ℕ → Bytes) (index : Bytes) (i k j jump left space done start : ℕ) (user : Bytes)
      → Works start
      → start ≤ space
      → (jump ≡ 0) ⊎ (i ≡ j)
      → left ≢ 0
      → let n = min left (get_block_size (entry index j) - jump) in
        copy_blocks buffer index i (suc k) j jump left space done user
        ≡ copy_blocks buffer index i k
            (j + 1)
            0
            (left - n)
            (space + n)
            (done + n)
            (memmove user space (buffer (get_block_number (entry index j))) jump n)
  unfolding copy_blocks
  copy_step buffer index i k j jump left space done start user w s z h =
      rw (no_jump, ← copied, w.reads (get_block_number (entry index j)), none_left) (ground arith)
    where
      block : Bytes
      block = buffer (get_block_number (entry index j))

      n : ℕ
      n = min left (get_block_size (entry index j) - jump)

      none_left : (copy_to_user user space block jump n).0 ≡ 0
      none_left = w.writes user space block jump n s

      copied : (copy_to_user user space block jump n).1 ≡ memmove user space block jump n
      copied = copy_to_user_lem user space block jump n none_left

      no_jump : (if i == j then 0 else jump) ≡ 0
      no_jump = ground arith

  -- The second loop.
  copy_blocks_lem :
      (buffer : ℕ → Bytes) (index : Bytes) (i k j jump left space done start : ℕ) (user : Bytes)
      → Works start
      → start ≤ space
      → (jump ≡ 0) ⊎ (i ≡ j)
      → (0 < k → jump ≤ get_block_size (entry index j))
      → let n = min left (total_size index k j - jump) in
        ((copy_blocks buffer index i k j jump left space done user).0 ≡ ok (done + n))
        × ((a : ℕ)
            → (copy_blocks buffer index i k j jump left space done user).1 a ≡ (
                if within space n a then byte_at buffer index k j (jump + (a - space)) else user a))
  unfolding total_size byte_at memmove
  copy_blocks_lem buffer index i zero j jump left space done start user w s z h =
      unfold copy_blocks in (ground arith, λ a. ground arith)
  copy_blocks_lem buffer index i (suc k) j jump left space done start user w s z h =
      elim (Bool-cases (left == 0)) [
        | inl e ↦ unfold copy_blocks in (ground arith, λ a. ground arith)
        | inr e ↦
            let rest =
              copy_blocks_lem buffer index i k (j + 1) 0 (left - n) (space + n) (done + n) start
                (memmove user space block jump n) w (omega arith) (inl refl) (λ _. omega arith) in
            rw (copy_step buffer index i k j jump left space done start user w s z (ground arith))
              (ground (arith, rest.0), λ a. ground (arith, rest.1 a, moved a, h (omega arith)))
      ]
    where
      size : ℕ
      size = get_block_size (entry index j)

      block : Bytes
      block = buffer (get_block_number (entry index j))

      n : ℕ
      n = min left (size - jump)

      moved :
          (a : ℕ)
          → n ≡ size - jump
          → jump ≤ size
          → space + n ≤ a
          → byte_at buffer index k (j + 1) (jump + (a - space) - size)
            ≡ byte_at buffer index k (j + 1) (0 + (a - (space + n)))
      moved a p q r = ap (byte_at buffer index k (j + 1)) (omega arith)

  -- Both loops together.
  record ReadIndex (ino space len offset : ℕ) (fs : Fs) : Type 0 where
    user' : Bytes
    result :
        let inode = fs.inode ino in
        let n = min len (inode.i_size - offset) in
        read_index ino space len offset fs ≡ (
          ok (n, offset + n),
          set_inode (record fs { user = user' }) ino (record inode { i_atime = dev.current_time }),
        )
    bytes :
        let inode = fs.inode ino in
        let n = min len (inode.i_size - offset) in
        (a : ℕ)
        → user' a ≡ (
            if within space n a
            then byte_at fs.buffer
                (fs.buffer inode.index_block)
                (inode.i_blocks - 1)
                0
                (offset + (a - space))
            else fs.user a)

  read_index_lem :
      (ino space len offset : ℕ) (fs : Fs)
      → let inode = fs.inode ino in
        Works space
        → inode.i_size ≡ total_size (fs.buffer inode.index_block) (inode.i_blocks - 1) 0
        → offset < inode.i_size
        → ReadIndex ino space len offset fs
  unfolding read_index
  read_index_lem ino space len offset fs w sized inside = record {
    user' = (copy_blocks fs.buffer index s.at s.rounds s.at s.jump left space 0 fs.user).1;
    result = rw (s.result, read_index) (rw (rounds, copied.0) (ground (arith, count)));
    bytes = λ a. ground (arith, copied.1 a, count, s.found.same (a - space));
  }
    where
      index : Bytes
      index = fs.buffer (fs.inode ino).index_block

      nr_blocks : ℕ
      nr_blocks = (fs.inode ino).i_blocks - 1

      left : ℕ
      left = min len (fs.inode ino).i_size

      s : Sought fs.buffer index offset nr_blocks 0 0
      s = seek-Sought fs.buffer index offset nr_blocks 0 0 (omega arith) (omega (arith, sized))

      rounds : nr_blocks - s.at ≡ s.rounds
      rounds = omega (arith, s.found.split)

      n : ℕ
      n = min left (total_size index s.rounds s.at - s.jump)

      count : n ≡ min len ((fs.inode ino).i_size - offset)
      count = omega (arith, s.found.size, sized)

      copied :
          ((copy_blocks fs.buffer index s.at s.rounds s.at s.jump left space 0 fs.user).0
            ≡ ok (0 + n))
          × ((a : ℕ)
              → (copy_blocks fs.buffer index s.at s.rounds s.at s.jump left space 0 fs.user).1 a ≡ (
                  if within space n a
                  then byte_at fs.buffer index s.rounds s.at (s.jump + (a - space))
                  else fs.user a))
      copied =
          copy_blocks_lem fs.buffer index s.at s.rounds s.at s.jump left space 0 space fs.user w
            (omega arith) (inr refl) (λ _. s.found.jump_le)

  -- On a file whose size is the sum of its blocks' sizes, if the buffers can be read and the user's
  -- memory written from `space` on, and the offset lies inside the file and below the limit of the
  -- function: `ouichefs_read` returns the number of bytes asked for or left, whichever is less, and
  -- moves the offset by it; that many bytes of the user's memory become the file's bytes from the
  -- offset on; the rest of the user's memory is as before, and of the state only the access time
  -- of the inode changes.
  pub ouichefs_read_lem :
      (ino space len offset : ℕ) (fs : Fs)
      → let inode = fs.inode ino in
        let index = fs.buffer inode.index_block in
        let n = min len (inode.i_size - offset) in
        let (ret, fs') = ouichefs_read ino space len offset fs in
        Works space
        → inode.i_size ≡ total_size index (inode.i_blocks - 1) 0
        → offset < inode.i_size
        → offset ≤ max_filesize - 1024
        → len ≢ 0
        → (ret ≡ ok (n, offset + n))
          × ((a : ℕ)
              → fs'.user a ≡ (
                  if within space n a
                  then byte_at fs.buffer index (inode.i_blocks - 1) 0 (offset + (a - space))
                  else fs.user a))
          × (record fs' { user = fs.user }
              ≡ set_inode fs ino (record inode { i_atime = dev.current_time }))
  unfolding ouichefs_read
  ouichefs_read_lem ino space len offset fs w sized inside limit asked = rw r.result (
    ground (arith, w.reads (fs.inode ino).index_block),
    λ a. ground (arith, w.reads (fs.inode ino).index_block, r.bytes a),
    ground (arith, w.reads (fs.inode ino).index_block),
  )
    where
      r : ReadIndex ino space len offset fs
      r = read_index_lem ino space len offset fs w sized inside
