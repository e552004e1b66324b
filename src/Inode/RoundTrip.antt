-- ===== src/Inode/RoundTrip.antt =====
-- An inode that was written to the inode store and evicted is read back as it was.
use pnl.Base.{
  ℕ, ◌+◌, ◌%◌, ◌^◌, ◌≤◌, ◌<◌, ◌≡◌, ◌≢◌, refl, ap, true, false, arith, ◌==◌, ltb, update-at,
  update-id, Bool-cases, if◌then◌else◌, update, u32_mod, inl, inr, ◌⊎◌, ◌∙◌,
}
use pnl.Fs.{Fs, Inode, ok, set_buffer, set_inode, mark_buffer_dirty}
use pnl.Kernel.{DeviceApi}
use pnl.Memory.{Bytes, load32, store32}
use pnl.Memory.Laws.{load-store_self, load-store_ne}
use pnl.Inode.Store.{
  word, VfsApi, inode_block, inode_offset, load_inode, store_inode, ouichefs_iget,
  ouichefs_write_inode,
}

load-word :
    (b : Bytes) (o i j v : ℕ)
    → load32 (store32 b (word o i) v) (word o j)
      ≡ (if j == i then v % u32_mod else load32 b (word o j))
unfolding word
load-word b o i j v =
    ground (arith, load-store_self b (word o i) v, load-store_ne b (word o i) (word o j) v)

-- The fields fit the 32 bits, and the nanoseconds the 64 bits, that they have on disk.
pub record Fits (i : Inode) : Type 0 where
  pub i_mode : i.i_mode < u32_mod
  pub i_uid : i.i_uid < u32_mod
  pub i_gid : i.i_gid < u32_mod
  pub i_size : i.i_size < u32_mod
  pub i_blocks : i.i_blocks < u32_mod
  pub i_nlink : i.i_nlink < u32_mod
  pub index_block : i.index_block < u32_mod
  pub ctime : i.i_ctime.tv_sec < u32_mod
  pub cnsec : i.i_ctime.tv_nsec < 2 ^ 64
  pub atime : i.i_atime.tv_sec < u32_mod
  pub ansec : i.i_atime.tv_nsec < 2 ^ 64
  pub mtime : i.i_mtime.tv_sec < u32_mod
  pub mnsec : i.i_mtime.tv_nsec < 2 ^ 64

-- Reading an inode back from where it was written.
pub load-store_inode :
    (b : Bytes) (o : ℕ) (i : Inode) → Fits i → load_inode (store_inode b o i) o ≡ i
unfolding load_inode store_inode
load-store_inode b o i f = simp load-word (ground arith)

-- A write of a word of one inode and a read of a word of another, in the same block.
load-word_other :
    (b : Bytes) (o p i j v : ℕ)
    → (o + 80 ≤ p) ⊎ (p + 80 ≤ o)
    → i < 20
    → j < 20
    → load32 (store32 b (word o i) v) (word p j) ≡ load32 b (word p j)
unfolding word
load-word_other b o p i j v h k l = load-store_ne b (word o i) (word p j) v (ground arith)

other_word :
    (b : Bytes) (o p : ℕ) (h : (o + 80 ≤ p) ⊎ (p + 80 ≤ o)) (c : Bytes) (i j v : ℕ)
    → ltb i 20 ≡ true
    → ltb j 20 ≡ true
    → load32 (store32 c (word o i) v) (word p j) ≡ load32 c (word p j)
other_word b o p h c i j v k l = load-word_other c o p i j v h (ground arith) (ground arith)

load-store_inode_other :
    (b : Bytes) (o p : ℕ) (i : Inode)
    → (o + 80 ≤ p) ⊎ (p + 80 ≤ o)
    → load_inode (store_inode b o i) p ≡ load_inode b p
unfolding load_inode store_inode
load-store_inode_other b o p i h = simp (other_word b o p h)

module _ ⦃dev : DeviceApi⦄ ⦃vfs : VfsApi⦄ (ino : ℕ) (fs : Fs) where
  open dev use {bread_ok}
  open vfs use {iget_ok}

  written : Fs
  written =
      mark_buffer_dirty
        (set_buffer fs (inode_block ino)
          (store_inode (fs.buffer (inode_block ino)) (inode_offset ino) (fs.inode ino)))
        (inode_block ino)

  write_inode-ok :
      ino < fs.sbi.nr_inodes
      → bread_ok (inode_block ino) ≡ true
      → ouichefs_write_inode ino fs ≡ (ok tt, written)
  unfolding ouichefs_write_inode written
  write_inode-ok lt readable = ground arith

  -- The state when the inode has been read again from `s`.
  reread : Fs → Fs
  reread s = record (set_inode s ino (load_inode (s.buffer (inode_block ino)) (inode_offset ino))) {
    cached = update s.cached ino true;
  }

  iget-ok :
      (s : Fs)
      → ino < s.sbi.nr_inodes
      → bread_ok (inode_block ino) ≡ true
      → iget_ok ino ≡ true
      → s.cached ino ≡ false
      → ouichefs_iget ino s ≡ (ok ino, reread s)
  unfolding ouichefs_iget reread
  iget-ok s lt readable memory evicted = ground arith

  -- If the number is in range, the block of the inode store can be read, the kernel has memory and
  -- the fields fit: `ouichefs_write_inode` succeeds, and once the inode is dropped from the cache,
  -- `ouichefs_iget` reads back the inode that was written, and changes nothing else.
  pub iget-write_inode :
      ino < fs.sbi.nr_inodes
      → bread_ok (inode_block ino) ≡ true
      → iget_ok ino ≡ true
      → Fits (fs.inode ino)
      → let written = (ouichefs_write_inode ino fs).1 in
        let evicted = record written { cached = update fs.cached ino false } in
        ((ouichefs_write_inode ino fs).0 ≡ ok tt)
        × (ouichefs_iget ino evicted
            ≡ (ok ino, record written { cached = update (update fs.cached ino false) ino true }))
  unfolding written reread
  iget-write_inode lt readable memory fits = rw (write_inode-ok lt readable) (
    refl,
    iget-ok (record written { cached = update fs.cached ino false }) lt readable memory
          (update-at fs.cached ino false)
        ∙ ap
            (λ (g : ℕ → Inode). (
              ok ino,
              record written { inode = g; cached = update (update fs.cached ino false) ino true },
            ))
            (ap (update fs.inode ino) loaded ∙ update-id fs.inode ino),
  )
    where
      store : Bytes
      store = store_inode (fs.buffer (inode_block ino)) (inode_offset ino) (fs.inode ino)

      loaded :
          load_inode (update fs.buffer (inode_block ino) store (inode_block ino)) (inode_offset ino)
          ≡ fs.inode ino
      loaded =
          ap (λ (b : Bytes). load_inode b (inode_offset ino))
            (update-at fs.buffer (inode_block ino) store)
          ∙ load-store_inode (fs.buffer (inode_block ino)) (inode_offset ino) (fs.inode ino) fits

  -- `ouichefs_write_inode` leaves every other inode of the inode store as it was.
  pub write_inode-keeps :
      (j : ℕ)
      → j ≢ ino
      → let fs' = (ouichefs_write_inode ino fs).1 in
        load_inode (fs'.buffer (inode_block j)) (inode_offset j)
        ≡ load_inode (fs.buffer (inode_block j)) (inode_offset j)
  unfolding ouichefs_write_inode
  write_inode-keeps j ne = elim (Bool-cases (inode_block j == inode_block ino)) [
    | inl same ↦
        let e : inode_block j ≡ inode_block ino = ground arith in
        ground (
          arith,
          e,
          load-store_inode_other (fs.buffer (inode_block ino)) (inode_offset ino) (inode_offset j)
              (fs.inode ino) (apart e),
        )
    | inr other ↦ ground arith
  ]
    where
      apart :
          inode_block j ≡ inode_block ino
          → (inode_offset ino + 80 ≤ inode_offset j) ⊎ (inode_offset j + 80 ≤ inode_offset ino)
      apart e = ground arith
