-- ===== src/Defrag/Packed.antt =====
-- The defragmentation of a file that has no room to gain.
use pnl.Base.{
  ℕ, zero, suc, ◌+◌, ◌-◌, ◌<◌, ◌≡◌, ◌≢◌, inl, inr, refl, ap, ◌∙◌, Bool, true, false, arith, ◌==◌,
  if◌then◌else◌, leb, Bool-cases, sym, subst, update, update-id,
}
use pnl.Block.{get_block_size, get_block_number}
use pnl.Defrag.{
  Next, close_gaps, go, after_compact, end_defrag, count_removed, fill_entry, compact_from, defrag,
  sets_bh_j, reads_from,
}
use pnl.File.Content.{entry}
use pnl.Fs.{Fs, ok, fault, mark_buffer_dirty, max_block_size}
use pnl.Kernel.{BitmapApi, DeviceApi}
use pnl.Memory.{Bytes}

sets_bh_j-none :
    (index : Bytes) (nr_blocks k i : ℕ)
    → k + i ≡ nr_blocks
    → ((l : ℕ) → l + 1 < nr_blocks → get_block_size (entry index l) ≡ max_block_size)
    → sets_bh_j index k i ≡ false
unfolding sets_bh_j reads_from
sets_bh_j-none index nr_blocks zero i e full = refl
sets_bh_j-none index nr_blocks (suc zero) i e full = ground arith
sets_bh_j-none index nr_blocks (suc (suc k)) i e full =
    ground (arith, full i, sets_bh_j-none index nr_blocks (suc k) (i + 1) (omega arith) full)

module _ ⦃api : BitmapApi⦄ where
  close_gaps-none :
      (ib nr_blocks n i : ℕ) (fs : Fs)
      → n + i ≡ nr_blocks
      → ((l : ℕ) → l < nr_blocks → get_block_size (entry (fs.buffer ib) l) ≢ 0)
      → close_gaps ib nr_blocks n i fs ≡ (ok true, fs)
  unfolding close_gaps
  close_gaps-none ib nr_blocks zero i fs e full = refl
  close_gaps-none ib nr_blocks (suc n) i fs e full =
      ground (arith, full i, close_gaps-none ib nr_blocks n (i + 1) fs (omega arith) full)

module _ ⦃api : BitmapApi⦄ ⦃dev : DeviceApi⦄ where
  open dev use {bread_ok}

  -- The loop stopped without a removal, and wrote nothing.
  record IsSame {A : Type 0} (a : A) (fs : Fs) (r : A × Fs) : Type 0 where
    result : r.0 ≡ a
    sbi : r.1.sbi ≡ fs.sbi
    buffer : r.1.buffer ≡ fs.buffer
    inode : r.1.inode ≡ fs.inode

  marked :
      {A : Type 0} (a : A) (fs : Fs) (b : ℕ) (r : A × Fs)
      → IsSame a (mark_buffer_dirty fs b) r
      → IsSame a fs r
  marked a fs b r v = record { result = v.result; sbi = v.sbi; buffer = v.buffer; inode = v.inode }

  compact_from-IsSame :
      (fuel ib nr_blocks i : ℕ) (fs : Fs)
      → ((l : ℕ) → l + 1 < nr_blocks → get_block_size (entry (fs.buffer ib) l) ≡ max_block_size)
      → ((l : ℕ) → l < nr_blocks → bread_ok (get_block_number (entry (fs.buffer ib) l)) ≡ true)
      → nr_blocks < fuel + i
      → 0 < fuel
      → IsSame (go 0) fs (compact_from fuel ib nr_blocks i 0 fs)
  unfolding compact_from
  compact_from-IsSame zero ib nr_blocks i fs full readable enough pos = absurd (omega arith)
  compact_from-IsSame (suc fuel) ib nr_blocks i fs full readable enough pos =
      elim (Bool-cases (leb nr_blocks i)) [
        | inl over ↦ rw over (record { result = refl; sbi = refl; buffer = refl; inode = refl })
        | inr more ↦
            elim (Bool-cases (max_block_size - get_block_size (entry (fs.buffer ib) i) == 0)) [
              | inl none ↦
                  rw (more, none)
                    (compact_from-IsSame fuel ib nr_blocks (i + 1) fs full readable (omega arith)
                      (ground arith))
              | inr space ↦
                  let end : nr_blocks - (i + 1) ≡ 0 = ground (arith, full i) in
                  rw
                    (
                      more,
                      space,
                      readable i (ground arith),
                      ap (λ r. r.0) (filled end),
                      ap (λ r. r.1) (filled end),
                    )
                    (marked (go 0) fs (get_block_number (entry (fs.buffer ib) i)) _ (
                      compact_from-IsSame fuel ib nr_blocks (i + 1)
                        (mark_buffer_dirty fs (get_block_number (entry (fs.buffer ib) i))) full
                        readable (omega arith) (ground arith)))
            ]
      ]
    where
      left : ℕ
      left = max_block_size - get_block_size (entry (fs.buffer ib) i)

      filled :
          nr_blocks - (i + 1) ≡ 0
          → fill_entry ib i (nr_blocks - (i + 1)) (i + 1) left 0 fs ≡ (go (i + 1, 0), fs)
      filled e = rw e (unfold fill_entry in refl)

  count_removed-zero : (ino : ℕ) (fs : Fs) → (count_removed ino 0 fs).inode ≡ fs.inode
  unfolding count_removed
  count_removed-zero ino fs = ap (update fs.inode ino) blocks ∙ update-id fs.inode ino
    where
      blocks : record (fs.inode ino) { i_blocks = (fs.inode ino).i_blocks - 0 } ≡ fs.inode ino
      blocks = ap (λ n. record (fs.inode ino) { i_blocks = n }) (omega arith)

  after_compact-IsSame :
      (bh_j_set : Bool) (ino ib nr_blocks : ℕ) (fs mid : Fs)
      → IsSame {A = Next ℕ} (go 0) fs (go 0, mid)
      → ((l : ℕ) → l < nr_blocks → get_block_size (entry (fs.buffer ib) l) ≢ 0)
      → IsSame
          (if bh_j_set then ok tt else fault)
          fs
          (after_compact bh_j_set ino ib nr_blocks (go 0, mid))
  unfolding after_compact end_defrag
  after_compact-IsSame bh_j_set ino ib nr_blocks fs mid v used =
      rw
        (close_gaps-none ib nr_blocks nr_blocks 0 (count_removed ino 0 mid) (omega arith) (
          unfold count_removed in
          subst (λ b. (l : ℕ) → l < nr_blocks → get_block_size (entry (b ib) l) ≢ 0) (sym v.buffer)
            used))
        (record {
          result = refl;
          sbi = unfold count_removed in v.sbi;
          buffer = unfold count_removed in v.buffer;
          inode = count_removed-zero ino mid ∙ v.inode;
        })

  -- A file that is packed already: of its blocks, all readable like the index block, all are full
  -- but the last one, which has bytes. Then `defrag` changes neither the superblock, nor a buffer, nor
  -- an inode, but at its end it releases a buffer through a pointer that was never set, a fault.
  pub defrag-packed :
      (ino nr_blocks : ℕ) (fs : Fs)
      → (fs.inode ino).i_blocks ≡ nr_blocks + 1
      → bread_ok (fs.inode ino).index_block ≡ true
      → let index = fs.buffer (fs.inode ino).index_block in
        ((l : ℕ) → l < nr_blocks → bread_ok (get_block_number (entry index l)) ≡ true)
        → ((l : ℕ) → l + 1 < nr_blocks → get_block_size (entry index l) ≡ max_block_size)
        → ((l : ℕ) → l < nr_blocks → get_block_size (entry index l) ≢ 0)
        → let r = defrag ino fs in
          (r.0 ≡ fault) × (r.1.sbi ≡ fs.sbi) × (r.1.buffer ≡ fs.buffer) × (r.1.inode ≡ fs.inode)
  unfolding defrag
  defrag-packed ino nr_blocks fs blocks index_readable readable full used =
      rw (index_readable, count, shape, unset) (done.result, done.sbi, done.buffer, done.inode)
    where
      ib : ℕ
      ib = (fs.inode ino).index_block

      count : (fs.inode ino).i_blocks - 1 ≡ nr_blocks
      count = omega (arith, blocks)

      unset : sets_bh_j (fs.buffer ib) nr_blocks 0 ≡ false
      unset = sets_bh_j-none (fs.buffer ib) nr_blocks nr_blocks 0 (omega arith) full

      first : IsSame (go 0) fs (compact_from (nr_blocks + 1) ib nr_blocks 0 0 fs)
      first =
          compact_from-IsSame (nr_blocks + 1) ib nr_blocks 0 fs full readable (omega arith)
            (omega arith)

      shape :
          compact_from (nr_blocks + 1) ib nr_blocks 0 0 fs
          ≡ (go 0, (compact_from (nr_blocks + 1) ib nr_blocks 0 0 fs).1)
      shape = ap (λ a. (a, (compact_from (nr_blocks + 1) ib nr_blocks 0 0 fs).1)) first.result

      done : IsSame fault fs (
          after_compact false ino ib nr_blocks
            (go 0, (compact_from (nr_blocks + 1) ib nr_blocks 0 0 fs).1))
      done =
          after_compact-IsSame false ino ib nr_blocks fs
            (compact_from (nr_blocks + 1) ib nr_blocks 0 0 fs).1
            (record { result = refl; sbi = first.sbi; buffer = first.buffer; inode = first.inode })
            used
