-- ===== src/Inode/Lookup/Got.antt =====
-- `ouichefs_iget` of inode.c on an inode number in range.
use pnl.Base.{ℕ, ◌<◌, ◌≡◌, ◌≢◌, inl, inr, refl, true, arith, leb, Bool-cases}
use pnl.Fs.{Fs, Result, ok}
use pnl.Inode.Store.{VfsApi, ouichefs_iget, inode_block}
use pnl.Kernel.{DeviceApi}

-- What `ouichefs_iget` leaves when it finds the inode.
pub record IsGot (ino : ℕ) (fs : Fs) (r : Result ℕ × Fs) : Type 0 where
  pub result : r.0 ≡ ok ino
  pub cached : r.1.cached ino ≡ true
  pub sbi : r.1.sbi ≡ fs.sbi
  pub buffer : r.1.buffer ≡ fs.buffer
  pub others : (i : ℕ) → i ≢ ino → r.1.inode i ≡ fs.inode i

module _ ⦃dev : DeviceApi⦄ ⦃vfs : VfsApi⦄ where
  open dev use {bread_ok}
  open vfs use {iget_ok}

  pub ouichefs_iget-IsGot :
      (ino : ℕ) (fs : Fs)
      → ino < fs.sbi.nr_inodes
      → iget_ok ino ≡ true
      → bread_ok (inode_block ino) ≡ true
      → IsGot ino fs (ouichefs_iget ino fs)
  unfolding ouichefs_iget
  ouichefs_iget-IsGot ino fs lt memory readable = elim (Bool-cases (leb fs.sbi.nr_inodes ino)) [
    | inl over ↦ absurd (ground arith)
    | inr in_range ↦ elim (Bool-cases (fs.cached ino)) [
      | inl hit ↦
          rw (in_range, memory, hit)
            (record {
              result = refl;
              cached = hit;
              sbi = refl;
              buffer = refl;
              others = λ i n. refl;
            })
      | inr miss ↦
          rw (in_range, memory, miss, readable)
            (record {
              result = refl;
              cached = ground arith;
              sbi = refl;
              buffer = refl;
              others = λ i n. ground arith;
            })
    ]
  ]

  -- A cached inode is found.
  pub ouichefs_iget-cached :
      (ino : ℕ) (fs : Fs)
      → ino < fs.sbi.nr_inodes
      → iget_ok ino ≡ true
      → fs.cached ino ≡ true
      → ouichefs_iget ino fs ≡ (ok ino, fs)
  unfolding ouichefs_iget
  ouichefs_iget-cached ino fs lt memory hit = ground arith
