-- ===== src/Inode/Create/Atomic.antt =====
-- A new inode: what is taken on success, and that nothing stays taken on failure.
use pnl.Base.{
  ℕ, ◌<◌, ◌≡◌, ◌≢◌, ◌⊎◌, inl, inr, refl, ap, ◌∙◌, false, arith, ◌==◌, ◌&&◌, ◌||◌, if◌then◌else◌,
  not, Bool-cases,
}
use pnl.Bitmap.{get_free_inode, get_free_block, put_inode}
use pnl.Bitmap.Consistent.{
  IsConsistent, BlockTaken, InodeTaken, get_free_block_lem, get_free_inode_lem,
}
use pnl.Bitmap.PutInode.{put_inode_taken}
use pnl.Fs.{Fs, Inode, Errno, Result, ok, err, fault, einval, enospc}
use pnl.Kernel.{BitmapApi, DeviceApi}
use pnl.Superblock.{SbInfo}
use pnl.Inode.Store.{VfsApi, ouichefs_iget}
use pnl.Inode.Create.{init_inode, fill_inode, got_inode, new_inode}

-- An outcome that took an inode and a block, or failed and left the superblock as it was.
pub data TakenOrNot (sbi : SbInfo) : Result ℕ × Fs → Type 0 where
  taken :
      (ino bno : ℕ) (mid : SbInfo) (fs : Fs)
      → InodeTaken sbi ino mid
      → BlockTaken mid bno fs.sbi
      → (fs.inode ino).index_block ≡ bno
      → TakenOrNot sbi (ok ino, fs)
  failed : (e : Errno) (fs : Fs) → fs.sbi ≡ sbi → TakenOrNot sbi (err e, fs)

module _ ⦃dev : DeviceApi⦄ ⦃vfs : VfsApi⦄ where
  open vfs use {inode_init_owner, inode_init_owner_lem}

  pub index_block-init_inode :
      (inode dir : Inode) (mode bno : ℕ) → (init_inode inode dir mode bno).index_block ≡ bno
  unfolding init_inode
  index_block-init_inode inode dir mode bno = ground (
    arith,
    ap (λ (i : Inode). i.index_block)
        (inode_init_owner_lem (record inode { index_block = bno }) dir mode),
  )

  iget-sbi : (ino : ℕ) (fs : Fs) → (ouichefs_iget ino fs).1.sbi ≡ fs.sbi
  unfolding ouichefs_iget
  iget-sbi ino fs = ground arith

  iget-faultless : (ino : ℕ) (fs : Fs) → (ouichefs_iget ino fs).0 ≢ fault
  unfolding ouichefs_iget
  iget-faultless ino fs e = ground arith

module _ ⦃api : BitmapApi⦄ ⦃dev : DeviceApi⦄ ⦃vfs : VfsApi⦄ where
  open vfs use {iput, iput_lem}

  fill_inode-TakenOrNot :
      (dir mode ino : ℕ) (sbi : SbInfo) (fs : Fs)
      → IsConsistent sbi
      → InodeTaken sbi ino fs.sbi
      → TakenOrNot sbi (fill_inode dir mode ino fs)
  unfolding fill_inode
  fill_inode-TakenOrNot dir mode ino sbi fs c t = elim (get_free_block_lem t.consistent) [
    | inl (full, none_free) ↦ rw full (
        failed _ _ (
          ap (λ (s : SbInfo). put_inode s ino) (ap (λ (s : Fs). s.sbi) (iput_lem ino fs))
          ∙ put_inode_taken sbi fs.sbi ino c t))
    | inr b ↦ elim (Bool-cases ((get_free_block fs.sbi).0 == 0)) [
      | inl z ↦ absurd (b.takes.nonzero (ground arith))
      | inr nz ↦ rw nz (
          taken ino (get_free_block fs.sbi).0 fs.sbi _ t b (
            ground (
              arith,
              index_block-init_inode (fs.inode ino) (fs.inode dir) mode (get_free_block fs.sbi).0,
            )))
    ]
  ]

  got_inode-TakenOrNot :
      (dir mode ino : ℕ) (sbi : SbInfo) (r : Result ℕ × Fs)
      → IsConsistent sbi
      → InodeTaken sbi ino r.1.sbi
      → r.0 ≢ fault
      → TakenOrNot sbi (got_inode dir mode ino r)
  unfolding got_inode
  got_inode-TakenOrNot dir mode ino sbi (ok i, fs) c t n =
      fill_inode-TakenOrNot dir mode ino sbi fs c t
  got_inode-TakenOrNot dir mode ino sbi (err e, fs) c t n =
      failed e (record fs { sbi = put_inode fs.sbi ino }) (put_inode_taken sbi fs.sbi ino c t)
  got_inode-TakenOrNot dir mode ino sbi (fault, fs) c t n = absurd (n refl)

  -- On a consistent superblock `new_inode` either takes one inode and one block, which becomes the
  -- inode's index block, and leaves the superblock consistent, or returns an error with the
  -- superblock exactly as it was; it never faults.
  pub new_inode_lem :
      (dir mode : ℕ) (fs : Fs) → IsConsistent fs.sbi → TakenOrNot fs.sbi (new_inode dir mode fs)
  unfolding new_inode
  new_inode_lem dir mode fs c = elim (Bool-cases (not (vfs.is_dir mode) && not (vfs.is_reg mode))) [
    | inl bad ↦ rw bad (failed einval fs refl)
    | inr good ↦
        rw good (elim (Bool-cases ((fs.sbi.nr_free_inodes == 0) || (fs.sbi.nr_free_blocks == 0))) [
          | inl full ↦ rw full (failed enospc fs refl)
          | inr room ↦ rw room (take_inode (get_free_inode_lem c))
        ])
  ]
    where
      found : Result ℕ × Fs
      found =
          ouichefs_iget (get_free_inode fs.sbi).0 (record fs { sbi = (get_free_inode fs.sbi).1 })

      next : Result ℕ × Fs
      next =
          if (get_free_inode fs.sbi).0 == 0
          then (err enospc, record fs { sbi = (get_free_inode fs.sbi).1 })
          else got_inode dir mode (get_free_inode fs.sbi).0 found

      take_inode :
          (get_free_inode fs.sbi ≡ (0, fs.sbi))
              × ((i : ℕ) → i < fs.sbi.nr_inodes → fs.sbi.ifree_bitmap i ≡ false)
            ⊎ InodeTaken fs.sbi (get_free_inode fs.sbi).0 (get_free_inode fs.sbi).1
          → TakenOrNot fs.sbi next
      take_inode (inl (full, none_free)) = rw full (failed enospc fs refl)
      take_inode (inr t) = elim (Bool-cases ((get_free_inode fs.sbi).0 == 0)) [
        | inl z ↦ absurd (t.takes.nonzero (ground arith))
        | inr nz ↦ rw nz (
            got_inode-TakenOrNot dir mode (get_free_inode fs.sbi).0 fs.sbi found c
              (rw
                (iget-sbi (get_free_inode fs.sbi).0 (record fs { sbi = (get_free_inode fs.sbi).1 }))
                t)
              (iget-faultless (get_free_inode fs.sbi).0
                (record fs { sbi = (get_free_inode fs.sbi).1 })))
      ]
