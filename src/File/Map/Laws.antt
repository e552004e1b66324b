-- ===== src/File/Map/Laws.antt =====
-- Mapping a block allocates it once.
use pnl.Base.{
  ℕ, ◌*◌, ◌<◌, ◌≡◌, ◌≢◌, ◌⊎◌, inl, inr, refl, Bool, true, false, Option, some, arith, ◌==◌,
  if◌then◌else◌, u32_mod, ap, sym,
}
use pnl.Bitmap.{get_free_block}
use pnl.Bitmap.Consistent.{IsConsistent, BlockTaken, get_free_block_lem}
use pnl.Fs.{Fs, Result, ok, err, enospc, set_buffer}
use pnl.Kernel.{BitmapApi, DeviceApi}
use pnl.Memory.{store32}
use pnl.Memory.Laws.{load-store}
use pnl.Superblock.{SbInfo}
use pnl.File.Content.{entry}
use pnl.File.Map.{file_get_block}

-- The outcome of an allocation for the entry `iblock` of the file `ino`.
pub record Mapped (ino iblock : ℕ) (fs : Fs) (bno : ℕ) (fs' : Fs) : Type 0 where
  pub taken : BlockTaken fs.sbi bno fs'.sbi
  pub stored :
      (j : ℕ)
      → entry (fs'.buffer (fs.inode ino).index_block) j
        ≡ (if j == iblock then bno else entry (fs.buffer (fs.inode ino).index_block) j)
  pub others : (b : ℕ) → b ≢ (fs.inode ino).index_block → fs'.buffer b ≡ fs.buffer b
  pub rest : record fs { sbi = fs'.sbi; buffer = fs'.buffer } ≡ fs'

module _ ⦃api : BitmapApi⦄ ⦃dev : DeviceApi⦄ (ino iblock : ℕ) (fs : Fs) where
  open dev use {bread_ok}

  -- The state after the entry has been set to `bno`.
  mapped_state : ℕ → SbInfo → Fs
  mapped_state bno sbi =
      set_buffer (record fs { sbi = sbi }) (fs.inode ino).index_block
        (store32 (fs.buffer (fs.inode ino).index_block) (4 * iblock) bno)

  map_fresh :
      iblock < 1024
      → bread_ok (fs.inode ino).index_block ≡ true
      → entry (fs.buffer (fs.inode ino).index_block) iblock ≡ 0
      → (get_free_block fs.sbi).0 ≢ 0
      → file_get_block ino iblock true fs ≡ (
        ok (some (get_free_block fs.sbi).0),
        mapped_state (get_free_block fs.sbi).0 (get_free_block fs.sbi).1,
      )
  unfolding file_get_block mapped_state
  map_fresh lt readable hole got = ground arith

  mapped_state-Mapped :
      (bno : ℕ) (sbi : SbInfo)
      → fs.sbi.nr_blocks < u32_mod
      → BlockTaken fs.sbi bno sbi
      → Mapped ino iblock fs bno (mapped_state bno sbi)
  unfolding mapped_state
  mapped_state-Mapped bno sbi small t = record {
    taken = t;
    stored = λ j.
        ground
          (arith, load-store (fs.buffer (fs.inode ino).index_block) iblock j bno, t.takes.in_range);
    others = λ b ne. ground arith;
    rest = refl;
  }

  -- For an entry of the index block that is not allocated, on a consistent superblock, if the index
  -- block can be read: with no free block the call fails with ENOSPC and changes nothing;
  -- otherwise it maps the least free block, stores it in that entry and in no other, and changes
  -- nothing else but the allocation in the superblock.
  pub file_get_block_lem :
      IsConsistent fs.sbi
      → iblock < 1024
      → bread_ok (fs.inode ino).index_block ≡ true
      → entry (fs.buffer (fs.inode ino).index_block) iblock ≡ 0
      → (file_get_block ino iblock true fs ≡ (err enospc, fs))
          × ((i : ℕ) → i < fs.sbi.nr_blocks → fs.sbi.bfree_bitmap i ≡ false)
        ⊎ ((bno : ℕ) × ((file_get_block ino iblock true fs).0 ≡ ok (some bno))
            × Mapped ino iblock fs bno (file_get_block ino iblock true fs).1)
  file_get_block_lem c lt readable hole = elim (get_free_block_lem c) [
    | inl (e, full) ↦ inl (unfold file_get_block in ground (arith, e), full)
    | inr t ↦ inr (
      (get_free_block fs.sbi).0,
      ap (λ (r : Result (Option ℕ) × Fs). r.0) (map_fresh lt readable hole t.takes.nonzero),
      rw (map_fresh lt readable hole t.takes.nonzero) (
          mapped_state-Mapped (get_free_block fs.sbi).0 (get_free_block fs.sbi).1 c.blocks_small t),
    )
  ]

  -- Once an entry below 1024 is allocated, any later call for it, creating or not, maps the same
  -- block and changes nothing, if the index block can be read.
  pub file_get_block_again :
      (create : Bool) {fs' : Fs} {bno : ℕ}
      → iblock < 1024
      → bread_ok (fs.inode ino).index_block ≡ true
      → Mapped ino iblock fs bno fs'
      → file_get_block ino iblock create fs' ≡ (ok (some bno), fs')
  unfolding file_get_block
  file_get_block_again create {fs'} {bno} lt readable m =
      ground (arith, m.stored iblock, m.taken.takes.nonzero, same)
    where
      same : fs'.inode ino ≡ fs.inode ino
      same = ap (λ (s : Fs). s.inode ino) (sym m.rest)
