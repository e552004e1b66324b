-- ===== src/File/ReadBack.antt =====
-- `ouichefs_write` and then `ouichefs_read` at the same place.
use pnl.Base.{ℕ, ◌+◌, ◌-◌, ◌/◌, ◌^◌, ◌≤◌, ◌<◌, ◌≡◌, ◌≢◌, ap, ◌∙◌, min, arith}
use pnl.Bitmap.Consistent.{IsConsistent}
use pnl.File.Read.{ouichefs_read}
use pnl.File.Read.Correct.{Works, ouichefs_read_lem}
use pnl.File.Write.{ouichefs_write}
use pnl.File.Write.Fill.{Writes}
use pnl.File.Write.Outcome.{IsFile, Wrote, content}
use pnl.File.Write.Refine.{ouichefs_write_lem}
use pnl.Fs.{Fs, ok, max_block_size, max_blocks_per_file, max_filesize}
use pnl.Kernel.{BitmapApi, DeviceApi}

module _ ⦃api : BitmapApi⦄ ⦃dev : DeviceApi⦄ where
  -- In a state that a write has left: what a read at the same place gives.
  Wrote-read :
      (ino space len offset to : ℕ) (fs fs' : Fs)
      → Works to
      → len ≢ 0
      → offset ≤ (fs.inode ino).i_size
      → offset ≤ max_filesize - 1024
      → Wrote ino space len offset fs fs'
      → let (ret, fs'') = ouichefs_read ino to len offset fs' in
        (ret ≡ ok (len, offset + len))
        × ((a : ℕ) → a < len → fs''.user (to + a) ≡ fs.user (space + a))
  Wrote-read ino space len offset to fs fs' works asked inside limit w =
      let r =
        ouichefs_read_lem ino to len offset fs' works w.file.sized (omega (arith, w.size, asked))
          limit asked in
      (
        r.0 ∙ ap (λ (n : ℕ). ok (n, offset + n)) whole,
        λ a h.
            r.1 (to + a)
            ∙ ground
                (arith, whole, at a, w.bytes (offset + a) (omega arith), ap fs.user (user_at a)),
      )
    where
      whole : min len ((fs'.inode ino).i_size - offset) ≡ len
      whole = omega (arith, w.size)

      at : (a : ℕ) → content ino fs' (offset + (to + a - to)) ≡ content ino fs' (offset + a)
      at a = ap (content ino fs') (omega arith)

      user_at : (a : ℕ) → space + (offset + a - offset) ≡ space + a
      user_at a = omega arith

  -- After a write as in the theorem on `ouichefs_write`, with the user's memory writable from `to` on, a
  -- read of as many bytes at the same offset returns that number, moves the offset by it, and puts
  -- the bytes that were written into the user's memory at `to`.
  pub read-write :
      (junk : ℕ × ℕ) (ino space len offset to : ℕ) (fs : Fs)
      → let inode = fs.inode ino in
        Writes fs.user space len
        → IsConsistent fs.sbi
        → fs.sbi.nr_blocks ≤ 2 ^ 20
        → IsFile ino fs
        → 0 < inode.i_size
        → offset ≤ inode.i_size
        → len ≢ 0
        → offset + len ≤ max_filesize - 1024
        → len / max_block_size + 2 ≤ fs.sbi.nr_free_blocks
        → inode.i_blocks + len / max_block_size + 2 ≤ max_blocks_per_file + 1
        → (inode.i_blocks ≡ 2 → offset + len ≤ max_block_size)
        → Works to
        → let (ret, fs') =
            ouichefs_read ino to len offset (ouichefs_write junk ino space len offset fs).1 in
          (ret ≡ ok (len, offset + len))
          × ((a : ℕ) → a < len → fs'.user (to + a) ≡ fs.user (space + a))
  read-write junk ino space len offset to fs w c small f some_bytes off asked bound free limit two
        works =
      Wrote-read ino space len offset to fs (ouichefs_write junk ino space len offset fs).1 works
        asked off (omega arith)
        (ouichefs_write_lem junk ino space len offset fs w c small f some_bytes off asked bound free
          limit two).1
