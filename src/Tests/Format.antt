-- ===== src/Tests/Format.antt =====
-- The theorem on a formatted and mounted image, applied to an image of 100 blocks.
use pnl.Base.{◌≤◌, ◌≡◌, refl, true, false, some, arith}
use pnl.Fs.{Fs}
use pnl.Mkfs.{Image, PosixApi, superblock, idiv_ceil, format}
use pnl.Mkfs.Layout.{used_blocks}
use pnl.Mkfs.Mount.Fresh.{Mounted, mount-format}
use pnl.Super.Fill.{ouichefs_fill_super}
use pnl.Tests.Disk.{machine, sized_index}
use pnl.Tests.Machine.{device_api, vfs_api}

instance abbrev posix_api : PosixApi
posix_api = record { malloc_ok = λ call. true; write_ok = λ b. true }

abbrev empty_image : Image
empty_image = record { pos = 0; block = λ b a. 0 }

abbrev unmounted : Fs
unmounted = record (machine sized_index) { cached = λ i. false }

small_image : used_blocks (superblock 409600) ≤ 32768
unfolding superblock idiv_ceil
small_image = omega arith

mount-format_example :
    (img : Image) × (format 409600 empty_image ≡ some (true, img))
    × Mounted
        (superblock 409600)
        (ouichefs_fill_super (λ call. true) true (record unmounted { buffer = img.block }))
mount-format_example =
    mount-format 409600 empty_image (λ call. true) unmounted (λ b. refl) (λ call. refl) (λ b. refl)
      refl (λ call. refl) (omega arith) (omega arith) small_image refl refl
