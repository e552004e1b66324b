-- ===== src/Tests/Defrags.antt =====
-- The defragmentation on small files.
use pnl.Base.{true, ℕ, ◌+◌, ◌-◌, ◌<◌, ◌≡◌, refl, ◌==◌, if◌then◌else◌, arith}
use pnl.Block.{get_block_number, get_block_size}
use pnl.Block.Laws.{number_lem, size_lem}
use pnl.Defrag.{go, compact_from, after_compact, defrag}
use pnl.Defrag.Compact.{IsCompact, compact_from-IsCompact}
use pnl.Defrag.Gaps.{after_compact-loses}
use pnl.Defrag.Live.{IsLive}
use pnl.Defrag.Packed.{defrag-packed}
use pnl.File.Content.{entry, total_size}
use pnl.Fs.{fault, Fs, ok}
use pnl.Memory.{Bytes, load32}
use pnl.Tests.Disk.{disk-IsConsistent, machine, machine_with, file}
use pnl.Tests.Machine.{bitmap_api, device_api}

-- 4000 bytes in block 7, 200 in block 8 and 7 in block 9
abbrev loose_index : Bytes
loose_index a =
    if a == 0
    then 7
    else if a == 3
    then 0xfa
    else if a == 4
    then 8
    else if a == 6
    then 0x80
    else if a == 7
    then 0x0c
    else if a == 8
    then 9
    else if a == 10
    then 0x70
    else 0

abbrev loose : Fs
loose = machine loose_index

entry-loose :
    (j : ℕ)
    → entry loose_index j ≡ (
        if j == 0
        then 0xfa000007
        else if j == 1
        then 0x0c800008
        else if j == 2
        then 0x00700009
        else 0)
unfolding load32
entry-loose j = ground arith

number-loose : (j : ℕ) → j < 3 → get_block_number (entry loose_index j) ≡ 7 + j
number-loose j p = ground (arith, number_lem (entry loose_index j), entry-loose j)

loose-IsLive : IsLive 5 3 loose.sbi loose.buffer
loose-IsLive = record {
  consistent = disk-IsConsistent;
  small = omega arith;
  index_used = refl;
  hole = λ l p e. absurd (omega (arith, number-loose l p));
  in_range = λ l p. omega (arith, number-loose l p);
  used = λ l p. ground (arith, number-loose l p);
  apart = λ l p n e. omega (arith, number-loose l p);
  distinct = λ l l' p q n e. omega (arith, number-loose l p, number-loose l' q);
}

compact_from-IsCompact_example : IsCompact 5 3 loose (compact_from (3 + 1) 5 3 0 0 loose)
compact_from-IsCompact_example =
    compact_from-IsCompact 5 3 loose loose-IsLive (λ l p e. omega (arith, number-loose l p))
      (omega arith) (λ b p. refl)

-- 4095 bytes in block 7 and 200 in block 8
abbrev packed_index : Bytes
packed_index a =
    if a == 0
    then 7
    else if a == 2
    then 0xf0
    else if a == 3
    then 0xff
    else if a == 4
    then 8
    else if a == 6
    then 0x80
    else if a == 7
    then 0x0c
    else 0

abbrev packed : Fs
packed = machine packed_index

entry-packed :
    (j : ℕ)
    → entry packed_index j ≡ (if j == 0 then 0xfff00007 else if j == 1 then 0x0c800008 else 0)
unfolding load32
entry-packed j = ground arith

size-packed :
    (j : ℕ) → j < 2 → get_block_size (entry packed_index j) ≡ (if j == 0 then 4095 else 200)
size-packed j p = ground (arith, size_lem (entry packed_index j), entry-packed j)

defrag-packed_example :
    let r = defrag 3 packed in
    (r.0 ≡ fault)
    × (r.1.sbi ≡ packed.sbi)
    × (r.1.buffer ≡ packed.buffer)
    × (r.1.inode ≡ packed.inode)
defrag-packed_example =
    defrag-packed 3 2 packed refl refl (λ l p. refl)
      (λ l p. ground (arith, size-packed l (omega arith)))
      (λ l p e. ground (arith, size-packed l p))

-- 4095 bytes in block 7, an entry that was cleared, and 100 bytes in block 9
abbrev gap_index : Bytes
gap_index a =
    if a == 0
    then 7
    else if a == 2
    then 0xf0
    else if a == 3
    then 0xff
    else if a == 8
    then 9
    else if a == 10
    then 0x40
    else if a == 11
    then 0x06
    else 0

abbrev gap : Fs
gap = machine_with gap_index (record file { i_blocks = 4 })

entry-gap :
    (j : ℕ) → entry gap_index j ≡ (if j == 0 then 0xfff00007 else if j == 2 then 0x06400009 else 0)
unfolding load32
entry-gap j = ground arith

size-gap :
    (j : ℕ)
    → get_block_size (entry gap_index j) ≡ (if j == 0 then 4095 else if j == 2 then 100 else 0)
size-gap j = ground (arith, size_lem (entry gap_index j), entry-gap j)

after_compact-loses_example :
    let r = after_compact true 3 5 3 (go 1, gap) in
    (r.0 ≡ ok tt)
    × (r.1.buffer ≡ gap.buffer)
    × (total_size (r.1.buffer 5) ((r.1.inode 3).i_blocks - 1) 0
          + get_block_size (entry gap_index (3 - 1))
        ≡ total_size gap_index 3 0)
after_compact-loses_example =
    after_compact-loses true 3 5 3 1 1 gap refl refl (omega arith) (omega arith)
      (λ l p e. ground (arith, size-gap l)) (λ l p q. ground (arith, size-gap l))
