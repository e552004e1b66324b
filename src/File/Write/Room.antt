-- ===== src/File/Write/Room.antt =====
-- The index block of a file, and what the shift and the allocation of `ouichefs_write` make of it.
use pnl.Base.{
  ℕ, ◌+◌, ◌-◌, ◌%◌, ◌^◌, ◌≤◌, ◌<◌, ◌≡◌, ◌≢◌, ◌⊎◌, sym, ap, ◌∙◌, true, false, leb, if◌then◌else◌,
  arith, Bool-cases, inl, inr, update, update-at, within, u32_mod, fun_ext,
}
use pnl.Bitmap.Consistent.{IsConsistent}
use pnl.Block.{get_block_number, get_block_size}
use pnl.Block.Laws.{number_lem, size_lem}
use pnl.File.Content.{entry}
use pnl.File.Write.{shift, alloc_blocks}
use pnl.File.Write.Alloc.{Allocated, alloc_blocks_lem, shift_lem}
use pnl.Fs.{Fs, ok, set_buffer}
use pnl.Kernel.{BitmapApi, DeviceApi}
use pnl.Memory.{Bytes}
use pnl.Superblock.{SbInfo}

-- The first `k` entries are for different blocks, and none of them for the index block `ib`.
pub record Apart (index : Bytes) (ib k : ℕ) : Type 0 where
  pub apart : (j : ℕ) → j < k → get_block_number (entry index j) ≢ ib
  pub distinct :
      (j j' : ℕ)
      → j < k
      → j' < k
      → get_block_number (entry index j) ≡ get_block_number (entry index j')
      → j ≡ j'

-- A regular file whose index block `ib` has `k` entries in use.
pub record IsListed (sbi : SbInfo) (index : Bytes) (ib k : ℕ) : Type 0 where
  pub blocks : Apart index ib k
  pub used : (j : ℕ) → j < k → sbi.bfree_bitmap (get_block_number (entry index j)) ≡ false
  pub index_used : sbi.bfree_bitmap ib ≡ false

unfoldable pub shifted : (n block_jump k : ℕ) (ib : ℕ) → Fs → Fs
shifted n block_jump k ib fs =
    set_buffer fs ib (shift n block_jump (k - 1 - block_jump) (fs.buffer ib))

-- The file with room for `n` blocks behind the entry `block_jump`.
pub record Room (ib k block_jump n : ℕ) (fs fs' : Fs) : Type 0 where
  pub listed : IsListed fs'.sbi (fs'.buffer ib) ib (k + n)
  pub consistent : IsConsistent fs'.sbi
  pub counter : fs'.sbi.nr_free_blocks + n ≡ fs.sbi.nr_free_blocks
  pub low : (j : ℕ) → j ≤ block_jump → entry (fs'.buffer ib) j ≡ entry (fs.buffer ib) j
  pub new :
      (j : ℕ) → within (block_jump + 1) n j ≡ true → get_block_size (entry (fs'.buffer ib) j) ≡ 0
  pub whole :
      (j : ℕ)
      → within (block_jump + 1) n j ≡ true
      → get_block_number (entry (fs'.buffer ib) j) ≡ entry (fs'.buffer ib) j
  pub fresh :
      (j : ℕ)
      → within (block_jump + 1) n j ≡ true
      → fs.sbi.bfree_bitmap (get_block_number (entry (fs'.buffer ib) j)) ≡ true
  pub high_number :
      (j : ℕ)
      → block_jump < j
      → j < k
      → get_block_number (entry (fs'.buffer ib) (j + n)) ≡ get_block_number (entry (fs.buffer ib) j)
  pub high_size :
      (j : ℕ)
      → block_jump < j
      → j < k
      → get_block_size (entry (fs'.buffer ib) (j + n)) ≡ get_block_size (entry (fs.buffer ib) j)
  pub rest : record fs { sbi = fs'.sbi; buffer = update fs.buffer ib (fs'.buffer ib) } ≡ fs'

entry-shifted :
    (n block_jump k ib : ℕ) (fs : Fs) (j : ℕ)
    → entry ((shifted n block_jump k ib fs).buffer ib) j ≡ (
        if within (block_jump + 1 + n) (k - 1 - block_jump) j
        then entry (fs.buffer ib) (j - n) % u32_mod
        else entry (fs.buffer ib) j)
unfolding shifted
entry-shifted n block_jump k ib fs j =
    ap (λ (b : Bytes). entry b j)
      (update-at fs.buffer ib (shift n block_jump (k - 1 - block_jump) (fs.buffer ib)))
    ∙ shift_lem n block_jump (k - 1 - block_jump) (fs.buffer ib) j

number_mod : (w : ℕ) → get_block_number (w % u32_mod) ≡ get_block_number w
number_mod w = omega (arith, number_lem w, number_lem (w % u32_mod))

size_mod : (w : ℕ) → get_block_size (w % u32_mod) ≡ get_block_size w
size_mod w = omega (arith, size_lem w, size_lem (w % u32_mod))

module _ ⦃api : BitmapApi⦄ ⦃dev : DeviceApi⦄ (ib k block_jump n : ℕ) (fs fs' : Fs)
    (c : IsConsistent fs.sbi) (small : fs.sbi.nr_blocks ≤ 2 ^ 20) (inside : block_jump < k)
    (l : IsListed fs.sbi (fs.buffer ib) ib k)
    (a : Allocated ib n (block_jump + 1) (shifted n block_jump k ib fs) fs') where
  low_lem : (j : ℕ) → j ≤ block_jump → entry (fs'.buffer ib) j ≡ entry (fs.buffer ib) j
  low_lem j h = ground (arith, a.others j, entry-shifted n block_jump k ib fs j)

  high_lem :
      (j : ℕ)
      → block_jump < j
      → j < k
      → entry (fs'.buffer ib) (j + n) ≡ entry (fs.buffer ib) j % u32_mod
  high_lem j h q =
      ground (arith, a.others (j + n), entry-shifted n block_jump k ib fs (j + n), back)
    where
      back : entry (fs.buffer ib) (j + n - n) ≡ entry (fs.buffer ib) j
      back = ap (entry (fs.buffer ib)) (omega arith)

  high_fields :
      (j : ℕ)
      → block_jump < j
      → j < k
      → (get_block_number (entry (fs'.buffer ib) (j + n))
          ≡ get_block_number (entry (fs.buffer ib) j))
        × (get_block_size (entry (fs'.buffer ib) (j + n)) ≡ get_block_size (entry (fs.buffer ib) j))
  high_fields j h q = (
    ap get_block_number (high_lem j h q) ∙ number_mod (entry (fs.buffer ib) j),
    ap get_block_size (high_lem j h q) ∙ size_mod (entry (fs.buffer ib) j),
  )

  whole_lem :
      (j : ℕ)
      → within (block_jump + 1) n j ≡ true
      → (entry (fs'.buffer ib) j < 2 ^ 20)
        × (get_block_number (entry (fs'.buffer ib) j) ≡ entry (fs'.buffer ib) j)
  unfolding shifted
  whole_lem j h =
      let f = a.fresh j h in
      (omega (arith, f.0), omega (arith, f.0, number_lem (entry (fs'.buffer ib) j)))

  -- An entry is a new one or stood in the file, where it had the index `j'`.
  kind :
      (j : ℕ)
      → j < k + n
      → (within (block_jump + 1) n j ≡ true)
        ⊎ ((j' : ℕ) × (j' < k)
            × (get_block_number (entry (fs'.buffer ib) j)
                ≡ get_block_number (entry (fs.buffer ib) j'))
            × (j ≡ (if leb j' block_jump then j' else j' + n)))
  kind j h = elim (Bool-cases (leb j block_jump)) [
    | inl e ↦
        inr
          (j, ground (arith, inside), ap get_block_number (low_lem j (ground arith)), ground arith)
    | inr e ↦ elim (Bool-cases (within (block_jump + 1) n j)) [
      | inl new ↦ inl new
      | inr old ↦ inr (
        j - n,
        ground arith,
        ap (λ i. get_block_number (entry (fs'.buffer ib) i)) (back e old)
            ∙ (high_fields (j - n) (ground arith) (ground arith)).0,
        ground arith,
      )
    ]
  ]
    where
      back : leb j block_jump ≡ false → within (block_jump + 1) n j ≡ false → j ≡ j - n + n
      back p q = ground arith

  number_used :
      (j : ℕ)
      → j < k + n
      → fs'.sbi.bfree_bitmap (get_block_number (entry (fs'.buffer ib) j)) ≡ false
  number_used j h = elim (kind j h) [
    | inl new ↦ ap fs'.sbi.bfree_bitmap (whole_lem j new).1 ∙ (a.fresh j new).2
    | inr (j', q, e, at) ↦
        ap fs'.sbi.bfree_bitmap e
        ∙ a.taken (get_block_number (entry (fs.buffer ib) j')) (unfold shifted in l.used j' q)
  ]

  -- A new entry's block was free, so it is none of those in use.
  new-fresh :
      (j : ℕ)
      → within (block_jump + 1) n j ≡ true
      → fs.sbi.bfree_bitmap (get_block_number (entry (fs'.buffer ib) j)) ≡ true
  unfolding shifted
  new-fresh j new = ap fs.sbi.bfree_bitmap (whole_lem j new).1 ∙ (a.fresh j new).1

  not_used :
      (j b : ℕ)
      → within (block_jump + 1) n j ≡ true
      → fs.sbi.bfree_bitmap b ≡ false
      → get_block_number (entry (fs'.buffer ib) j) ≢ b
  not_used j b new free e = ground (arith, new-fresh j new, ap fs.sbi.bfree_bitmap e, free)

  room-Apart : Apart (fs'.buffer ib) ib (k + n)
  room-Apart = record {
    apart = λ j h. elim (kind j h) [
      | inl new ↦ not_used j ib new l.index_used
      | inr (i, q, e, at) ↦ λ z. l.blocks.apart i q (sym e ∙ z)
    ];
    distinct = λ j j' h h' z. elim (kind j h) [
      | inl new ↦ elim (kind j' h') [
        | inl new' ↦ a.distinct j j' new new' (sym (whole_lem j new).1 ∙ z ∙ (whole_lem j' new').1)
        | inr (i', q', e', at') ↦
            absurd
              (not_used j (get_block_number (entry (fs.buffer ib) i')) new (l.used i' q') (z ∙ e'))
      ]
      | inr (i, q, e, at) ↦ elim (kind j' h') [
        | inl new' ↦
            absurd (
              not_used j' (get_block_number (entry (fs.buffer ib) i)) new' (l.used i q) (sym z ∙ e))
        | inr (i', q', e', at') ↦
            ground (arith, at, at', l.blocks.distinct i i' q q' (sym e ∙ z ∙ e'))
      ]
    ];
  }

  Allocated-Room : Room ib k block_jump n fs fs'
  unfolding shifted
  Allocated-Room = record {
    listed = record {
      blocks = room-Apart;
      used = number_used;
      index_used = a.taken ib l.index_used;
    };
    consistent = a.consistent;
    counter = a.counter;
    low = low_lem;
    new = λ j h. omega (arith, size_lem (entry (fs'.buffer ib) j), (whole_lem j h).0);
    whole = λ j h. (whole_lem j h).1;
    fresh = new-fresh;
    high_number = λ j h q. (high_fields j h q).0;
    high_size = λ j h q. (high_fields j h q).1;
    rest =
        ap (λ (g : ℕ → Bytes). record fs { sbi = fs'.sbi; buffer = g }) (fun_ext λ b. ground arith)
        ∙ a.rest;
  }

-- The last entry of the allocation.
last_lem :
    (block_jump n : ℕ) (index : Bytes) (last : ℕ × ℕ)
    → get_block_number (entry index (block_jump + n)) ≡ entry index (block_jump + n)
    → last ≡ (block_jump + 1 + n - 1, entry index (block_jump + 1 + n - 1))
    → last ≡ (block_jump + n, get_block_number (entry index (block_jump + n)))
last_lem block_jump n index last e h =
    h ∙ ap (λ (i : ℕ). (i, entry index i)) at ∙ ap (λ (b : ℕ). (block_jump + n, b)) (sym e)
  where
    at : block_jump + 1 + n - 1 ≡ block_jump + n
    at = omega arith

module _ ⦃api : BitmapApi⦄ ⦃dev : DeviceApi⦄ where
  open dev use {bread_ok}

  -- The shift and the allocation make room for `n` blocks.
  pub room_lem :
      (ib k block_jump n : ℕ) (fs : Fs)
      → IsConsistent fs.sbi
      → fs.sbi.nr_blocks ≤ 2 ^ 20
      → block_jump < k
      → IsListed fs.sbi (fs.buffer ib) ib k
      → 0 < n
      → n ≤ fs.sbi.nr_free_blocks
      → ((b : ℕ) → bread_ok b ≡ true)
      → let (ret, fs') = alloc_blocks ib n (block_jump + 1) (0, 0) (shifted n block_jump k ib fs) in
        (ret ≡ ok (block_jump + n, get_block_number (entry (fs'.buffer ib) (block_jump + n))))
        × Room ib k block_jump n fs fs'
  room_lem ib k block_jump n fs c small inside l some enough readable =
      let (last, result, at, a) =
        alloc_blocks_lem ib n (block_jump + 1) (0, 0) (shifted n block_jump k ib fs)
          (unfold shifted in c) (unfold shifted in small) (unfold shifted in enough)
          (λ b p. readable b) in
      let room = Allocated-Room ib k block_jump n fs _ c small inside l a in
      (
        result
            ∙ ap ok (
                last_lem block_jump n
                  ((alloc_blocks ib n (block_jump + 1) (0, 0)
                      (shifted n block_jump k ib fs)).1.buffer
                    ib)
                  last (room.whole (block_jump + n) (ground arith)) (at some)),
        room,
      )
