-- ===== src/File/Write/Alloc.antt =====
-- The shift of the index entries and the allocation of new blocks in `ouichefs_write`.
use pnl.Base.{
  ℕ, zero, suc, ◌+◌, ◌-◌, ◌*◌, ◌%◌, ◌^◌, ◌≤◌, ◌<◌, ◌≡◌, ◌≢◌, inl, inr, refl, ap, ◌∙◌, fun_ext, true,
  false, arith, ◌==◌, within, if◌then◌else◌, u32_mod, Bool-cases, update, update-id, update-at, sym,
  subst,
}
use pnl.Bitmap.{get_free_block}
use pnl.Bitmap.Consistent.{IsConsistent, BlockTaken, get_free_block_lem}
use pnl.Bitmap.Count.{count-none}
use pnl.Block.{set_block_size, set_block_number}
use pnl.Block.Laws.{set_size_lem, set_number_lem}
use pnl.File.Content.{entry}
use pnl.File.Write.{shift, alloc_blocks, set_entry_size, set_entry_number}
use pnl.Fs.{Fs, ok, set_buffer}
use pnl.Kernel.{BitmapApi, DeviceApi}
use pnl.Memory.{Bytes, store32}
use pnl.Memory.Laws.{load-store}
use pnl.Superblock.{SbInfo}

-- The shift moves the `k` entries behind `block_jump` up by `n`, whatever the distance, and leaves
-- the others as they are.
pub shift_lem :
    (n block_jump k : ℕ) (index : Bytes) (j : ℕ)
    → entry (shift n block_jump k index) j
      ≡ (if within (block_jump + 1 + n) k j then entry index (j - n) % u32_mod else entry index j)
unfolding shift
shift_lem n block_jump zero index j = ground arith
shift_lem n block_jump (suc k) index j = ground (
  arith,
  shift_lem n block_jump k
      (store32 index (4 * (block_jump + suc k + n)) (entry index (block_jump + suc k))) j,
  load-store index (block_jump + suc k + n) j (entry index (block_jump + suc k)),
  load-store index (block_jump + suc k + n) (j - n) (entry index (block_jump + suc k)),
  top,
)
  where
    top : j ≡ block_jump + suc k + n → entry index (j - n) ≡ entry index (block_jump + suc k)
    top e = ap (entry index) (omega arith)

-- The entry after the code has stored the number of a new block and the size 0.
fresh_entry :
    (index : Bytes) (i n j : ℕ)
    → entry (set_entry_size (set_entry_number index i n) i 0) j
      ≡ (if j == i then n % 2 ^ 20 else entry index j)
fresh_entry index i n j =
    rw
      (
        load-store (set_entry_number index i n) i j
            (set_block_size (entry (set_entry_number index i n) i) 0),
        set_size_lem (entry (set_entry_number index i n) i) 0,
        load-store index i j (set_block_number (entry index i) n),
        load-store index i i (set_block_number (entry index i) n),
        set_number_lem (entry index i) n,
      )
      (ground arith)

module _ ⦃api : BitmapApi⦄ ⦃dev : DeviceApi⦄ where
  open dev use {bread_ok}

  -- What an allocation of `k` blocks for the entries from `i` on leaves.
  pub record Allocated (ib k i : ℕ) (fs fs' : Fs) : Type 0 where
    pub consistent : IsConsistent fs'.sbi
    pub counter : fs'.sbi.nr_free_blocks + k ≡ fs.sbi.nr_free_blocks
    pub taken : (j : ℕ) → fs.sbi.bfree_bitmap j ≡ false → fs'.sbi.bfree_bitmap j ≡ false
    -- the entry is a number without a size, of a block that was free and is not now
    pub fresh :
        (j : ℕ)
        → within i k j ≡ true
        → (entry (fs'.buffer ib) j < fs.sbi.nr_blocks)
          × (fs.sbi.bfree_bitmap (entry (fs'.buffer ib) j) ≡ true)
          × (fs'.sbi.bfree_bitmap (entry (fs'.buffer ib) j) ≡ false)
    pub distinct :
        (j j' : ℕ)
        → within i k j ≡ true
        → within i k j' ≡ true
        → entry (fs'.buffer ib) j ≡ entry (fs'.buffer ib) j'
        → j ≡ j'
    pub others : (j : ℕ) → within i k j ≡ false → entry (fs'.buffer ib) j ≡ entry (fs.buffer ib) j
    pub rest : record fs { sbi = fs'.sbi; buffer = update fs.buffer ib (fs'.buffer ib) } ≡ fs'

  pub some_free :
      (sbi : SbInfo)
      → IsConsistent sbi
      → 0 < sbi.nr_free_blocks
      → BlockTaken sbi (get_free_block sbi).0 (get_free_block sbi).1
  some_free sbi c pos = elim (get_free_block_lem c) [
    | inl full ↦
        absurd (omega (arith, count-none sbi.bfree_bitmap sbi.nr_blocks full.1, c.free_blocks))
    | inr t ↦ t
  ]

  -- The state after one round.
  round : (ib i : ℕ) → Fs → Fs
  round ib i fs =
      let taken = get_free_block fs.sbi in
      set_buffer (record fs { sbi = taken.1 }) ib
        (set_entry_size (set_entry_number (fs.buffer ib) i taken.0) i 0)

  alloc_step :
      (ib k i : ℕ) (start : ℕ × ℕ) (fs : Fs)
      → (get_free_block fs.sbi).0 ≢ 0
      → bread_ok (get_free_block fs.sbi).0 ≡ true
      → alloc_blocks ib (suc k) i start fs
        ≡ alloc_blocks ib k (i + 1) (i, (get_free_block fs.sbi).0) (round ib i fs)
  unfolding alloc_blocks round
  alloc_step ib k i start fs nz readable = ground arith

  round_at :
      (fs : Fs) (ib i j : ℕ)
      → entry ((round ib i fs).buffer ib) j
        ≡ entry (set_entry_size (set_entry_number (fs.buffer ib) i (get_free_block fs.sbi).0) i 0) j
  unfolding round
  round_at fs ib i j =
      ap (λ (b : Bytes). entry b j)
        (update-at fs.buffer ib
          (set_entry_size (set_entry_number (fs.buffer ib) i (get_free_block fs.sbi).0) i 0))

  -- The entry of the first round stays in the later ones.
  Allocated-first :
      (ib k i : ℕ) (fs fs' : Fs)
      → fs.sbi.nr_blocks ≤ 2 ^ 20
      → BlockTaken fs.sbi (get_free_block fs.sbi).0 (get_free_block fs.sbi).1
      → Allocated ib k (i + 1) (round ib i fs) fs'
      → entry (fs'.buffer ib) i ≡ (get_free_block fs.sbi).0
  Allocated-first ib k i fs fs' small t a = ground (
    arith,
    a.others i,
    round_at fs ib i i,
    fresh_entry (fs.buffer ib) i (get_free_block fs.sbi).0 i,
    t.takes.in_range,
  )

  Allocated-round :
      (ib k i : ℕ) (fs fs' : Fs)
      → fs.sbi.nr_blocks ≤ 2 ^ 20
      → BlockTaken fs.sbi (get_free_block fs.sbi).0 (get_free_block fs.sbi).1
      → Allocated ib k (i + 1) (round ib i fs) fs'
      → Allocated ib (suc k) i fs fs'
  unfolding round
  Allocated-round ib k i fs fs' small t a = record {
    consistent = a.consistent;
    counter = omega (arith, a.counter, t.counter);
    taken = λ j p. a.taken j (ground (arith, t.takes.changes j));
    fresh = λ j p. elim (Bool-cases (j == i)) [
      | inl z ↦ rw (new j z) (
        t.takes.in_range,
        t.takes.was_free,
        a.taken (get_free_block fs.sbi).0
            (ground (arith, t.takes.changes (get_free_block fs.sbi).0)),
      )
      | inr z ↦
          let f = a.fresh j (ground arith) in
          (
            omega (arith, f.0, blocks),
            ground (arith, f.1, t.takes.changes (entry (fs'.buffer ib) j)),
            f.2,
          )
    ];
    distinct = λ j j' p q e. elim (Bool-cases (j == i)) [
      | inl z ↦ elim (Bool-cases (j' == i)) [
        | inl z' ↦ ground arith
        | inr z' ↦ absurd (older j' (ground arith) (sym e ∙ new j z))
      ]
      | inr z ↦ elim (Bool-cases (j' == i)) [
        | inl z' ↦ absurd (older j (ground arith) (e ∙ new j' z'))
        | inr z' ↦ a.distinct j j' (ground arith) (ground arith) e
      ]
    ];
    others = λ j p. ground (
      arith,
      a.others j,
      fresh_entry (fs.buffer ib) i (get_free_block fs.sbi).0 j,
      round_at fs ib i j,
    );
    rest =
        ap (λ (g : ℕ → Bytes). record fs { sbi = fs'.sbi; buffer = g }) (fun_ext λ b. ground arith)
        ∙ a.rest;
  }
    where
      blocks : fs.sbi.nr_blocks ≡ (get_free_block fs.sbi).1.nr_blocks
      blocks = ap (λ (s : SbInfo). s.nr_blocks) t.rest

      new : (j : ℕ) → (j == i) ≡ true → entry (fs'.buffer ib) j ≡ (get_free_block fs.sbi).0
      new j z = ap (entry (fs'.buffer ib)) j≡i ∙ Allocated-first ib k i fs fs' small t a
        where
          j≡i : j ≡ i
          j≡i = ground arith

      -- the later rounds take blocks that were free after this one
      older :
          (j : ℕ) → within (i + 1) k j ≡ true → entry (fs'.buffer ib) j ≢ (get_free_block fs.sbi).0
      older j p e = ground (arith, (a.fresh j p).1, t.takes.changes (entry (fs'.buffer ib) j), e)

  -- The last entry of the loop and its block, from what the rounds after the first one return.
  last_lem :
      (ib k i bno : ℕ) (index : Bytes) (fs : Fs) (last : ℕ × ℕ)
      → (alloc_blocks ib k (i + 1) (i, bno) fs).0 ≡ ok last
      → (0 < k → last ≡ (i + 1 + k - 1, entry index (i + 1 + k - 1)))
      → entry index i ≡ bno
      → last ≡ (i + suc k - 1, entry index (i + suc k - 1))
  unfolding alloc_blocks
  last_lem ib zero i bno index fs last e h at = subst (λ j. last ≡ (j, entry index j)) same first
    where
      same : i ≡ i + 1 - 1
      same = omega arith

      first : last ≡ (i, entry index i)
      first = cc (e, at)
  last_lem ib (suc k) i bno index fs last e h at =
      subst (λ j. last ≡ (j, entry index j)) same (h (omega arith))
    where
      same : i + 1 + suc k - 1 ≡ i + suc (suc k) - 1
      same = omega arith

  -- On a consistent superblock with at most 2^20 blocks, at least `k` of them free, and all of them
  -- readable: the loop allocates `k` blocks without an error, and gives the last entry with its block.
  -- The `k` entries from `i` on become the numbers of different blocks that were free and are not any
  -- more, with the size 0; the other entries stay; used blocks stay used, the counter falls by `k`, the superblock stays consistent, and
  -- nothing but superblock and index block changes.
  pub alloc_blocks_lem :
      (ib k i : ℕ) (start : ℕ × ℕ) (fs : Fs)
      → IsConsistent fs.sbi
      → fs.sbi.nr_blocks ≤ 2 ^ 20
      → k ≤ fs.sbi.nr_free_blocks
      → ((b : ℕ) → b < fs.sbi.nr_blocks → bread_ok b ≡ true)
      → (last : ℕ × ℕ) × ((alloc_blocks ib k i start fs).0 ≡ ok last)
        × (0 < k
            → last ≡ (i + k - 1, entry ((alloc_blocks ib k i start fs).1.buffer ib) (i + k - 1)))
        × Allocated ib k i fs (alloc_blocks ib k i start fs).1
  alloc_blocks_lem ib zero i start fs c small le readable =
      unfold alloc_blocks in
      (
        start,
        refl,
        λ p. absurd (omega arith),
        record {
          consistent = c;
          counter = omega arith;
          taken = λ j p. p;
          fresh = λ j p. absurd (ground arith);
          distinct = λ j j' p. absurd (ground arith);
          others = λ j p. refl;
          rest = ap (λ (g : ℕ → Bytes). record fs { buffer = g }) (update-id fs.buffer ib);
        },
      )
  alloc_blocks_lem ib (suc k) i start fs c small le readable =
      let t = some_free fs.sbi c (omega arith) in
      let blocks : fs.sbi.nr_blocks ≡ (get_free_block fs.sbi).1.nr_blocks =
        ap (λ (s : SbInfo). s.nr_blocks) t.rest in
      let more =
        alloc_blocks_lem ib k (i + 1) (i, (get_free_block fs.sbi).0) (round ib i fs)
          (unfold round in t.consistent) (unfold round in omega arith)
          (unfold round in omega (arith, t.counter))
          (unfold round in λ b p. readable b (omega arith)) in
      rw
        (alloc_step ib k i start fs t.takes.nonzero
          (readable (get_free_block fs.sbi).0 t.takes.in_range))
        (
          more.0,
          more.1,
          λ _.
              last_lem ib k i (get_free_block fs.sbi).0
                ((alloc_blocks ib k (i + 1) (i, (get_free_block fs.sbi).0) (round ib i fs)).1.buffer
                  ib)
                (round ib i fs) more.0 more.1 more.2 (Allocated-first ib k i fs _ small t more.3),
          Allocated-round ib k i fs _ small t more.3,
        )
