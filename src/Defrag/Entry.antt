-- ===== src/Defrag/Entry.antt =====
-- What the updates of one entry by the defragmentation leave in the index block.
use pnl.Base.{
  ℕ, ◌*◌, ◌%◌, ◌^◌, ◌≡◌, inl, inr, refl, ap, ◌∙◌, arith, ◌==◌, if◌then◌else◌, Bool-cases, u32_mod,
}
use pnl.Block.{get_block_number, get_block_size, set_block_number}
use pnl.Block.Laws.{number_lem, size_lem, set_number_lem}
use pnl.File.Content.{entry}
use pnl.File.Write.{set_entry_number}
use pnl.Memory.{Bytes, store32}
use pnl.Memory.Laws.{load-store}

pub entry-cleared :
    (index : Bytes) (j l : ℕ)
    → (get_block_number (entry (store32 index (4 * j) 0) l)
        ≡ (if l == j then 0 else get_block_number (entry index l)))
      × (get_block_size (entry (store32 index (4 * j) 0) l)
          ≡ (if l == j then 0 else get_block_size (entry index l)))
entry-cleared index j l = rw (load-store index j l 0) (elim (Bool-cases (l == j)) [
  | inl e ↦ rw e (ground (arith, number_lem 0), ground (arith, size_lem 0))
  | inr e ↦ rw e (refl, refl)
])

pub entry-numbered :
    (index : Bytes) (j n l : ℕ)
    → (get_block_number (entry (set_entry_number index j n) l)
        ≡ (if l == j then n % 2 ^ 20 else get_block_number (entry index l)))
      × (get_block_size (entry (set_entry_number index j n) l) ≡ get_block_size (entry index l))
entry-numbered index j n l =
    rw (load-store index j l (set_block_number (entry index j) n)) (elim (Bool-cases (l == j)) [
      | inl e ↦
          let same : entry index j ≡ entry index l = ap (entry index) (ground arith) in
          rw e (
            rw
                (
                  number_lem (set_block_number (entry index j) n % u32_mod),
                  set_number_lem (entry index j) n,
                )
                (omega arith),
            rw
                  (
                    size_lem (set_block_number (entry index j) n % u32_mod),
                    set_number_lem (entry index j) n,
                  )
                  (omega (arith, size_lem (entry index j)))
                ∙ ap get_block_size same,
          )
      | inr e ↦ rw e (refl, refl)
    ])
