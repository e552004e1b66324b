-- ===== src/Defrag/Loops.antt =====
-- The loops of the defragmentation: that they end, and a search that leaves the index block.
use pnl.Base.{
  ℕ, zero, suc, ◌+◌, ◌-◌, ◌≤◌, ◌<◌, ◌≡◌, ◌≢◌, inl, inr, refl, subst, Bool, true, false, arith, ◌==◌,
  leb, ◌&&◌, if◌then◌else◌, not, Bool-cases,
}
use pnl.Block.{get_block_number, get_block_size}
use pnl.Defrag.{
  Next, go, stop, out_of_fuel, outside, next_used, close_gaps, move_bytes, fill_entry, compact_from,
}
use pnl.File.Content.{entry}
use pnl.Fs.{Fs, fault, max_block_size}
use pnl.Kernel.{BitmapApi, DeviceApi}
use pnl.Memory.{Bytes}

-- A round that does not run out of fuel.
ends : {A : Type 0} → Next A → Bool
ends (go a) = true
ends stop = true
ends out_of_fuel = false

-- Moreover it goes on from the entry `i` or one behind it.
advances : ℕ → Next (ℕ × ℕ) → Bool
advances i (go (j, removed)) = leb i j
advances i stop = true
advances i out_of_fuel = false

data NextCases {A : Type 0} (r : Next A) : Type 0 where
  is_go : (a : A) → r ≡ go a → NextCases r
  is_stop : r ≡ stop → NextCases r
  is_out : r ≡ out_of_fuel → NextCases r

next-cases : {A : Type 0} (r : Next A) → NextCases r
next-cases (go a) = is_go a refl
next-cases stop = is_stop refl
next-cases out_of_fuel = is_out refl

never : (A : Type 0) → ends {A = A} out_of_fuel ≡ true → ⊥
unfolding ends
never A e = ground arith

never-advances : (i : ℕ) → advances i out_of_fuel ≡ true → ⊥
unfolding advances
never-advances i e = ground arith

advances-here : (j removed : ℕ) → advances j (go (j, removed)) ≡ true
unfolding advances
advances-here j removed = ground arith

advances-if :
    (j : ℕ) (b : Bool) (x y : Next (ℕ × ℕ) × Fs)
    → advances j x.0 ≡ true
    → advances j y.0 ≡ true
    → advances j (if b then x else y).0 ≡ true
advances-if j true x y p q = p
advances-if j false x y p q = q

advances-suc : (j : ℕ) (r : Next (ℕ × ℕ)) → advances (j + 1) r ≡ true → advances j r ≡ true
unfolding advances
advances-suc j (go (l, removed)) p = ground arith
advances-suc j stop p = refl
advances-suc j out_of_fuel p = p

ends-if :
    {A : Type 0} (b : Bool) (x y : Next A × Fs)
    → ends x.0 ≡ true
    → ends y.0 ≡ true
    → ends (if b then x else y).0 ≡ true
ends-if true x y p q = p
ends-if false x y p q = q

ends-stop : ends {A = ℕ} stop ≡ true
unfolding ends
ends-stop = refl

leb-true : (i j : ℕ) → leb i j ≡ true → i ≤ j
leb-true i j e = ground arith

module _ ⦃api : BitmapApi⦄ ⦃dev : DeviceApi⦄ where
  open dev use {bread_ok}

  move_bytes-ends : (ib i j left : ℕ) (fs : Fs) → ends (move_bytes ib i j left fs).0 ≡ true
  unfolding move_bytes ends
  move_bytes-ends ib i j left fs = ground arith

  fill_entry-advances :
      (ib i k j left removed : ℕ) (fs : Fs)
      → advances j (fill_entry ib i k j left removed fs).0 ≡ true
  unfolding fill_entry advances
  fill_entry-advances ib i zero j left removed fs = ground arith
  fill_entry-advances ib i (suc k) j left removed fs =
      advances-if j (get_block_size (entry (fs.buffer ib) j) == 0) _ _
        (advances-suc j _ (fill_entry-advances ib i k (j + 1) left (removed + 1) _))
        (elim (next-cases (move_bytes ib i j left fs).0) [
          | is_go (l, b) e ↦ rw e (
              advances-if j
                (not b && (get_block_size (entry (moved.1.buffer ib) i) == max_block_size))
                (go (j, removed), moved.1)
                (fill_entry ib i k (j + 1) l (if b then removed + 1 else removed) moved.1)
                (advances-here j removed)
                (advances-suc j _ (
                  fill_entry-advances ib i k (j + 1) l (if b then removed + 1 else removed)
                    moved.1)))
          | is_stop e ↦ rw e refl
          | is_out e ↦
              absurd
                (never (ℕ × Bool) (subst (λ r. ends r ≡ true) e (move_bytes-ends ib i j left fs)))
        ])
    where
      moved : Next (ℕ × Bool) × Fs
      moved = move_bytes ib i j left fs

  compact_from-ends :
      (fuel ib nr_blocks i removed : ℕ) (fs : Fs)
      → nr_blocks < fuel + i
      → 0 < fuel
      → ends (compact_from fuel ib nr_blocks i removed fs).0 ≡ true
  unfolding compact_from advances
  compact_from-ends zero ib nr_blocks i removed fs h p = absurd (omega arith)
  compact_from-ends (suc fuel) ib nr_blocks i removed fs h p = elim (Bool-cases (leb nr_blocks i)) [
    | inl over ↦ rw over (unfold ends in refl)
    | inr more ↦ rw more (
        ends-if _ _ _
          (compact_from-ends fuel ib nr_blocks (i + 1) removed fs (omega arith) (ground arith))
          (ends-if (not (bread_ok (get_block_number (entry (fs.buffer ib) i)))) (stop, fs) _
            ends-stop
            (elim (next-cases filled.0) [
              | is_go (j, r) e ↦
                  let q : i + 1 ≤ j =
                    leb-true (i + 1) j (subst (λ t. advances (i + 1) t ≡ true) e advanced) in
                  rw e (compact_from-ends fuel ib nr_blocks j r _ (omega arith) (ground arith))
              | is_stop e ↦ rw e (unfold ends in refl)
              | is_out e ↦
                  absurd
                    (never-advances (i + 1) (subst (λ t. advances (i + 1) t ≡ true) e advanced))
            ])))
  ]
    where
      filled : Next (ℕ × ℕ) × Fs
      filled =
          fill_entry ib i (nr_blocks - (i + 1)) (i + 1)
            (max_block_size - get_block_size (entry (fs.buffer ib) i)) removed fs

      advanced : advances (i + 1) filled.0 ≡ true
      advanced =
          fill_entry-advances ib i (nr_blocks - (i + 1)) (i + 1)
            (max_block_size - get_block_size (entry (fs.buffer ib) i)) removed fs

  -- The outer loop ends: with one unit of fuel more than the file has blocks it never runs out,
  -- whatever the index block holds and whatever is allocated or freed on the way.
  pub compact_from-total :
      (ib nr_blocks : ℕ) (fs : Fs)
      → (compact_from (nr_blocks + 1) ib nr_blocks 0 0 fs).0 ≢ out_of_fuel
  compact_from-total ib nr_blocks fs e = never ℕ (
      subst (λ r. ends r ≡ true) e
        (compact_from-ends (nr_blocks + 1) ib nr_blocks 0 0 fs (omega arith) (omega arith)))

next_used-outside :
    (index : Bytes) (nr_blocks k j : ℕ)
    → nr_blocks ≤ j + 1
    → ((l : ℕ) → j ≤ l → get_block_size (entry index l) ≡ 0)
    → next_used index nr_blocks k j ≡ outside
unfolding next_used
next_used-outside index nr_blocks zero j le empty = refl
next_used-outside index nr_blocks (suc k) j le empty = ground (
  arith,
  empty j,
  next_used-outside index nr_blocks k (j + 1) (omega arith) (λ l q. empty l (omega arith)),
)

module _ ⦃api : BitmapApi⦄ where
  close_gaps-outside :
      (ib nr_blocks k i : ℕ) (fs : Fs)
      → k + i ≡ nr_blocks
      → 0 < k
      → ((l : ℕ) → l + 1 < nr_blocks → get_block_size (entry (fs.buffer ib) l) ≢ 0)
      → ((l : ℕ) → nr_blocks ≤ l + 1 → get_block_size (entry (fs.buffer ib) l) ≡ 0)
      → close_gaps ib nr_blocks k i fs ≡ (fault, fs)
  unfolding close_gaps
  close_gaps-outside ib nr_blocks zero i fs e p full empty = absurd (omega arith)
  close_gaps-outside ib nr_blocks (suc k) i fs e p full empty = elim (Bool-cases (k == 0)) [
    | inl z ↦
        rw
          (
            empty i (ground arith),
            next_used-outside (fs.buffer ib) nr_blocks (1024 - i) i (ground arith)
                (λ l q. empty l (ground arith)),
          )
          refl
    | inr nz ↦ ground (
      arith,
      full i,
      close_gaps-outside ib nr_blocks k (i + 1) fs (omega arith) (ground arith) full empty,
    )
  ]

  -- If every block of a file holds bytes but the last one, and the entries behind it are 0, then the
  -- loop that closes the gaps reads outside the index block.
  pub close_gaps-faults :
      (ib nr_blocks : ℕ) (fs : Fs)
      → 0 < nr_blocks
      → ((l : ℕ) → l + 1 < nr_blocks → get_block_size (entry (fs.buffer ib) l) ≢ 0)
      → ((l : ℕ) → nr_blocks ≤ l + 1 → get_block_size (entry (fs.buffer ib) l) ≡ 0)
      → close_gaps ib nr_blocks nr_blocks 0 fs ≡ (fault, fs)
  close_gaps-faults ib nr_blocks fs p full empty =
      close_gaps-outside ib nr_blocks nr_blocks 0 fs (omega arith) p full empty
