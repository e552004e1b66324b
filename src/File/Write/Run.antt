-- ===== src/File/Write/Run.antt =====
-- The stages of `ouichefs_write` one after the other, on a file that has blocks.
use pnl.Base.{
  ℕ, suc, ◌+◌, ◌-◌, ◌*◌, ◌^◌, ◌≤◌, ◌<◌, ◌≡◌, ◌≢◌, refl, sym, subst, ap, ◌∙◌, true, arith,
}
use pnl.Bitmap.Consistent.{IsConsistent}
use pnl.Block.{get_block_number, get_block_size}
use pnl.File.Content.{entry}
use pnl.File.Write.{
  Plan, alloc_blocks, finish_write, pad_block, run_plan, split_block, write_blocks,
}
use pnl.File.Write.Fill.{Ready, Writes, Written}
use pnl.File.Write.Fill.Rounds.{write_blocks_lem}
use pnl.File.Write.Room.{IsListed, Room, room_lem, shifted}
use pnl.File.Write.Split.{Divided, split_block_lem}
use pnl.Fs.{Fs, M, Result, ok, max_block_size, on_ok, set_inode}
use pnl.Kernel.{BitmapApi, DeviceApi}

on_ok-ok :
    {A B : Type 0} (r : Result A × Fs) (a : A) (f : A → M B) → r.0 ≡ ok a → on_ok r f ≡ f a r.1
on_ok-ok r a f e = rw e refl

module _ ⦃api : BitmapApi⦄ ⦃dev : DeviceApi⦄ (p : Plan) (k : ℕ) where
  -- The state with the new number of blocks.
  unfoldable pub counted : Fs → Fs
  counted fs1 =
      let inode = fs1.inode p.ino in
      set_inode fs1 p.ino (record inode { i_blocks = inode.i_blocks + p.nr_blocks_to_allocate })

  unfoldable pub last_block : Fs → ℕ
  last_block fs1 =
      get_block_number (entry (fs1.buffer p.ib) (p.block_jump + p.nr_blocks_to_allocate))

  -- The states after the allocation, the split and the copies.
  pub record Ran (space offset : ℕ) (fs : Fs) : Type 0 where
    pub fs1 : Fs
    pub fs2 : Fs
    pub fs3 : Fs
    pub room : Room p.ib k p.block_jump p.nr_blocks_to_allocate fs fs1
    pub divided :
        Divided p (p.block_jump + p.nr_blocks_to_allocate) (last_block fs1) (counted fs1) fs2
    pub written : Written p.ib p.nr_blocks_to_allocate p.block_jump p.byte_jump p.len space fs2 fs3
    pub result : run_plan p space offset fs ≡ finish_write p offset (last_block fs1) p.len fs3

  module _ (fs fs1 : Fs) (inside : p.block_jump < k) (some : 0 < p.nr_blocks_to_allocate)
      (room : Room p.ib k p.block_jump p.nr_blocks_to_allocate fs fs1)
      (old : p.not_a_new_file ≡ true)
      (jump_le : p.byte_jump ≤ get_block_size (entry (fs.buffer p.ib) p.block_jump)) where
    from : ℕ
    from = get_block_number (entry (fs1.buffer p.ib) p.block_jump)

    split_lem :
        ((b : ℕ) → dev.bread_ok b ≡ true)
        → let last = p.block_jump + p.nr_blocks_to_allocate in
          ((split_block p (last, last_block fs1) (counted fs1)).0 ≡ ok from)
          × Divided p last (last_block fs1) (counted fs1) (
              pad_block p
                (last_block fs1)
                from
                (split_block p (last, last_block fs1) (counted fs1)).1)
    unfolding counted last_block from
    split_lem readable =
        split_block_lem p (p.block_jump + p.nr_blocks_to_allocate) (last_block fs1) (counted fs1)
          old (readable from)
          (room.listed.blocks.apart (p.block_jump + p.nr_blocks_to_allocate)
            (omega (arith, inside)))
          (room.listed.blocks.apart p.block_jump (omega (arith, inside)))
          (λ e. omega (
            arith,
            some,
            room.listed.blocks.distinct p.block_jump (p.block_jump + p.nr_blocks_to_allocate)
                (omega (arith, inside)) (omega (arith, inside)) e,
          ))
          (omega (arith, some))
          (omega (arith, jump_le, ap get_block_size (room.low p.block_jump (omega arith))))

    ready_lem :
        (fs2 : Fs)
        → Divided p (p.block_jump + p.nr_blocks_to_allocate) (last_block fs1) (counted fs1) fs2
        → Ready p.ib p.nr_blocks_to_allocate p.block_jump p.byte_jump fs2
    unfolding counted
    ready_lem fs2 d = record {
      apart = λ j h e. room.listed.blocks.apart j (ground (arith, inside)) (sym (d.numbers j) ∙ e);
      distinct = λ j j' h h' e.
          room.listed.blocks.distinct j j' (ground (arith, inside)) (ground (arith, inside))
            (sym (d.numbers j) ∙ e ∙ d.numbers j');
      first = ground (arith, d.sizes p.block_jump, some);
      empty = λ j h. ground (arith, d.sizes j, room.new j);
    }

    user_lem :
        (fs2 : Fs)
        → Divided p (p.block_jump + p.nr_blocks_to_allocate) (last_block fs1) (counted fs1) fs2
        → fs2.user ≡ fs.user
    unfolding counted
    user_lem fs2 d = ap (λ (s : Fs). s.user) (sym d.rest) ∙ ap (λ (s : Fs). s.user) (sym room.rest)

    -- The copies need as many rounds as blocks were allocated.
    written_lem :
        (space : ℕ) (fs2 : Fs)
        → Divided p (p.block_jump + p.nr_blocks_to_allocate) (last_block fs1) (counted fs1) fs2
        → Writes fs.user space p.len
        → p.len ≢ 0
        → (p.nr_blocks_to_allocate - 1) * max_block_size < p.byte_jump + p.len
        → p.byte_jump + p.len ≤ p.nr_blocks_to_allocate * max_block_size
        → p.byte_jump ≤ max_block_size
        → (1 < p.nr_blocks_to_allocate → p.i_blocks ≢ 2)
        → let (ret, fs3) =
            write_blocks p p.nr_blocks_to_allocate p.block_jump p.byte_jump p.len space 0 fs2 in
          (ret ≡ ok p.len)
          × Written p.ib p.nr_blocks_to_allocate p.block_jump p.byte_jump p.len space fs2 fs3
    written_lem space fs2 d w asked more fits small two =
        subst
          (λ n.
            let (ret, fs3) = write_blocks p n p.block_jump p.byte_jump p.len space 0 fs2 in
            (ret ≡ ok p.len) × Written p.ib n p.block_jump p.byte_jump p.len space fs2 fs3)
          count
          (let h =
              write_blocks_lem p (p.nr_blocks_to_allocate - 1) p.block_jump p.byte_jump p.len space
                0 space p.len fs2 (subst (λ u. Writes u space p.len) (sym (user_lem fs2 d)) w)
                (omega arith) (omega arith) asked small more (ground (arith, fits, some))
                (λ q. absurd (q refl)) (λ q. two (omega arith))
                (subst (λ n. Ready p.ib n p.block_jump p.byte_jump fs2) (sym count)
                  (ready_lem fs2 d)) in
            (h.0 ∙ ap ok (omega arith), h.1))
      where
        count : suc (p.nr_blocks_to_allocate - 1) ≡ p.nr_blocks_to_allocate
        count = omega (arith, some)

  -- The states, from the calls.
  allocated : Fs → Fs
  allocated fs =
      (alloc_blocks p.ib p.nr_blocks_to_allocate (p.block_jump + 1) (0, 0)
        (shifted p.nr_blocks_to_allocate p.block_jump k p.ib fs)).1

  split : Fs → Fs
  split fs1 =
      pad_block p (last_block fs1) (get_block_number (entry (fs1.buffer p.ib) p.block_jump))
        (split_block p (p.block_jump + p.nr_blocks_to_allocate, last_block fs1) (counted fs1)).1

  copied : ℕ → Fs → Fs
  copied space fs2 =
      (write_blocks p p.nr_blocks_to_allocate p.block_jump p.byte_jump p.len space 0 fs2).1

  run_result :
      (space offset : ℕ) (fs : Fs)
      → p.not_a_new_file ≡ true
      → p.i_blocks ≡ suc k
      → ((alloc_blocks p.ib p.nr_blocks_to_allocate
            (p.block_jump + 1)
            (0, 0)
            (shifted p.nr_blocks_to_allocate p.block_jump k p.ib fs)).0
          ≡ ok (p.block_jump + p.nr_blocks_to_allocate, last_block (allocated fs)))
      → ((split_block p
            (p.block_jump + p.nr_blocks_to_allocate, last_block (allocated fs))
            (counted (allocated fs))).0
          ≡ ok (get_block_number (entry ((allocated fs).buffer p.ib) p.block_jump)))
      → ((write_blocks p p.nr_blocks_to_allocate p.block_jump p.byte_jump p.len space 0
            (split (allocated fs))).0
          ≡ ok p.len)
      → run_plan p space offset fs
        ≡ finish_write p offset
            (last_block (allocated fs))
            p.len
            (copied space (split (allocated fs)))
  unfolding run_plan shifted allocated split copied counted
  run_result space offset fs old blocks a s w =
      simp (old, shift_by) (on_ok-ok _ _ _ a ∙ on_ok-ok _ _ _ s ∙ on_ok-ok _ _ _ w)
    where
      shift_by : p.i_blocks - 2 - p.block_jump ≡ k - 1 - p.block_jump
      shift_by = omega arith

  pub run_plan-Ran :
      (space offset : ℕ) (fs : Fs)
      → IsConsistent fs.sbi
      → fs.sbi.nr_blocks ≤ 2 ^ 20
      → p.block_jump < k
      → IsListed fs.sbi (fs.buffer p.ib) p.ib k
      → 0 < p.nr_blocks_to_allocate
      → p.nr_blocks_to_allocate ≤ fs.sbi.nr_free_blocks
      → Writes fs.user space p.len
      → p.not_a_new_file ≡ true
      → p.i_blocks ≡ suc k
      → p.byte_jump ≤ get_block_size (entry (fs.buffer p.ib) p.block_jump)
      → p.byte_jump ≤ max_block_size
      → p.len ≢ 0
      → (p.nr_blocks_to_allocate - 1) * max_block_size < p.byte_jump + p.len
      → p.byte_jump + p.len ≤ p.nr_blocks_to_allocate * max_block_size
      → (1 < p.nr_blocks_to_allocate → p.i_blocks ≢ 2)
      → Ran space offset fs
  unfolding allocated split copied from last_block get_block_number
  run_plan-Ran space offset fs c small inside listed some enough w old blocks jump_le jump_small
        asked more fits two =
      let (a, room) =
        room_lem p.ib k p.block_jump p.nr_blocks_to_allocate fs c small inside listed some enough
          w.reads in
      let (s, d) = split_lem fs (allocated fs) inside some room old jump_le w.reads in
      let (r, written) =
        written_lem fs (allocated fs) inside some room old jump_le space (split (allocated fs)) d w
          asked more fits jump_small two in
      record {
        fs1 = allocated fs;
        fs2 = split (allocated fs);
        fs3 = copied space (split (allocated fs));
        room = room;
        divided = d;
        written = written;
        result = run_result space offset fs old blocks a s r;
      }
