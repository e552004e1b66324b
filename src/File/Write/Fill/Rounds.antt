-- ===== src/File/Write/Fill/Rounds.antt =====
-- All rounds of the loop that copies: what one adds to those behind it.
use pnl.Base.{
  ℕ, zero, suc, ◌+◌, ◌-◌, ◌*◌, ◌≤◌, ◌<◌, ◌≡◌, ◌≢◌, refl, sym, subst, ap, ◌∙◌, true, false, ltb,
  ◌==◌, if◌then◌else◌, arith, within,
}
use pnl.Block.{get_block_number, get_block_size}
use pnl.File.Content.{entry, total_size}
use pnl.File.Content.Holds.{Holds-append, Holds-one, Holds-cong}
use pnl.File.Write.{Plan, write_blocks}
use pnl.Fs.{Fs, ok, max_block_size}
use pnl.Kernel.{DeviceApi, BitmapApi}
use pnl.Memory.{Bytes, memmove}
use pnl.File.Write.Fill.{Ready, Writes, Written, round, round_index, sized_entry, write_step}

module _ ⦃api : BitmapApi⦄ ⦃dev : DeviceApi⦄ where
  -- One round, and the rounds behind it.
  Written-round :
      (ib k i jump n left space : ℕ) (fs fs' : Fs)
      → jump + n ≤ max_block_size
      → Ready ib (suc k) i jump fs
      → Written ib k (i + 1) 0 left (space + n) (round ib i jump space n (jump + n) fs) fs'
      → Written ib (suc k) i jump (n + left) space fs fs'
  unfolding round
  Written-round ib k i jump n left space fs fs' fits ready w = record {
    numbers = λ j. w.numbers j ∙ number j;
    outside = λ j h.
        w.outside j (ground arith)
        ∙ round_index ib i jump space n (jump + n) fs j
        ∙ (sized_entry (fs.buffer ib) i (jump + n) j).2 (ground arith);
    blocks = λ c nc h.
        w.blocks c nc (λ j p e. h j (ground arith) (sym (number j) ∙ e))
        ∙ unfold round in ground (arith, h i (ground arith));
    holds =
        Holds-cong fs'.buffer (fs'.buffer ib) (1 + k) (suc k) i (jump + n + (0 + left))
          (jump + (n + left)) (λ p. if ltb p (jump + n) then one p else others (p - (jump + n))) _
          (omega arith) (omega arith) (λ p h. ground (arith, moved p))
          (Holds-append fs'.buffer (fs'.buffer ib) 1 k i (jump + n) (0 + left) one others
            (Holds-one fs'.buffer (fs'.buffer ib) i (jump + n) one size bytes) w.holds);
    rest = w.rest;
  }
    where
      b : ℕ
      b = get_block_number (entry (fs.buffer ib) i)

      one : Bytes
      one p = if ltb p jump then fs.buffer b p else fs.user (space + (p - jump))

      others : Bytes
      others p =
          if ltb p 0
          then (round ib i jump space n (jump + n) fs).buffer
              (get_block_number (entry ((round ib i jump space n (jump + n) fs).buffer ib) (i + 1)))
              p
          else fs.user (space + n + (p - 0))

      moved :
          (p : ℕ)
          → jump + n ≤ p
          → fs.user (space + n + (p - (jump + n) - 0)) ≡ fs.user (space + (p - jump))
      moved p h = ap fs.user (omega arith)

      number :
          (j : ℕ)
          → get_block_number (entry ((round ib i jump space n (jump + n) fs).buffer ib) j)
            ≡ get_block_number (entry (fs.buffer ib) j)
      number j =
          ap get_block_number (round_index ib i jump space n (jump + n) fs j)
          ∙ (sized_entry (fs.buffer ib) i (jump + n) j).0

      size : get_block_size (entry (fs'.buffer ib) i) ≡ jump + n
      size =
          ap get_block_size
            (w.outside i (ground arith) ∙ round_index ib i jump space n (jump + n) fs i)
          ∙ (sized_entry (fs.buffer ib) i (jump + n) i).1
          ∙ ground arith

      clash : (j : ℕ) → within (i + 1) k j ≡ true → get_block_number (entry (fs.buffer ib) j) ≢ b
      clash j q e = ground (arith, ready.distinct j i (ground arith) (ground arith) e)

      here : (p : ℕ) → p < jump + n → (round ib i jump space n (jump + n) fs).buffer b p ≡ one p
      here p h = unfold memmove in ground (arith, ready.apart i (ground arith))

      bytes :
          (p : ℕ) → p < jump + n → fs'.buffer (get_block_number (entry (fs'.buffer ib) i)) p ≡ one p
      bytes p h =
          ap (λ c. fs'.buffer c p) (w.numbers i ∙ number i)
          ∙ ap (λ (c : Bytes). c p)
              (w.blocks b (ready.apart i (ground arith))
                (λ j q e. absurd (clash j q (sym (number j) ∙ e))))
          ∙ here p h

  -- No round changes nothing.
  Written-none : (ib i space : ℕ) (fs : Fs) → Written ib 0 i 0 0 space fs fs
  unfolding total_size
  Written-none ib i space fs = record {
    numbers = λ j. refl;
    outside = λ j h. refl;
    blocks = λ b n h. refl;
    holds = record { size = refl; bytes = λ p h. absurd (omega arith) };
    rest = refl;
  }

  Ready-round :
      (ib k i jump space n size : ℕ) (fs : Fs)
      → Ready ib (suc (suc k)) i jump fs
      → Ready ib (suc k) (i + 1) 0 (round ib i jump space n size fs)
  Ready-round ib k i jump space n size fs r = record {
    apart = λ j p e. r.apart j (ground arith) (sym (number j) ∙ e);
    distinct = λ j j' p q e.
        r.distinct j j' (ground arith) (ground arith) (sym (number j) ∙ e ∙ number j');
    first = kept (i + 1) (omega arith) ∙ r.empty (i + 1) (ground arith);
    empty = λ j p. kept j (ground arith) ∙ r.empty j (ground arith);
  }
    where
      number :
          (j : ℕ)
          → get_block_number (entry ((round ib i jump space n size fs).buffer ib) j)
            ≡ get_block_number (entry (fs.buffer ib) j)
      number j =
          ap get_block_number (round_index ib i jump space n size fs j)
          ∙ (sized_entry (fs.buffer ib) i size j).0

      kept :
          (j : ℕ)
          → j ≢ i
          → get_block_size (entry ((round ib i jump space n size fs).buffer ib) j)
            ≡ get_block_size (entry (fs.buffer ib) j)
      kept j h =
          ap get_block_size
            (round_index ib i jump space n size fs j ∙ (sized_entry (fs.buffer ib) i size j).2 h)

  -- With `k` rounds behind the one at the entry `i`, which the bytes need: the loop copies all of them.
  pub write_blocks_lem :
      (p : Plan) (k i jump left space written start len : ℕ) (fs : Fs)
      → Writes fs.user start len
      → start ≤ space
      → space + left ≤ start + len
      → left ≢ 0
      → jump ≤ max_block_size
      → k * max_block_size < jump + left
      → jump + left ≤ (k + 1) * max_block_size
      → (i ≢ p.block_jump → jump ≡ 0)
      → (0 < k → p.i_blocks ≢ 2)
      → Ready p.ib (suc k) i jump fs
      → ((write_blocks p (suc k) i jump left space written fs).0 ≡ ok (written + left))
        × Written p.ib
            (suc k)
            i
            jump
            left
            space
            fs
            (write_blocks p (suc k) i jump left space written fs).1
  unfolding round
  write_blocks_lem p zero i jump left space written start len fs w from to some_left small more fits
        z two r =
      rw
        (write_step p 0 i jump left space written start len true fs w from to some_left
          (omega arith) small (r.apart i (ground arith)) z refl)
        (unfold write_blocks in
          (
            refl,
            rw r.first (
                subst
                  (λ m.
                    Written p.ib 1 i jump m space fs
                      (round p.ib i jump space left (jump + left) fs))
                  all
                  (Written-round p.ib 0 i jump left 0 space fs
                    (round p.ib i jump space left (jump + left) fs) (omega arith) r
                    (Written-none p.ib (i + 1) (space + left)
                      (round p.ib i jump space left (jump + left) fs)))),
          ))
    where
      all : left + 0 ≡ left
      all = omega arith
  write_blocks_lem p (suc k) i jump left space written start len fs w from to some_left small more
        fits z two r =
      let n = max_block_size - jump in
      let rest =
        write_blocks_lem p k (i + 1) 0 (left - n) (space + n) (written + n) start len
          (round p.ib i jump space n (jump + n) fs) w (omega arith) (omega arith) (omega arith)
          (omega arith) (omega arith) (omega arith) (λ _. refl) (λ q. two (omega arith))
          (Ready-round p.ib k i jump space n (jump + n) fs r) in
      rw (step n full (omega arith)) (
        rest.0 ∙ ap ok (omega arith),
        subst
            (λ m.
              Written p.ib (suc (suc k)) i jump m space fs
                (write_blocks p (suc k) (i + 1) 0 (left - n) (space + n) (written + n)
                  (round p.ib i jump space n (jump + n) fs)).1)
            (let all : n + (left - n) ≡ left = omega arith in all)
            (Written-round p.ib (suc k) i jump n (left - n) space fs _ (omega arith) r rest.1),
      )
    where
      two_blocks : (p.i_blocks == 2) ≡ false
      two_blocks = ground (arith, two (omega arith))

      full : max_block_size ≡ jump + (max_block_size - jump)
      full = omega arith

      step :
          (n : ℕ)
          → max_block_size ≡ jump + n
          → n ≡ max_block_size - jump
          → write_blocks p (suc (suc k)) i jump left space written fs
            ≡ write_blocks p
                (suc k)
                (i + 1)
                0
                (left - n)
                (space + n)
                (written + n)
                (round p.ib i jump space n (jump + n) fs)
      step n e m =
          subst
            (λ m.
              write_blocks p (suc (suc k)) i jump left space written fs
              ≡ write_blocks p (suc k) (i + 1) 0 (left - m) (space + m) (written + m)
                  (round p.ib i jump space m max_block_size fs))
            (sym m)
            (write_step p (suc k) i jump left space written start len false fs w from (omega arith)
              some_left (omega arith) small (r.apart i (ground arith)) z
              (rw two_blocks (ground arith)))
          ∙ ap
              (λ size.
                write_blocks p (suc k) (i + 1) 0 (left - n) (space + n) (written + n)
                  (round p.ib i jump space n size fs))
              e
