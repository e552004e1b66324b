-- ===== src/Monitor/Command.antt =====
-- `store_cmd` of labs/6/harena/task_monitor.c, the sysfs file that starts and stops the thread. The
-- module of lab 5 has the same function.
use pnl.Base.{
  ℕ, ◌+◌, ◌≤◌, ◌≡◌, ◌≢◌, inl, inr, refl, ap, Bool, true, false, Option, none, some, List, [], ◌∷◌,
  ltb, ◌==◌, ◌&&◌, if◌then◌else◌, Bool-cases, length, arith, update,
}
use pnl.Fs.{Result, ok, err, fault}
use pnl.Kthread.{Pointer, null, error, at, Threads, KthreadApi}

-- strcmp(s, t) == 0
unfoldable pub same_text : List ℕ → List ℕ → Bool
same_text [] [] = true
same_text [] (d ∷ t) = false
same_text (c ∷ s) [] = false
same_text (c ∷ s) (d ∷ t) = let rest = same_text s t in (c == d) && rest

abbrev pub start_text : List ℕ
start_text = 115 ∷ 116 ∷ 97 ∷ 114 ∷ 116 ∷ []

abbrev pub stop_text : List ℕ
stop_text = 115 ∷ 116 ∷ 111 ∷ 112 ∷ []

-- `snprintf` of a size and a format without arguments: the text that it writes, of at most the given
-- size with the 0 at its end, and what it returns; none if the format asks for an argument.
abbrev pub Snprintf : Type 0
Snprintf = ℕ → List ℕ → Option (List ℕ × ℕ)

module _ ⦃kthreads : KthreadApi⦄ where
  open kthreads use {
    kthread_run, kthread_stop, kthread_run_lem, kthread_stop-running, kthread_stop-returned,
    kthread_stop-error,
  }

  -- The command "start".
  unfoldable pub started : (cpy : ℕ) → Pointer → Threads → Result ℕ × (Pointer × Threads)
  started cpy null ts = (ok cpy, kthread_run ts)
  started cpy error ts = (ok cpy, (error, ts))
  started cpy (at m) ts = (ok cpy, (at m, ts))

  -- With what `kthread_stop` of the pointer did.
  unfoldable pub thread_stopped :
      (cpy : ℕ) → Pointer → Result (Unit {0}) × Threads → Result ℕ × (Pointer × Threads)
  thread_stopped cpy p (ok u, ts) = (ok cpy, (null, ts))
  thread_stopped cpy p (err e, ts) = (err e, (p, ts))
  thread_stopped cpy p (fault, ts) = (fault, (p, ts))

  -- The command "stop".
  unfoldable pub stopped : (cpy : ℕ) → Pointer → Threads → Result ℕ × (Pointer × Threads)
  stopped cpy null ts = (ok cpy, (null, ts))
  stopped cpy error ts = thread_stopped cpy error (kthread_stop error ts)
  stopped cpy (at m) ts = thread_stopped cpy (at m) (kthread_stop (at m) ts)

  -- With the text written to `cmd`, which has 100 bytes.
  unfoldable pub run_command :
      (cmd : List ℕ) (cpy : ℕ) → Pointer → Threads → Result ℕ × (Pointer × Threads)
  run_command cmd cpy p ts =
      if ltb 100 (length cmd + 1)
      then (fault, (p, ts))
      else if same_text start_text cmd
      then started cpy p ts
      else if same_text stop_text cmd
      then stopped cpy p ts
      else (ok cpy, (p, ts))

  -- With what `snprintf` did: an argument that was not passed is undefined.
  unfoldable pub printed : Option (List ℕ × ℕ) → Pointer → Threads → Result ℕ × (Pointer × Threads)
  printed none p ts = (fault, (p, ts))
  printed (some (cmd, cpy)) p ts = run_command cmd cpy p ts

  unfoldable pub store_cmd :
      Snprintf → (buf : List ℕ) (count : ℕ) → Pointer → Threads → Result ℕ × (Pointer × Threads)
  store_cmd snprintf buf count p ts = printed (snprintf (count + 1) buf) p ts

  -- The pointer is NULL, or an error pointer, or one to a thread that runs.
  pub data IsWatched : Pointer → Threads → Type 0 where
    off : {ts : Threads} → IsWatched null ts
    failed : {ts : Threads} → IsWatched error ts
    on : {m : ℕ} {ts : Threads} → ts m ≡ true → IsWatched (at m) ts

  pub kthread_run-IsWatched : (ts : Threads) → IsWatched (kthread_run ts).0 (kthread_run ts).1
  kthread_run-IsWatched ts = elim (kthread_run_lem ts) [
    | inl e ↦ rw e failed
    | inr (m, free, e) ↦ rw e (on (ground arith))
  ]

  started-IsWatched :
      (cpy : ℕ) (p : Pointer) (ts : Threads)
      → IsWatched p ts
      → IsWatched (started cpy p ts).1.0 (started cpy p ts).1.1
  unfolding started
  started-IsWatched cpy null ts w = kthread_run-IsWatched ts
  started-IsWatched cpy error ts w = w
  started-IsWatched cpy (at m) ts w = w

  started-ok : (cpy : ℕ) (p : Pointer) (ts : Threads) → (started cpy p ts).0 ≡ ok cpy
  unfolding started
  started-ok cpy null ts = refl
  started-ok cpy error ts = refl
  started-ok cpy (at m) ts = refl

  thread_stopped-fault :
      (cpy : ℕ) (p : Pointer) (a : Result (Unit {0})) (ts : Threads)
      → a ≡ fault
      → (thread_stopped cpy p (a, ts)).0 ≡ fault
  unfolding thread_stopped
  thread_stopped-fault cpy p a ts e = rw e refl

  stopped-error : (cpy : ℕ) (ts : Threads) → (stopped cpy error ts).0 ≡ fault
  unfolding stopped
  stopped-error cpy ts =
      thread_stopped-fault cpy error (kthread_stop error ts).0 (kthread_stop error ts).1
        (kthread_stop-error ts)

  -- A thread that returned cannot be stopped.
  pub stopped-returned :
      (cpy m : ℕ) (ts : Threads) → ts m ≡ false → (stopped cpy (at m) ts).0 ≡ fault
  unfolding stopped
  stopped-returned cpy m ts gone =
      thread_stopped-fault cpy (at m) (kthread_stop (at m) ts).0 (kthread_stop (at m) ts).1
        (kthread_stop-returned m ts gone)

  -- A thread that runs is stopped.
  stopped-on :
      (cpy m : ℕ) (ts : Threads)
      → ts m ≡ true
      → stopped cpy (at m) ts ≡ (ok cpy, (null, update ts m false))
  unfolding stopped thread_stopped
  stopped-on cpy m ts runs = ap (thread_stopped cpy (at m)) (kthread_stop-running m ts runs)

  stopped-IsWatched :
      (cpy : ℕ) (p : Pointer) (ts : Threads)
      → IsWatched p ts
      → (stopped cpy p ts).0 ≢ fault
      → IsWatched (stopped cpy p ts).1.0 (stopped cpy p ts).1.1
  stopped-IsWatched cpy null ts w works = unfold stopped in off
  stopped-IsWatched cpy error ts w works = absurd (works (stopped-error cpy ts))
  stopped-IsWatched cpy (at m) ts (on runs) works = rw (stopped-on cpy m ts runs) off

  run_command-IsWatched :
      (cmd : List ℕ) (cpy : ℕ) (p : Pointer) (ts : Threads)
      → IsWatched p ts
      → (run_command cmd cpy p ts).0 ≢ fault
      → IsWatched (run_command cmd cpy p ts).1.0 (run_command cmd cpy p ts).1.1
  unfolding run_command
  run_command-IsWatched cmd cpy p ts w = elim (Bool-cases (ltb 100 (length cmd + 1))) [
    | inl long ↦ rw long (λ works. w)
    | inr fits ↦ elim (Bool-cases (same_text start_text cmd)) [
      | inl start ↦ rw (fits, start) (λ works. started-IsWatched cpy p ts w)
      | inr no_start ↦ elim (Bool-cases (same_text stop_text cmd)) [
        | inl stop ↦ rw (fits, no_start, stop) (stopped-IsWatched cpy p ts w)
        | inr no_stop ↦ rw (fits, no_start, no_stop) (λ works. w)
      ]
    ]
  ]

  -- A command that does not fault keeps the pointer and the thread together.
  pub store_cmd-IsWatched :
      (snprintf : Snprintf) (buf : List ℕ) (count : ℕ) (p : Pointer) (ts : Threads)
      → IsWatched p ts
      → let r = store_cmd snprintf buf count p ts in r.0 ≢ fault → IsWatched r.1.0 r.1.1
  unfolding store_cmd
  store_cmd-IsWatched snprintf buf count p ts w = by_text (snprintf (count + 1) buf)
    where
      by_text :
          (o : Option (List ℕ × ℕ))
          → (printed o p ts).0 ≢ fault
          → IsWatched (printed o p ts).1.0 (printed o p ts).1.1
      by_text none = unfold printed in λ works. w
      by_text (some (cmd, cpy)) = unfold printed in run_command-IsWatched cmd cpy p ts w

  stopped-ok :
      (cpy : ℕ) (p : Pointer) (ts : Threads)
      → p ≢ error
      → IsWatched p ts
      → (stopped cpy p ts).0 ≡ ok cpy
  stopped-ok cpy null ts good w = unfold stopped in refl
  stopped-ok cpy error ts good w = absurd (good refl)
  stopped-ok cpy (at m) ts good (on runs) =
      ap (λ (r : Result ℕ × (Pointer × Threads)). r.0) (stopped-on cpy m ts runs)

  -- A command does not fault whose format asks for no argument, and whose text fits, unless the
  -- pointer is an error pointer.
  pub store_cmd-ok :
      (snprintf : Snprintf) (buf : List ℕ) (count : ℕ) (cmd : List ℕ) (cpy : ℕ) (p : Pointer)
      (ts : Threads)
      → snprintf (count + 1) buf ≡ some (cmd, cpy)
      → length cmd + 1 ≤ 100
      → p ≢ error
      → IsWatched p ts
      → (store_cmd snprintf buf count p ts).0 ≡ ok cpy
  unfolding store_cmd run_command printed
  store_cmd-ok snprintf buf count cmd cpy p ts text fits good w =
      rw (text, short)
        (elim (Bool-cases (same_text start_text cmd)) [
          | inl start ↦ rw start (started-ok cpy p ts)
          | inr no_start ↦ elim (Bool-cases (same_text stop_text cmd)) [
            | inl stop ↦ rw (no_start, stop) (stopped-ok cpy p ts good w)
            | inr no_stop ↦ rw (no_start, no_stop) refl
          ]
        ])
    where
      short : ltb 100 (length cmd + 1) ≡ false
      short = ground (arith, fits)

  -- The two commands, whose texts fit.
  pub store_cmd-started :
      (snprintf : Snprintf) (buf : List ℕ) (count cpy : ℕ) (p : Pointer) (ts : Threads)
      → snprintf (count + 1) buf ≡ some (start_text, cpy)
      → store_cmd snprintf buf count p ts ≡ started cpy p ts
  unfolding store_cmd run_command printed same_text
  store_cmd-started snprintf buf count cpy p ts text = rw text refl

  pub store_cmd-stopped :
      (snprintf : Snprintf) (buf : List ℕ) (count cpy : ℕ) (p : Pointer) (ts : Threads)
      → snprintf (count + 1) buf ≡ some (stop_text, cpy)
      → store_cmd snprintf buf count p ts ≡ stopped cpy p ts
  unfolding store_cmd run_command printed same_text
  store_cmd-stopped snprintf buf count cpy p ts text = rw text refl
