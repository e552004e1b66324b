-- ===== src/Taskmonitor/Thread.antt =====
-- The thread of the task monitor of lab 5: when commands are safe, and when they are not.
use pnl.Base.{
  ℕ, ◌+◌, ◌≤◌, ◌≡◌, ◌≢◌, refl, ap, ◌∙◌, Bool, true, false, List, some, length, arith, if◌then◌else◌,
  update, inl, inr, Bool-cases, sym,
}
use pnl.Fs.{Result, ok, fault}
use pnl.Kthread.{KthreadApi, Pointer, Threads, null, error, at}
use pnl.Monitor.Command.{
  IsWatched, Snprintf, kthread_run-IsWatched, on, start_text, started, stop_text, stopped-returned,
  store_cmd-IsWatched, store_cmd-ok, store_cmd-started, store_cmd-stopped,
}
use pnl.Taskmonitor.{
  TaskMonitor, Process, get_sample, show_task_monitor, monitor_fn_round, store_cmd_thread, tm_init,
  tm_exit, exit_thread, release_task, after_stop,
}

module _ ⦃kthreads : KthreadApi⦄ where
  open kthreads use {kthread_stop, kthread_stop-running, kthread_stop-returned, kthread_stop-error}

  -- A call while the process is alive, with commands that do not fault.
  pub data Step : TaskMonitor → TaskMonitor → Type 0 where
    sampled :
        (process : Process) (m : ℕ) {h : TaskMonitor}
        → process.pid_alive ≡ true
        → Step h (monitor_fn_round process m h)
    shown : (process : Process) {h : TaskMonitor} → Step h (show_task_monitor process h).1
    commanded :
        (snprintf : Snprintf) (buf : List ℕ) (count : ℕ) {h : TaskMonitor}
        → (store_cmd_thread snprintf buf count h).0 ≢ fault
        → Step h (store_cmd_thread snprintf buf count h).1

  -- What such calls reach once the module is loaded.
  pub data IsReached : TaskMonitor → Type 0 where
    start :
        (h : TaskMonitor)
        → h.err_set ≡ false
        → IsReached
            (tm_init (record { sysfs_works = true; pid_found = true; task_found = true }) h).1
    step : {h h' : TaskMonitor} → IsReached h → Step h h' → IsReached h'

  -- A thread that the module points to runs, and the module has its process.
  pub record IsWatching (h : TaskMonitor) : Type 0 where
    pub thread : IsWatched h.ktmonitor_thread h.threads
    pub task : h.ts ≡ true
    pub no_err : h.err_set ≡ false

  monitor_fn_round-IsWatching :
      (process : Process) (m : ℕ) (h : TaskMonitor)
      → process.pid_alive ≡ true
      → IsWatching h
      → IsWatching (monitor_fn_round process m h)
  unfolding monitor_fn_round get_sample
  monitor_fn_round-IsWatching process m h alive w = elim (Bool-cases (h.threads m)) [
    | inl runs ↦
        rw (runs, alive, w.task) (record { thread = w.thread; task = refl; no_err = w.no_err })
    | inr idle ↦ rw idle w
  ]

  show-IsWatching :
      (process : Process) (h : TaskMonitor)
      → IsWatching h
      → IsWatching (show_task_monitor process h).1
  unfolding show_task_monitor get_sample
  show-IsWatching process h w = elim (Bool-cases process.pid_alive) [
    | inl alive ↦ rw alive (record { thread = w.thread; task = w.task; no_err = w.no_err })
    | inr ended ↦ rw ended w
  ]

  IsReached-IsWatching : {h : TaskMonitor} → IsReached h → IsWatching h
  unfolding tm_init store_cmd_thread
  IsReached-IsWatching (start h e) = record {
    thread = kthread_run-IsWatched h.threads;
    task = refl;
    no_err = e;
  }
  IsReached-IsWatching (step {h = h} r (sampled process m alive)) =
      monitor_fn_round-IsWatching process m h alive (IsReached-IsWatching r)
  IsReached-IsWatching (step {h = h} r (shown process)) =
      show-IsWatching process h (IsReached-IsWatching r)
  IsReached-IsWatching (step {h = h} r (commanded snprintf buf count works)) =
      let w = IsReached-IsWatching r in
      record {
        thread = store_cmd-IsWatched snprintf buf count h.ktmonitor_thread h.threads w.thread works;
        task = w.task;
        no_err = w.no_err;
      }

  -- What is left after the module was unloaded without a fault: the threads, but the one that the
  -- module pointed to.
  pub record IsUnloaded (h : TaskMonitor) (r : Result (Unit {0}) × TaskMonitor) : Type 0 where
    pub result : r.0 ≡ ok tt
    pub threads : (m : ℕ) → h.ktmonitor_thread ≡ at m → r.1.threads ≡ update h.threads m false
    pub no_sysfs_file : r.1.sysfs_file ≡ false
    pub no_pid : r.1.p ≡ false
    pub no_task : r.1.ts ≡ false

  release_task-works :
      (h : TaskMonitor) (ts : Threads)
      → h.ts ≡ true
      → release_task (record h { threads = ts })
        ≡ (ok tt, record h { threads = ts; p = false; sysfs_file = false; ts = false })
  unfolding release_task
  release_task-works h ts e = rw e refl

  same_thread : (m n : ℕ) → at m ≡ at n → m ≡ n
  same_thread m n e = ap thread_of e
    where
      thread_of : Pointer → ℕ
      thread_of null = 0
      thread_of error = 0
      thread_of (at k) = k

  null-not_at : (m : ℕ) → null ≢ at m
  null-not_at m e = ground (arith, ap is_null e)
    where
      is_null : Pointer → Bool
      is_null null = true
      is_null error = false
      is_null (at k) = false

  error-not_null : error ≢ null
  error-not_null e = ground (arith, ap is_error e)
    where
      is_error : Pointer → Bool
      is_error null = false
      is_error error = true
      is_error (at k) = false

  error-not_at : (m : ℕ) → error ≢ at m
  error-not_at m e = ground (arith, ap is_error e)
    where
      is_error : Pointer → Bool
      is_error null = false
      is_error error = true
      is_error (at k) = false

  exit_thread-works :
      (p : Pointer) (h : TaskMonitor)
      → h.ts ≡ true
      → p ≢ error
      → IsWatched p h.threads
      → h.ktmonitor_thread ≡ p
      → IsUnloaded h (exit_thread p h)
  exit_thread-works null h e good w same =
      unfold exit_thread in
      rw (release_task-works h h.threads e) (record {
        result = refl;
        threads = λ m q. absurd (null-not_at m (sym same ∙ q));
        no_sysfs_file = refl;
        no_pid = refl;
        no_task = refl;
      })
  exit_thread-works error h e good w same = absurd (good refl)
  exit_thread-works (at m) h e good (on runs) same =
      unfold exit_thread after_stop in
      rw (kthread_stop-running m h.threads runs, release_task-works h (update h.threads m false) e)
        (record {
          result = refl;
          threads = λ n q. ap (λ k. update h.threads k false) (same_thread m n (sym same ∙ q));
          no_sysfs_file = refl;
          no_pid = refl;
          no_task = refl;
        })

  after_stop-fault :
      (h : TaskMonitor) (a : Result (Unit {0})) (ts : Threads)
      → a ≡ fault
      → (after_stop h (a, ts)).0 ≡ fault
  unfolding after_stop
  after_stop-fault h a ts e = rw e refl

  exit-here :
      (h : TaskMonitor) (p : Pointer)
      → h.err_set ≡ false
      → h.ktmonitor_thread ≡ p
      → tm_exit h ≡ exit_thread p h
  unfolding tm_exit
  exit-here h p clean here =
      ap (λ b. if b then (ok tt, h) else exit_thread h.ktmonitor_thread h) clean
      ∙ ap (λ q. exit_thread q h) here

  exit-fault :
      (h : TaskMonitor) (p : Pointer)
      → h.err_set ≡ false
      → h.ktmonitor_thread ≡ p
      → p ≢ null
      → (kthread_stop p h.threads).0 ≡ fault
      → (tm_exit h).0 ≡ fault
  exit-fault h null clean here some_thread e = absurd (some_thread refl)
  exit-fault h error clean here some_thread e = rw (exit-here h error clean here) (
      unfold exit_thread in
      after_stop-fault h (kthread_stop error h.threads).0 (kthread_stop error h.threads).1 e)
  exit-fault h (at m) clean here some_thread e = rw (exit-here h (at m) clean here) (
      unfold exit_thread in
      after_stop-fault h (kthread_stop (at m) h.threads).0 (kthread_stop (at m) h.threads).1 e)

  -- Once the module is loaded, and as long as the process is alive whenever the thread looks, whatever
  -- reads and commands are made that do not fault: the thread that the module points to runs. If
  -- `kthread_run` has not failed, so that `ktmonitor_thread` is no error pointer: no further command
  -- faults, if its format asks for no argument and its text fits the buffer, and unloading the module
  -- does not fault and gives back the thread, the file, the pid and the task. If it is an error
  -- pointer, unloading faults.
  pub IsReached-safe :
      {h : TaskMonitor}
      → IsReached h
      → ((m : ℕ) → h.ktmonitor_thread ≡ at m → h.threads m ≡ true)
        × (h.ktmonitor_thread ≢ error
            → ((snprintf : Snprintf) (buf : List ℕ) (count : ℕ) (cmd : List ℕ) (cpy : ℕ)
                → snprintf (count + 1) buf ≡ some (cmd, cpy)
                → length cmd + 1 ≤ 100
                → (store_cmd_thread snprintf buf count h).0 ≡ ok cpy)
              × IsUnloaded h (tm_exit h))
        × (h.ktmonitor_thread ≡ error → (tm_exit h).0 ≡ fault)
  unfolding store_cmd_thread
  IsReached-safe {h = h} r = (
    λ m e. runs h.ktmonitor_thread m w.thread e,
    λ good. (
      λ snprintf buf count cmd cpy text fits.
          store_cmd-ok snprintf buf count cmd cpy h.ktmonitor_thread h.threads text fits good
            w.thread,
      rw (exit-here h h.ktmonitor_thread w.no_err refl)
          (exit_thread-works h.ktmonitor_thread h w.task good w.thread refl),
    ),
    λ bad. exit-fault h error w.no_err bad (λ e. error-not_null e) (kthread_stop-error h.threads),
  )
    where
      w : IsWatching h
      w = IsReached-IsWatching r

      runs : (p : Pointer) (m : ℕ) → IsWatched p h.threads → p ≡ at m → h.threads m ≡ true
      runs null m v e = absurd (null-not_at m e)
      runs error m v e = absurd (error-not_at m e)
      runs (at n) m (on q) e = ap h.threads (sym (same_thread n m e)) ∙ q

  -- In the same situation, when the thread `m` is on, the process ends and the thread has seen it:
  -- starting the thread again does nothing, and both stopping it and unloading the module fault.
  pub dead-faults :
      (h : TaskMonitor) (m : ℕ) (process : Process) (snprintf : Snprintf) (buf : List ℕ)
      (count cpy : ℕ)
      → IsReached h
      → h.ktmonitor_thread ≡ at m
      → process.pid_alive ≡ false
      → let dead = monitor_fn_round process m h in
        (dead.threads m ≡ false)
        × (snprintf (count + 1) buf ≡ some (start_text, cpy)
            → store_cmd_thread snprintf buf count dead ≡ (ok cpy, dead))
        × (snprintf (count + 1) buf ≡ some (stop_text, cpy)
            → (store_cmd_thread snprintf buf count dead).0 ≡ fault)
        × ((tm_exit dead).0 ≡ fault)
  unfolding store_cmd_thread
  dead-faults h m process snprintf buf count cpy r here ended = rw shape (
    gone,
    λ e.
        rw (store_cmd-started snprintf buf count cpy h.ktmonitor_thread left e, here)
          (unfold started in refl),
    λ e.
        rw (store_cmd-stopped snprintf buf count cpy h.ktmonitor_thread left e, here)
          (stopped-returned cpy m left gone),
    exit-fault (record h { threads = left }) (at m) w.no_err here (λ e. null-not_at m (sym e))
        (kthread_stop-returned m left gone),
  )
    where
      w : IsWatching h
      w = IsReached-IsWatching r

      left : Threads
      left = update h.threads m false

      gone : left m ≡ false
      gone = ground arith

      on_now : h.threads m ≡ true
      on_now = (IsReached-safe r).0 m here

      shape : monitor_fn_round process m h ≡ record h { threads = left }
      shape = unfold monitor_fn_round get_sample in ground (arith, on_now, w.task, ended)
