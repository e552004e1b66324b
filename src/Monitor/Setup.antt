-- ===== src/Monitor/Setup.antt =====
-- Loading and unloading labs/6/harena/task_monitor.c, and its sysfs file, which starts and stops the
-- thread.
pub mod Ends
use pnl.Base.{
  ℕ, ◌+◌, ◌≡◌, ◌⊎◌, refl, Bool, true, false, Option, none, some, List, [], ◌∷◌, ltb, ◌==◌, ◌&&◌,
  if◌then◌else◌, not, Bool-cases, inl, inr, length, arith, ap, ◌∙◌, sym, subst, update, update-at,
}
use pnl.Fs.{Result, ok, err, fault, einval}
use pnl.Kthread.{Pointer, null, error, at, Threads, KthreadApi}
use pnl.Monitor.{Monitor, Monitors, release_taskmonitor}

-- What the module has taken, from the call that makes it to the call that gives it back; its pointer
-- to the thread, and the threads of the kernel.
pub record Held : Type 0 where
  pub sysfs_file : Bool
  pub ktmonitor_thread : Pointer
  pub threads : Threads
  pub shrinker : Bool
  pub taskmonitor_cache : Bool
  pub taskmonitor_mempool : Bool
  pub taskmonitor_debugfs : Bool
  pub taskmonitor_cache_tm : Bool
  pub taskmonitor_mempool_tm : Bool
  pub mtx_taskmonitor : Bool

abbrev pub nothing : Threads → Held
nothing ts = record {
  sysfs_file = false;
  ktmonitor_thread = null;
  threads = ts;
  shrinker = false;
  taskmonitor_cache = false;
  taskmonitor_mempool = false;
  taskmonitor_debugfs = false;
  taskmonitor_cache_tm = false;
  taskmonitor_mempool_tm = false;
  mtx_taskmonitor = false;
}

-- Which calls of the kernel succeed. `debugfs_create_file` is compared with 0, and reports an error by
-- an error pointer.
pub record Calls : Type 0 where
  pub sysfs_create_file : Bool
  pub register_shrinker : Bool
  pub taskmonitor_cache : Bool
  pub taskmonitor_mempool : Bool
  pub debugfs_create_file : Option Bool
  pub taskmonitor_cache_tm : Bool
  pub taskmonitor_mempool_tm : Bool
  pub kzalloc : Bool

-- The file is there, or an error pointer, or NULL.
abbrev pub is_null : Option Bool → Bool
is_null none = true
is_null (some created) = false

abbrev pub is_created : Option Bool → Bool
is_created none = false
is_created (some created) = created

abbrev pub is_null_thread : Pointer → Bool
is_null_thread null = true
is_null_thread error = false
is_null_thread (at m) = false

-- The loop of `tm_exit`: the monitors to visit, and the list.
unfoldable pub release_all : Monitors → Monitors → Monitors
release_all [] tms = tms
release_all (tm ∷ later) tms = release_all later (release_taskmonitor tm.pid tms)

module _ ⦃kthreads : KthreadApi⦄ where
  open kthreads use {
    kthread_run, kthread_stop, kthread_run_lem, kthread_stop-running, kthread_stop-error,
  }

  -- The labels at the end of `tm_init`, each of which runs on into the one above it.
  abbrev pub err_sysfs : Held → Result (Unit {0}) × Held
  err_sysfs h = (err einval, h)

  -- With what `kthread_stop` did.
  unfoldable pub init_stopped : Held → Result (Unit {0}) × Threads → Result (Unit {0}) × Held
  init_stopped h (ok u, ts) = err_sysfs (record h { threads = ts; sysfs_file = false })
  init_stopped h (err e, ts) = (err e, record h { threads = ts })
  init_stopped h (fault, ts) = (fault, record h { threads = ts })

  abbrev pub err_register_shrinker : Held → Result (Unit {0}) × Held
  err_register_shrinker h = init_stopped h (kthread_stop h.ktmonitor_thread h.threads)

  abbrev pub err_taskmonitor_cache : Held → Result (Unit {0}) × Held
  err_taskmonitor_cache h = err_register_shrinker (record h { shrinker = false })

  abbrev pub err_mempool : Held → Result (Unit {0}) × Held
  err_mempool h = err_taskmonitor_cache (record h { taskmonitor_cache = false })

  abbrev pub err_debugfs : Held → Result (Unit {0}) × Held
  err_debugfs h = err_mempool (record h { taskmonitor_mempool = false })

  abbrev pub err_taskmonitor_cache_tm : Held → Result (Unit {0}) × Held
  err_taskmonitor_cache_tm h = err_debugfs (record h { taskmonitor_debugfs = false })

  abbrev pub err_taskmonitor_mempool_tm : Held → Result (Unit {0}) × Held
  err_taskmonitor_mempool_tm h =
      err_taskmonitor_cache_tm (record h { taskmonitor_cache_tm = false })

  -- The result of `kzalloc` is not tested before `mutex_init` writes to it.
  unfoldable pub tm_init : Calls → Held → Result (Unit {0}) × Held
  tm_init calls h0 =
      let run = kthread_run h0.threads in
      let h1 = record h0 { sysfs_file = true; ktmonitor_thread = run.0; threads = run.1 } in
      let h2 = record h1 { shrinker = true } in
      let h3 = record h2 { taskmonitor_cache = true } in
      let h4 = record h3 { taskmonitor_mempool = true } in
      let h5 = record h4 { taskmonitor_debugfs = is_created calls.debugfs_create_file } in
      let h6 = record h5 { taskmonitor_cache_tm = true } in
      let h7 = record h6 { taskmonitor_mempool_tm = true } in
      if not calls.sysfs_create_file
      then err_sysfs h0
      else if not calls.register_shrinker
      then err_register_shrinker h1
      else if not calls.taskmonitor_cache
      then err_taskmonitor_cache h2
      else if not calls.taskmonitor_mempool
      then err_mempool h3
      else if is_null calls.debugfs_create_file
      then err_debugfs h4
      else if not calls.taskmonitor_cache_tm
      then err_taskmonitor_cache_tm h5
      else if not calls.taskmonitor_mempool_tm
      then err_taskmonitor_mempool_tm h6
      else if not calls.kzalloc
      then (fault, h7)
      else (ok tt, record h7 { mtx_taskmonitor = true })

  -- The part of `tm_exit` behind the thread.
  unfoldable pub release_all_objects : Held → Monitors → Result (Unit {0}) × (Held × Monitors)
  release_all_objects h tms = (
    ok tt,
    (
      record h {
        mtx_taskmonitor = false;
        sysfs_file = false;
        shrinker = false;
        taskmonitor_cache = false;
        taskmonitor_mempool = false;
        taskmonitor_mempool_tm = false;
        taskmonitor_cache_tm = false;
        taskmonitor_debugfs = false;
      },
      release_all tms tms,
    ),
  )

  -- With what `kthread_stop` did.
  unfoldable pub exit_stopped :
      Held → Monitors → Result (Unit {0}) × Threads → Result (Unit {0}) × (Held × Monitors)
  exit_stopped h tms (ok u, ts) = release_all_objects (record h { threads = ts }) tms
  exit_stopped h tms (err e, ts) = (err e, (record h { threads = ts }, tms))
  exit_stopped h tms (fault, ts) = (fault, (record h { threads = ts }, tms))

  unfoldable pub tm_exit : Held → Monitors → Result (Unit {0}) × (Held × Monitors)
  tm_exit h tms =
      if is_null_thread h.ktmonitor_thread
      then release_all_objects h tms
      else exit_stopped h tms (kthread_stop h.ktmonitor_thread h.threads)
