-- ===== src/Monitor/Setup/Ends.antt =====
-- How loading and unloading labs/6/harena/task_monitor.c end.
use pnl.Base.{ℕ, ◌≡◌, Bool, true, false, ◌&&◌, not, update}
use pnl.Fs.{Result, ok, err, fault, einval}
use pnl.Kthread.{Pointer, error, at, Threads, KthreadApi}
use pnl.Monitor.{Monitor}
use pnl.Monitor.Setup.{Held, Calls, nothing, is_null, is_created}

-- The calls whose results are tested.
abbrev pub all_work : Calls → Bool
all_work calls =
    calls.sysfs_create_file
    && (calls.register_shrinker
        && (calls.taskmonitor_cache
            && (calls.taskmonitor_mempool
                && (not (is_null calls.debugfs_create_file)
                    && (calls.taskmonitor_cache_tm && calls.taskmonitor_mempool_tm)))))

-- Nothing is held, and the threads of the kernel are these.
pub record IsReleased (ts : Threads) (h : Held) : Type 0 where
  pub no_sysfs_file : h.sysfs_file ≡ false
  pub same_threads : (m : ℕ) → h.threads m ≡ ts m
  pub no_shrinker : h.shrinker ≡ false
  pub no_cache : h.taskmonitor_cache ≡ false
  pub no_mempool : h.taskmonitor_mempool ≡ false
  pub no_debugfs : h.taskmonitor_debugfs ≡ false
  pub no_cache_tm : h.taskmonitor_cache_tm ≡ false
  pub no_mempool_tm : h.taskmonitor_mempool_tm ≡ false
  pub no_mutex : h.mtx_taskmonitor ≡ false

-- Everything is held but the debugfs file, which may be an error pointer.
pub record IsLoaded (calls : Calls) (h : Held) : Type 0 where
  pub sysfs_file : h.sysfs_file ≡ true
  pub shrinker : h.shrinker ≡ true
  pub cache : h.taskmonitor_cache ≡ true
  pub mempool : h.taskmonitor_mempool ≡ true
  pub debugfs : h.taskmonitor_debugfs ≡ is_created calls.debugfs_create_file
  pub cache_tm : h.taskmonitor_cache_tm ≡ true
  pub mempool_tm : h.taskmonitor_mempool_tm ≡ true
  pub mutex : h.mtx_taskmonitor ≡ true

module _ ⦃kthreads : KthreadApi⦄ (calls : Calls) (ts : Threads) where
  open kthreads use {
    kthread_run, kthread_stop, kthread_run_lem, kthread_stop-running, kthread_stop-error,
  }

  -- How loading the module ends, when the threads of the kernel are `ts`.
  pub data Outcome : Result (Unit {0}) × Held → Type 0 where
    refused : {h : Held} → all_work calls ≡ false → IsReleased ts h → Outcome (err einval, h)
    loaded :
        {h : Held} (m : ℕ)
        → all_work calls ≡ true
        → IsLoaded calls h
        → h.ktmonitor_thread ≡ at m
        → ts m ≡ false
        → h.threads ≡ update ts m true
        → Outcome (ok tt, h)
    loaded_without_thread :
        {h : Held}
        → all_work calls ≡ true
        → IsLoaded calls h
        → h.ktmonitor_thread ≡ error
        → Outcome (ok tt, h)
    stop_faults :
        {h : Held} → all_work calls ≡ false → (kthread_run ts).0 ≡ error → Outcome (fault, h)
    no_mutex : {h : Held} → all_work calls ≡ true → calls.kzalloc ≡ false → Outcome (fault, h)

  -- What the labels give back, from the state with the sysfs file and the thread.
  abbrev pub running : Pointer × Threads → Held
  running run = record (nothing ts) { sysfs_file = true; ktmonitor_thread = run.0; threads = run.1 }

  -- The state at the end of `tm_init`.
  abbrev pub full : Pointer × Threads → Held
  full run = record (running run) {
    shrinker = true;
    taskmonitor_cache = true;
    taskmonitor_mempool = true;
    taskmonitor_debugfs = is_created calls.debugfs_create_file;
    taskmonitor_cache_tm = true;
    taskmonitor_mempool_tm = true;
    mtx_taskmonitor = true;
  }
