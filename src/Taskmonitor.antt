-- ===== src/Taskmonitor.antt =====
-- labs/5/harena/task4/taskmonitor.c: a module that samples one process, `target`, in a thread, with a
-- sysfs file that shows the last sample and starts and stops the thread. Each handler runs as a whole.
pub mod Load
pub mod Thread
use pnl.Base.{ℕ, Bool, List, true, false, if◌then◌else◌, not, update}
use pnl.Fs.{Result, ok, err, fault}
use pnl.Kthread.{Pointer, null, error, at, Threads, KthreadApi}
use pnl.Monitor.Command.{Snprintf, store_cmd}

-- struct task_sample
pub record TaskSample : Type 0 where
  pub utime : ℕ
  pub stime : ℕ

-- The variables of the module: whether the pointers `t.p` and `ts` are set, `ktmonitor_thread`, `err`
-- and `t_sample`; with whether the sysfs file is there, and the threads of the kernel.
pub record TaskMonitor : Type 0 where
  pub p : Bool
  pub ts : Bool
  pub ktmonitor_thread : Pointer
  pub err_set : Bool
  pub t_sample : TaskSample
  pub sysfs_file : Bool
  pub threads : Threads

-- What the kernel knows of the process at a call: `pid_alive`, and its times.
pub record Process : Type 0 where
  pub pid_alive : Bool
  pub sample : TaskSample

unfoldable pub get_sample : Process → TaskMonitor → Bool × TaskMonitor
get_sample process h =
    if process.pid_alive then (true, record h { t_sample = process.sample }) else (false, h)

-- What `show_task_monitor` prints.
pub data Shown : Type 0 where
  times : TaskSample → Shown
  not_alive : Shown

unfoldable pub show_task_monitor : Process → TaskMonitor → Shown × TaskMonitor
show_task_monitor process h =
    let got = get_sample process h in
    if got.0 then (times got.1.t_sample, got.1) else (not_alive, got.1)

-- One test of the loop condition of `monitor_fn`, by the thread `m`, if it runs and is not to stop.
-- When the process has ended the thread returns. Nothing else learns of it.
unfoldable pub monitor_fn_round : Process → (m : ℕ) → TaskMonitor → TaskMonitor
monitor_fn_round process m h =
    let got = get_sample process h in
    if not (h.threads m)
    then h
    else if not h.ts
    then record h { threads = update h.threads m false }
    else if got.0
    then got.1
    else record h { threads = update h.threads m false }

-- The results of `sysfs_create_file`, `find_get_pid` and `get_pid_task`.
pub record Loading : Type 0 where
  pub sysfs_works : Bool
  pub pid_found : Bool
  pub task_found : Bool

-- EINVAL, which `tm_init` returns with the wrong sign
abbrev pub positive_einval : ℕ
positive_einval = 22

-- The labels at the end of `tm_init`.
abbrev pub err3 : TaskMonitor → ℕ × TaskMonitor
err3 h = (positive_einval, h)

abbrev pub err2 : TaskMonitor → ℕ × TaskMonitor
err2 h = err3 (record h { sysfs_file = false })

-- The reference to the pid is put; the pointer stays.
abbrev pub err1 : TaskMonitor → ℕ × TaskMonitor
err1 h = err2 h

module _ ⦃kthreads : KthreadApi⦄ where
  open kthreads use {kthread_run, kthread_stop}

  -- The function is that of the module of lab 6.
  unfoldable pub store_cmd_thread :
      Snprintf → (buf : List ℕ) (count : ℕ) → TaskMonitor → Result ℕ × TaskMonitor
  store_cmd_thread snprintf buf count h =
      let r = store_cmd snprintf buf count h.ktmonitor_thread h.threads in
      (r.0, record h { ktmonitor_thread = r.1.0; threads = r.1.1 })

  -- The result is what the kernel gets. The assignment of `err` behind the first `goto` is never
  -- reached.
  unfoldable pub tm_init : Loading → TaskMonitor → ℕ × TaskMonitor
  tm_init l h0 =
      let h1 = record h0 { sysfs_file = true } in
      let h2 = record h1 { p = true } in
      let h3 = record h2 { ts = true } in
      let run = kthread_run h0.threads in
      if not l.sysfs_works
      then err3 h0
      else if not l.pid_found
      then err2 (record h1 { err_set = true })
      else if not l.task_found
      then err1 (record h2 { err_set = true })
      else (0, record h3 { ktmonitor_thread = run.0; threads = run.1 })

  -- The end of `tm_exit`: `put_pid` takes NULL, and `put_task_struct` does not.
  unfoldable pub release_task : TaskMonitor → Result (Unit {0}) × TaskMonitor
  release_task h =
      if not h.ts
      then (fault, record h { p = false; sysfs_file = false })
      else (ok tt, record h { p = false; sysfs_file = false; ts = false })

  -- With what `kthread_stop` did.
  unfoldable pub after_stop :
      TaskMonitor → Result (Unit {0}) × Threads → Result (Unit {0}) × TaskMonitor
  after_stop h (ok u, ts) = release_task (record h { threads = ts })
  after_stop h (err e, ts) = (err e, record h { threads = ts })
  after_stop h (fault, ts) = (fault, record h { threads = ts })

  -- With the value of `ktmonitor_thread`.
  unfoldable pub exit_thread : Pointer → TaskMonitor → Result (Unit {0}) × TaskMonitor
  exit_thread null h = release_task h
  exit_thread error h = after_stop h (kthread_stop error h.threads)
  exit_thread (at m) h = after_stop h (kthread_stop (at m) h.threads)

  unfoldable pub tm_exit : TaskMonitor → Result (Unit {0}) × TaskMonitor
  tm_exit h = if h.err_set then (ok tt, h) else exit_thread h.ktmonitor_thread h
