-- ===== src/Taskmonitor/Load.antt =====
-- Loading the task monitor of lab 5 when something is missing.
use pnl.Base.{◌≡◌, true, false, arith, ◌&&◌}
use pnl.Fs.{ok, fault}
use pnl.Kthread.{KthreadApi, Threads, null}
use pnl.Taskmonitor.{
  TaskMonitor, Loading, positive_einval, tm_init, tm_exit, exit_thread, release_task,
}

-- The variables of the module before it is loaded.
abbrev pub unloaded : Threads → TaskMonitor
unloaded ts = record {
  p = false;
  ts = false;
  ktmonitor_thread = null;
  err_set = false;
  t_sample = record { utime = 0; stime = 0 };
  sysfs_file = false;
  threads = ts;
}

module _ ⦃kthreads : KthreadApi⦄ where
  -- `tm_init` returns 0 if nothing is missing, and otherwise a positive number, with which the kernel
  -- loads the module all the same. In that case no file and no thread is left; unloading the module
  -- works if the pid or its task was missing, and faults if the sysfs file could not be made.
  pub exit-failed :
      (l : Loading) (ts : Threads)
      → let r = tm_init l (unloaded ts) in
        (r.0 ≡ 0 → l.sysfs_works && l.pid_found && l.task_found ≡ true)
        × (l.sysfs_works && l.pid_found && l.task_found ≡ false
            → (r.0 ≡ positive_einval)
              × (r.1.sysfs_file ≡ false)
              × (r.1.threads ≡ ts)
              × (l.sysfs_works ≡ true → (tm_exit r.1).0 ≡ ok tt)
              × (l.sysfs_works ≡ false → (tm_exit r.1).0 ≡ fault))
  unfolding tm_init tm_exit exit_thread release_task
  exit-failed l ts = (
    λ e. ground (arith, e),
    λ e. (
      ground (arith, e),
      ground (arith, e),
      ground (arith, e),
      λ w. ground (arith, e, w),
      λ w. ground (arith, e, w),
    ),
  )
