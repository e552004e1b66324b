-- ===== src/Tests/Monitors.antt =====
-- The theorems on the task monitor, applied to one that monitors the process 5.
use pnl.Base.{
  ℕ, ◌+◌, ◌*◌, ◌≤◌, ◌≡◌, ◌≢◌, refl, ap, Bool, true, false, Option, none, some, List, [], ◌∷◌, leb,
  ◌==◌, ◌||◌, if◌then◌else◌, arith,
}
use pnl.Fs.{Result, ok, err, fault}
use pnl.Monitor.{
  Monitors, Procs, Sample, find, monitor_fn, monitor_round, read_command, write_command,
  add_process, taskmonitor_debugfs_write, taskmonitor_shrink_count, taskmonitor_shrink_scan,
}
use pnl.Monitor.Invariant.{IsList, IsReached, Step}
use pnl.Monitor.Invariant.{IsReached-IsList}
use pnl.Monitor.Progress.{AllAlive, IsAdvanced, monitor_fn-advances}
use pnl.Monitor.Seq.{
  IsShown, ReadOutcome, Spaces, all_samples, seq_read, seq_read-all_samples, taskmonitor_seq_start,
}
use pnl.Kthread.{Threads}
use pnl.Monitor.Setup.{Calls}
use pnl.Tests.Threads.{kthread_api}
use pnl.Monitor.Shrink.{IsWithinPage, nr_longer, shrink_lem, total}

abbrev procs : Procs
procs = record {
  find_get_pid = λ pid. true;
  get_pid_task = λ pid. true;
  pid_alive = λ pid. true;
  utime = λ pid. pid * 100;
  stime = λ pid. pid * 10;
  mm = λ pid. pid;
}

-- One digit.
abbrev digit : List ℕ → Option ℕ
digit [] = none
digit (c ∷ rest) = if leb 48 c then some 5 else none

abbrev text : List ℕ
text = 53 ∷ []

abbrev monitored : Monitors
monitored = (taskmonitor_debugfs_write digit procs text 1 []).1

abbrev is_fault : {A : Type 0} → Result A → Bool
is_fault (ok a) = false
is_fault (err e) = false
is_fault fault = true

no_fault : (taskmonitor_debugfs_write digit procs text 1 []).0 ≢ fault
unfolding taskmonitor_debugfs_write read_command write_command add_process find
no_fault e = ground (arith, ap is_fault e)

round_works : (monitor_round procs monitored).0 ≢ fault
unfolding taskmonitor_debugfs_write read_command write_command add_process find monitor_round
round_works e = ground (arith, ap is_fault e)

reached : IsReached (monitor_round procs monitored).1
reached =
    IsReached.step
      (IsReached.step IsReached.start (Step.written digit procs text 1 {tms = []} no_fault))
      (Step.sampled procs {tms = monitored} round_works)

IsReached-IsList_example : IsList (monitor_round procs monitored).1
IsReached-IsList_example = IsReached-IsList reached

shrink_lem_example :
    let tms = (monitor_round procs monitored).1 in
    let counted = (taskmonitor_shrink_count tms).1 in
    let (result, scanned) = taskmonitor_shrink_scan true 7 counted in
    IsWithinPage scanned × (total scanned + result.0 + nr_longer counted ≡ total tms)
shrink_lem_example = shrink_lem 7 reached

abbrev sample : ℕ → ℕ → Sample
sample num pid = record { num = num; pid = pid; utime = 500; stime = 50; mm = pid }

abbrev shown : Monitors
shown =
    record { pid = 5; samples = sample 0 5 ∷ sample 1 5 ∷ []; count = 2; num = 2; to_shrink = 0 }
    ∷ record { pid = 9; samples = sample 0 9 ∷ []; count = 1; num = 1; to_shrink = 0 }
    ∷ []

shown-IsShown : IsShown shown
shown-IsShown = IsShown.more refl (IsShown.more refl IsShown.empty)

three_samples : total shown ≤ 3
unfolding total
three_samples = omega arith

-- The address spaces of the two processes.
abbrev spaces : Spaces
spaces m =
    if (m == 5) || (m == 9)
    then some (record { total_vm = 100; data_vm = 40; stack_vm = 33 })
    else none

seq_read-all_samples_example :
    ReadOutcome spaces (all_samples shown) (seq_read spaces 3 (taskmonitor_seq_start shown 0))
seq_read-all_samples_example = seq_read-all_samples spaces 3 shown shown-IsShown three_samples

shown-AllAlive : AllAlive procs shown
shown-AllAlive = AllAlive.one refl (AllAlive.one refl AllAlive.none)

monitor_fn-advances_example :
    ((monitor_fn (λ j. procs) 3 0 shown).0 ≡ ok tt)
    × IsAdvanced 3 shown (monitor_fn (λ j. procs) 3 0 shown).1
monitor_fn-advances_example = monitor_fn-advances (λ j. procs) 3 0 shown (λ j p q. shown-AllAlive)

-- There are no threads, and the debugfs file is an error pointer.
abbrev no_threads : Threads
no_threads m = false

abbrev calls : Calls
calls = record {
  sysfs_create_file = true;
  register_shrinker = true;
  taskmonitor_cache = true;
  taskmonitor_mempool = true;
  debugfs_create_file = some false;
  taskmonitor_cache_tm = true;
  taskmonitor_mempool_tm = true;
  kzalloc = true;
}
