-- ===== src/Tests/Labs.antt =====
-- The theorems on loading the file system and on the other modules, applied.
use pnl.Base.{
  ℕ, ◌+◌, ◌^◌, ◌≤◌, ◌<◌, ◌≡◌, ◌≢◌, ◌⊎◌, refl, ap, sym, ◌∙◌, true, false, Option, none, some, List,
  [], ◌∷◌, length, arith, ◌==◌, if◌then◌else◌,
}
use pnl.Fs.{Errno, ok, err, fault}
use pnl.Kthread.{Threads, at, error}
use pnl.Monitor.Command.{Snprintf, start_text, stop_text}
use pnl.Register.{Chrdevs, Device, LoadApi, Module, exit-init, ouichefs_exit, ouichefs_init}
use pnl.Taskmonitor.{Process, TaskMonitor, monitor_fn_round, store_cmd_thread, tm_exit, tm_init}
use pnl.Taskmonitor.Load.{unloaded}
use pnl.Taskmonitor.Thread.{IsReached, IsReached-safe, IsUnloaded, Step, dead-faults}
use pnl.Tests.Threads.{kthread_api}
use pnl.Weasel.{
  Dcache, Dentry, count_dentries, dcache_show, nr_buckets, weasel_dcache_show, weasel_pwd_show,
}
use pnl.Weasel.Show.{IsNegatives, dcache_show-shift, dentries, weasel_show_lem}

-- One major number, 250.
abbrev pick : Option Device → Option ℕ
pick none = some 250
pick (some d) = none

same_major : (m n : ℕ) → some m ≡ some n → m ≡ n
same_major m n e = ground arith

pick-none : (t : Chrdevs) (m : ℕ) (o : Option Device) → t 250 ≡ o → pick o ≡ some m → t m ≡ none
pick-none t m none p e = ap t (sym (same_major 250 m e)) ∙ p
pick-none t m (some d) p e = absurd (ground arith)

instance abbrev load_api : LoadApi
load_api = record {
  cache_works = true;
  register_filesystem = none;
  free_major = λ t. pick (t 250);
  free_major_lem = λ t m e. pick-none t m (t 250) refl e;
}

abbrev unloaded_module : Module
unloaded_module = record {
  ouichefs_inode_cache = false;
  file_system_type = false;
  chrdevs = λ m. none;
  fileinfo_major = none;
  defrag_major = none;
}

exit-init_example :
    ((e : Errno) × (ouichefs_init unloaded_module ≡ (err e, unloaded_module)))
    ⊎ ((ouichefs_init unloaded_module).0 ≡ ok tt)
      × ((ouichefs_init unloaded_module).1.ouichefs_inode_cache ≡ true)
      × ((ouichefs_init unloaded_module).1.file_system_type ≡ true)
      × ((ouichefs_exit (ouichefs_init unloaded_module).1).ouichefs_inode_cache ≡ false)
      × ((ouichefs_exit (ouichefs_init unloaded_module).1).file_system_type ≡ false)
      × ((ouichefs_exit (ouichefs_init unloaded_module).1).chrdevs ≡ unloaded_module.chrdevs)
exit-init_example = exit-init unloaded_module refl

-- Two buckets, with one dentry that has an inode and two that have none.
abbrev table : Dcache
table = record {
  d_hash_shift = 31;
  bucket = λ i.
      record { path = 97 ∷ []; d_inode = (if i == 0 then some 3 else none) }
      ∷ (if i == 0 then record { path = 98 ∷ []; d_inode = none } ∷ [] else []);
}

weasel_show_lem_example :
    let all = dentries table (nr_buckets table) 0 in
    (weasel_dcache_show table ≡ ok all)
    × ((l : List Dentry) × (weasel_pwd_show table ≡ ok l) × IsNegatives all l)
    × ((longest : ℕ) × (count_dentries table ≡ ok (length all, longest))
        × ((j : ℕ) → j < nr_buckets table → length (table.bucket j) ≤ longest)
        × ((j : ℕ) × (j < nr_buckets table) × (length (table.bucket j) ≡ longest)))
weasel_show_lem_example = weasel_show_lem table (omega arith) (omega arith)

dcache_show-shift_example :
    (16 < 31 → dcache_show table ≡ fault)
    × (31 ≤ 16 → dcache_show table ≡ ok (dentries table (2 ^ 31) 0))
dcache_show-shift_example = dcache_show-shift table (omega arith) (omega arith)

-- `snprintf` of a text without a format; 37 is '%'.
abbrev print : Snprintf
print n [] = some ([], 0)
print n (c ∷ s) = if c == 37 then none else some (c ∷ s, length (c ∷ s))

abbrev no_threads : Threads
no_threads m = false

abbrev loaded : TaskMonitor
loaded =
    (tm_init (record { sysfs_works = true; pid_found = true; task_found = true })
      (unloaded no_threads)).1

abbrev alive : Process
alive = record { pid_alive = true; sample = record { utime = 7; stime = 2 } }

abbrev ended : Process
ended = record alive { pid_alive = false }

loaded-IsReached : IsReached loaded
loaded-IsReached = IsReached.start (unloaded no_threads) refl

sampled-IsReached : IsReached (monitor_fn_round alive 1 loaded)
sampled-IsReached = IsReached.step loaded-IsReached (Step.sampled alive 1 {h = loaded} refl)

IsReached-safe_example :
    let h = monitor_fn_round alive 1 loaded in
    ((m : ℕ) → h.ktmonitor_thread ≡ at m → h.threads m ≡ true)
    × (h.ktmonitor_thread ≢ error
        → ((snprintf : Snprintf) (buf : List ℕ) (count : ℕ) (cmd : List ℕ) (cpy : ℕ)
            → snprintf (count + 1) buf ≡ some (cmd, cpy)
            → length cmd + 1 ≤ 100
            → (store_cmd_thread snprintf buf count h).0 ≡ ok cpy)
          × IsUnloaded h (tm_exit h))
    × (h.ktmonitor_thread ≡ error → (tm_exit h).0 ≡ fault)
IsReached-safe_example = IsReached-safe sampled-IsReached

thread_on : loaded.ktmonitor_thread ≡ at 1
unfolding tm_init
thread_on = refl

dead-faults_example :
    let dead = monitor_fn_round ended 1 loaded in
    (dead.threads 1 ≡ false)
    × (print 5 stop_text ≡ some (start_text, 4)
        → store_cmd_thread print stop_text 4 dead ≡ (ok 4, dead))
    × (print 5 stop_text ≡ some (stop_text, 4)
        → (store_cmd_thread print stop_text 4 dead).0 ≡ fault)
    × ((tm_exit dead).0 ≡ fault)
dead-faults_example = dead-faults loaded 1 ended print stop_text 4 4 loaded-IsReached thread_on refl
