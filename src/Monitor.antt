-- ===== src/Monitor.antt =====
-- labs/6/harena/task_monitor.c: a kernel module that samples the running times of processes. A thread
-- takes a sample of every monitored process, a file of debugfs adds and removes processes and shows
-- the samples, and a shrinker gives the oldest samples back. Each handler runs as a whole. Reference
-- counts are 1 between the calls, so that putting one releases the object. The counters of samples
-- are natural numbers: memory is exhausted before one of them wraps. The header with the structs is not
-- in the folder; they have the fields that the code uses.
pub mod Command
pub mod Invariant
pub mod Progress
pub mod Sampled
pub mod Seq
pub mod Setup
pub mod Shrink
use pnl.Base.{
  ℕ, zero, suc, ◌+◌, ◌-◌, ◌*◌, ◌/◌, ◌%◌, ◌^◌, min, Bool, true, false, Option, none, some, List, [],
  ◌∷◌, ◌++◌, ltb, leb, ◌==◌, ◌||◌, if◌then◌else◌, not,
}
use pnl.Fs.{Result, ok, err, fault, einval}

-- struct task_sample; `mm` stands for the address space that the sample points to.
pub record Sample : Type 0 where
  pub num : ℕ
  pub pid : ℕ
  pub utime : ℕ
  pub stime : ℕ
  pub mm : ℕ

-- struct task_monitor, with the pid of `ts_monitored` and the list `head`
pub record Monitor : Type 0 where
  pub pid : ℕ
  pub samples : List Sample
  pub count : ℕ
  pub num : ℕ
  pub to_shrink : ℕ

-- What the kernel knows of the processes at a call: `find_get_pid`, `get_pid_task` and `pid_alive`
-- succeed or not, and the fields of a `task_struct`.
pub record Procs : Type 0 where
  pub find_get_pid : ℕ → Bool
  pub get_pid_task : ℕ → Bool
  pub pid_alive : ℕ → Bool
  pub utime : ℕ → ℕ
  pub stime : ℕ → ℕ
  pub mm : ℕ → ℕ

-- The list `head_taskmonitor`.
abbrev pub Monitors : Type 0
Monitors = List Monitor

abbrev pub take : ℕ → List ℕ → List ℕ
take zero s = []
take (suc n) [] = []
take (suc n) (c ∷ s) = c ∷ take n s

-- The loop over the monitors in `taskmonitor_debugfs_write`.
unfoldable pub find : ℕ → Monitors → Bool
find pid [] = false
find pid (tm ∷ rest) = let later = find pid rest in if tm.pid == pid then true else later

-- `release_taskmonitor` of the monitor that the loop found
unfoldable pub release_taskmonitor : ℕ → Monitors → Monitors
release_taskmonitor pid [] = []
release_taskmonitor pid (tm ∷ rest) =
    let later = release_taskmonitor pid rest in if tm.pid == pid then rest else tm ∷ later

abbrev pub new_monitor : ℕ → Monitor
new_monitor pid = record { pid = pid; samples = []; count = 0; num = 0; to_shrink = 0 }

unfoldable pub remove_process : (buf_size pid : ℕ) → Monitors → Result ℕ × Monitors
remove_process buf_size pid tms =
    if not (find pid tms) then (err einval, tms) else (ok buf_size, release_taskmonitor pid tms)

-- The error paths put a reference count that was never set.
unfoldable pub add_process : Procs → (buf_size pid : ℕ) → Monitors → Result ℕ × Monitors
add_process procs buf_size pid tms =
    if find pid tms
    then (ok buf_size, tms)
    else if not (procs.find_get_pid pid)
    then (fault, tms)
    else if not (procs.get_pid_task pid)
    then (fault, tms)
    else (ok buf_size, tms ++ (new_monitor pid ∷ []))

-- `kstrtouint` is the kernel's reading of a number. With what it makes of the text.
unfoldable pub write_command :
    Procs → (remove : Bool) (buf_size : ℕ) → Option ℕ → Monitors → Result ℕ × Monitors
write_command procs remove buf_size none tms = (err einval, tms)
write_command procs true buf_size (some pid) tms = remove_process buf_size pid tms
write_command procs false buf_size (some pid) tms = add_process procs buf_size pid tms

-- `user_buf` is the text up to its end; `buf` has room for 31 characters, and 45 is '-'.
unfoldable pub read_command :
    (kstrtouint : List ℕ → Option ℕ)
    → Procs
    → (buf_size : ℕ) → List ℕ
    → Monitors
    → Result ℕ × Monitors
read_command kstrtouint procs buf_size [] = write_command procs false buf_size (kstrtouint [])
read_command kstrtouint procs buf_size (c ∷ buf) =
    if c == 45
    then write_command procs true buf_size (kstrtouint buf)
    else write_command procs false buf_size (kstrtouint (c ∷ buf))

unfoldable pub taskmonitor_debugfs_write :
    (kstrtouint : List ℕ → Option ℕ)
    → Procs
    → (user_buf : List ℕ) (size : ℕ) → Monitors
    → Result ℕ × Monitors
taskmonitor_debugfs_write kstrtouint procs user_buf size =
    let buf_size = min size 31 in read_command kstrtouint procs buf_size (take buf_size user_buf)

-- `save_sample` of a process that is alive.
unfoldable pub save_sample : Procs → Monitor → Monitor
save_sample procs tm =
    let new : Sample = record {
      num = tm.num;
      pid = tm.pid;
      utime = procs.utime tm.pid;
      stime = procs.stime tm.pid;
      mm = procs.mm tm.pid;
    } in
    record tm { samples = tm.samples ++ (new ∷ []); count = tm.count + 1; num = tm.num + 1 }

-- One round of `monitor_fn`. For a process that is not alive `save_sample` releases the monitor, and
-- the loop goes on from its memory.
unfoldable pub monitor_round : Procs → Monitors → Result (Unit {0}) × Monitors
monitor_round procs [] = (ok tt, [])
monitor_round procs (tm ∷ tms) =
    let rest = monitor_round procs tms in
    if procs.pid_alive tm.pid then (rest.0, save_sample procs tm ∷ rest.1) else (fault, tms)

-- With what a round left, and the later rounds.
unfoldable pub after_round :
    Result (Unit {0}) × Monitors → Result (Unit {0}) × Monitors → Result (Unit {0}) × Monitors
after_round (ok u, tms) rest = rest
after_round (err e, tms) rest = (err e, tms)
after_round (fault, tms) rest = (fault, tms)

-- `monitor_fn` for `n` rounds until the thread is to stop; `procs` is what the kernel knows at the
-- round `i` and at the later ones.
unfoldable pub monitor_fn : (ℕ → Procs) → (n i : ℕ) → Monitors → Result (Unit {0}) × Monitors
monitor_fn procs zero i tms = (ok tt, tms)
monitor_fn procs (suc n) i tms =
    let round = monitor_round (procs i) tms in
    let rest = monitor_fn procs n (i + 1) round.1 in after_round round rest

-- SIZE and PAGE_SIZE
abbrev pub sample_size : ℕ
sample_size = 40

abbrev pub page_size : ℕ
page_size = 4096

-- `count`
unfoldable pub count_excess : Monitor → ℕ
count_excess tm =
    if ltb (tm.count * sample_size) page_size
    then 0
    else (tm.count * sample_size - page_size) / sample_size

-- The loop of `taskmonitor_shrink_count`: the sum, and the monitors with `to_shrink` set.
unfoldable pub count_all : Monitors → ℕ × Monitors
count_all [] = (0, [])
count_all (tm ∷ tms) =
    let tmp = count_excess tm in
    let rest = count_all tms in (tmp + rest.0, record tm { to_shrink = tmp } ∷ rest.1)

-- SHRINK_STOP and SHRINK_EMPTY
abbrev pub shrink_stop : ℕ
shrink_stop = 2 ^ 64 - 1

abbrev pub shrink_empty : ℕ
shrink_empty = 2 ^ 64 - 2

unfoldable pub taskmonitor_shrink_count : Monitors → ℕ × Monitors
taskmonitor_shrink_count tms =
    let counted = count_all tms in if counted.0 == 0 then (shrink_empty, counted.1) else counted

-- The loop of `shrink_scan_task_monitor`: the samples that stay, `cpt`, and whether it was left early.
unfoldable pub scan_samples : (to_shrink cpt : ℕ) → List Sample → List Sample × ℕ × Bool
scan_samples to_shrink cpt [] = ([], cpt, false)
scan_samples to_shrink cpt (it ∷ samples) =
    let rest = scan_samples to_shrink (cpt + 1) samples in
    if leb to_shrink cpt then (samples, cpt, true) else rest

unfoldable pub shrink_scan_task_monitor : Monitor → ℕ × Monitor
shrink_scan_task_monitor tm =
    let (samples, cpt, left_early) = scan_samples tm.to_shrink 0 tm.samples in
    if left_early
    then (cpt, record tm { samples = samples; count = tm.count - tm.to_shrink; to_shrink = 0 })
    else (cpt, record tm { samples = samples })

unfoldable pub scan_all : Monitors → ℕ × Monitors
scan_all [] = (0, [])
scan_all (tm ∷ tms) =
    let scanned = shrink_scan_task_monitor tm in
    let rest = scan_all tms in (scanned.0 + rest.0, scanned.1 ∷ rest.1)

-- `locked` says whether the mutex could be taken. The result is `cpt` and the new `nr_scanned`.
unfoldable pub taskmonitor_shrink_scan :
    (locked : Bool) (nr_scanned : ℕ) → Monitors → (ℕ × ℕ) × Monitors
taskmonitor_shrink_scan locked nr_scanned tms =
    let scanned = scan_all tms in
    if not locked
    then ((shrink_stop, nr_scanned), tms)
    else ((scanned.0, (nr_scanned + 2 ^ 64 - scanned.0) % 2 ^ 64), scanned.1)
