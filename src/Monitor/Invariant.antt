-- ===== src/Monitor/Invariant.antt =====
-- What holds of the monitors whatever calls were made: a step relation and an invariant.
use pnl.Base.{
  ℕ, ◌≡◌, ◌≢◌, refl, ap, ◌∙◌, min, Bool, true, false, Option, none, some, List, [], ◌∷◌, ◌++◌, ◌==◌,
  arith, Bool-cases, inl, inr,
}
use pnl.Fs.{fault}
use pnl.Monitor.{
  Monitor, Monitors, Procs, add_process, count_all, find, monitor_round, new_monitor, read_command,
  release_taskmonitor, remove_process, save_sample, scan_all, scan_samples,
  shrink_scan_task_monitor, taskmonitor_debugfs_write, taskmonitor_shrink_count,
  taskmonitor_shrink_scan, write_command, take,
}
use pnl.Monitor.Sampled.{
  IsMonitor, done, save_sample-IsMonitor, shrink_scan-IsMonitor, count_excess-le,
}

-- Every monitor is one, and no process has two.
pub data IsList : Monitors → Type 0 where
  empty : IsList []
  more :
      {tm : Monitor} {tms : Monitors}
      → IsMonitor tm
      → find tm.pid tms ≡ false
      → IsList tms
      → IsList (tm ∷ tms)

-- A call that does not fault.
pub data Step : Monitors → Monitors → Type 0 where
  written :
      (kstrtouint : List ℕ → Option ℕ) (procs : Procs) (user_buf : List ℕ) (size : ℕ)
      {tms : Monitors}
      → (taskmonitor_debugfs_write kstrtouint procs user_buf size tms).0 ≢ fault
      → Step tms (taskmonitor_debugfs_write kstrtouint procs user_buf size tms).1
  sampled :
      (procs : Procs) {tms : Monitors}
      → (monitor_round procs tms).0 ≢ fault
      → Step tms (monitor_round procs tms).1
  counted : {tms : Monitors} → Step tms (taskmonitor_shrink_count tms).1
  scanned :
      (locked : Bool) (nr_scanned : ℕ) {tms : Monitors}
      → Step tms (taskmonitor_shrink_scan locked nr_scanned tms).1

-- The states that calls reach from the empty list of `tm_init`.
pub data IsReached : Monitors → Type 0 where
  start : IsReached []
  step : {tms tms' : Monitors} → IsReached tms → Step tms tms' → IsReached tms'

count_all-IsList :
    (tms : Monitors)
    → IsList tms
    → IsList (count_all tms).1 × ((pid : ℕ) → find pid (count_all tms).1 ≡ find pid tms)
unfolding count_all find
count_all-IsList [] empty = (empty, λ pid. refl)
count_all-IsList (tm ∷ tms) (more m new rest) =
    let later = count_all-IsList tms rest in
    (
      more
          (record {
            sampled = m.sampled;
            counted = m.counted;
            taken = m.taken;
            shrinks = count_excess-le tm;
          })
          (later.1 tm.pid ∙ new) later.0,
      λ pid. ground (arith, later.1 pid),
    )

scan_all-IsList :
    (tms : Monitors)
    → IsList tms
    → IsList (scan_all tms).1 × ((pid : ℕ) → find pid (scan_all tms).1 ≡ find pid tms)
unfolding scan_all find
scan_all-IsList [] empty = (empty, λ pid. refl)
scan_all-IsList (tm ∷ tms) (more m new rest) =
    let later = scan_all-IsList tms rest in
    (
      more (shrink_scan-IsMonitor tm m)
          (later.1 (shrink_scan_task_monitor tm).1.pid ∙ ap (λ pid. find pid tms) same ∙ new)
          later.0,
      λ pid. ground (arith, later.1 pid, same),
    )
  where
    same : (shrink_scan_task_monitor tm).1.pid ≡ tm.pid
    same =
        unfold shrink_scan_task_monitor in
        elim (Bool-cases (scan_samples tm.to_shrink 0 tm.samples).2) [
          | inl e ↦ rw e refl
          | inr e ↦ rw e refl
        ]

monitor_round-IsList :
    (procs : Procs) (tms : Monitors)
    → (monitor_round procs tms).0 ≢ fault
    → IsList tms
    → IsList (monitor_round procs tms).1
      × ((pid : ℕ) → find pid (monitor_round procs tms).1 ≡ find pid tms)
unfolding monitor_round find save_sample
monitor_round-IsList procs [] no_fault empty = (empty, λ pid. refl)
monitor_round-IsList procs (tm ∷ tms) no_fault (more m new rest) =
    elim (Bool-cases (procs.pid_alive tm.pid)) [
      | inl alive ↦
          let later = monitor_round-IsList procs tms (λ e. no_fault (rw alive e)) rest in
          rw alive (
            more (save_sample-IsMonitor procs tm m) (later.1 tm.pid ∙ new) later.0,
            λ pid. ground (arith, later.1 pid),
          )
      | inr dead ↦ absurd (no_fault (rw dead refl))
    ]

release-IsList :
    (pid : ℕ) (tms : Monitors)
    → IsList tms
    → IsList (release_taskmonitor pid tms)
      × ((q : ℕ) → find q tms ≡ false → find q (release_taskmonitor pid tms) ≡ false)
unfolding release_taskmonitor find
release-IsList pid [] empty = (empty, λ q h. h)
release-IsList pid (tm ∷ tms) (more m new rest) =
    let later = release-IsList pid tms rest in
    elim (Bool-cases (tm.pid == pid)) [
      | inl e ↦ rw e (rest, λ q h. ground (arith, h))
      | inr e ↦ rw e (more m (later.1 tm.pid new) later.0, λ q h. ground (arith, h, later.1 q))
    ]

new-IsList :
    (pid : ℕ) (tms : Monitors)
    → find pid tms ≡ false
    → IsList tms
    → IsList (tms ++ (new_monitor pid ∷ []))
      × ((q : ℕ) → find q tms ≡ false → q ≢ pid → find q (tms ++ (new_monitor pid ∷ [])) ≡ false)
unfolding find
new-IsList pid [] h empty = (
  more
      (record {
        sampled = done (omega arith);
        counted = omega arith;
        taken = omega arith;
        shrinks = omega arith;
      })
      refl empty,
  λ q e n. ground arith,
)
new-IsList pid (tm ∷ tms) h (more m new rest) =
    let later = new-IsList pid tms (ground (arith, h)) rest in
    (
      more m (later.1 tm.pid new (λ e. ground (arith, h))) later.0,
      λ q e n. ground (arith, e, later.1 q),
    )

add_process-IsList :
    (procs : Procs) (buf_size pid : ℕ) (tms : Monitors)
    → IsList tms
    → IsList (add_process procs buf_size pid tms).1
unfolding add_process
add_process-IsList procs buf_size pid tms l = elim (Bool-cases (find pid tms)) [
  | inl e ↦ rw e l
  | inr e ↦ rw e (elim (Bool-cases (procs.find_get_pid pid)) [
    | inl p ↦ rw p (elim (Bool-cases (procs.get_pid_task pid)) [
      | inl q ↦ rw q (new-IsList pid tms e l).0
      | inr q ↦ rw q l
    ])
    | inr p ↦ rw p l
  ])
]

remove_process-IsList :
    (buf_size pid : ℕ) (tms : Monitors) → IsList tms → IsList (remove_process buf_size pid tms).1
unfolding remove_process
remove_process-IsList buf_size pid tms l = elim (Bool-cases (find pid tms)) [
  | inl e ↦ rw e (release-IsList pid tms l).0
  | inr e ↦ rw e l
]

write_command-IsList :
    (procs : Procs) (remove : Bool) (buf_size : ℕ) (read : Option ℕ) (tms : Monitors)
    → IsList tms
    → IsList (write_command procs remove buf_size read tms).1
unfolding write_command
write_command-IsList procs true buf_size none tms l = l
write_command-IsList procs false buf_size none tms l = l
write_command-IsList procs true buf_size (some pid) tms l = remove_process-IsList buf_size pid tms l
write_command-IsList procs false buf_size (some pid) tms l =
    add_process-IsList procs buf_size pid tms l

read_command-IsList :
    (kstrtouint : List ℕ → Option ℕ) (procs : Procs) (buf_size : ℕ) (buf : List ℕ) (tms : Monitors)
    → IsList tms
    → IsList (read_command kstrtouint procs buf_size buf tms).1
unfolding read_command
read_command-IsList kstrtouint procs buf_size [] tms l =
    write_command-IsList procs false buf_size (kstrtouint []) tms l
read_command-IsList kstrtouint procs buf_size (c ∷ buf) tms l = elim (Bool-cases (c == 45)) [
  | inl e ↦ rw e (write_command-IsList procs true buf_size (kstrtouint buf) tms l)
  | inr e ↦ rw e (write_command-IsList procs false buf_size (kstrtouint (c ∷ buf)) tms l)
]

pub Step-IsList : {tms tms' : Monitors} → Step tms tms' → IsList tms → IsList tms'
unfolding taskmonitor_debugfs_write taskmonitor_shrink_count taskmonitor_shrink_scan
Step-IsList (written kstrtouint procs user_buf size {tms} h) l =
    read_command-IsList kstrtouint procs (min size 31) (take (min size 31) user_buf) tms l
Step-IsList (sampled procs {tms} h) l = (monitor_round-IsList procs tms h l).0
Step-IsList (counted {tms}) l = elim (Bool-cases ((count_all tms).0 == 0)) [
  | inl e ↦ rw e (count_all-IsList tms l).0
  | inr e ↦ rw e (count_all-IsList tms l).0
]
Step-IsList (scanned true nr_scanned {tms}) l = (scan_all-IsList tms l).0
Step-IsList (scanned false nr_scanned {tms}) l = l

-- Whatever calls were made, in any order and as long as none faults: no process has two monitors, and
-- every monitor has samples of its process with increasing numbers, at most as many as its counter
-- says, which is at most the number of samples that were taken and at least `to_shrink`.
pub IsReached-IsList : {tms : Monitors} → IsReached tms → IsList tms
IsReached-IsList start = empty
IsReached-IsList (step r s) = Step-IsList s (IsReached-IsList r)
