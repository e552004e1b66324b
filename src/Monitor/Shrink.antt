-- ===== src/Monitor/Shrink.antt =====
-- What the shrinker's two functions do to the samples.
use pnl.Base.{
  ℕ, ◌+◌, ◌-◌, ◌*◌, ◌≤◌, ◌≡◌, refl, ◌∙◌, true, [], ◌∷◌, ltb, ◌==◌, if◌then◌else◌, arith, Bool-cases,
  inl, inr, length,
}
use pnl.Monitor.{
  Monitor, Monitors, count_all, count_excess, page_size, sample_size, scan_all, scan_samples,
  shrink_scan_task_monitor, taskmonitor_shrink_count, taskmonitor_shrink_scan,
}
use pnl.Monitor.Invariant.{IsList, IsReached, IsReached-IsList}
use pnl.Monitor.Sampled.{scan_samples-length}

-- The number of all samples.
unfoldable pub total : Monitors → ℕ
total [] = 0
total (tm ∷ tms) = length tm.samples + total tms

-- The number of monitors with more samples than they are to lose.
unfoldable pub nr_longer : Monitors → ℕ
nr_longer [] = 0
nr_longer (tm ∷ tms) = (if ltb tm.to_shrink (length tm.samples) then 1 else 0) + nr_longer tms

-- Every monitor's samples fit a page.
pub data IsWithinPage : Monitors → Type 0 where
  empty : IsWithinPage []
  more :
      {tm : Monitor} {tms : Monitors}
      → length tm.samples * sample_size ≤ page_size
      → IsWithinPage tms
      → IsWithinPage (tm ∷ tms)

-- One monitor: what stays and what is reported.
one_lem :
    (tm : Monitor)
    → let scanned = shrink_scan_task_monitor tm in
      (length scanned.1.samples
          + scanned.0
          + (if ltb tm.to_shrink (length tm.samples) then 1 else 0)
        ≡ length tm.samples)
      × (length scanned.1.samples ≤ length tm.samples - tm.to_shrink - 1)
unfolding shrink_scan_task_monitor
one_lem tm =
    let sizes = scan_samples-length tm.to_shrink 0 tm.samples (omega arith) in
    elim (Bool-cases (scan_samples tm.to_shrink 0 tm.samples).2) [
      | inl early ↦ rw early (ground (arith, sizes.0 early), ground (arith, sizes.0 early))
      | inr late ↦ rw late (ground (arith, sizes.1 late), ground (arith, sizes.1 late))
    ]

scan_all-total :
    (tms : Monitors) → total (scan_all tms).1 + (scan_all tms).0 + nr_longer tms ≡ total tms
unfolding scan_all total nr_longer
scan_all-total [] = refl
scan_all-total (tm ∷ tms) = omega (arith, (one_lem tm).0, scan_all-total tms)

count_all-total : (tms : Monitors) → total (count_all tms).1 ≡ total tms
unfolding count_all total
count_all-total [] = refl
count_all-total (tm ∷ tms) = omega (arith, count_all-total tms)

fits_page :
    (tm : Monitor)
    → length tm.samples ≤ tm.count
    → length (shrink_scan_task_monitor (record tm { to_shrink = count_excess tm })).1.samples
        * sample_size
      ≤ page_size
unfolding count_excess
fits_page tm h = ground (arith, (one_lem (record tm { to_shrink = count_excess tm })).1)

count_scan-IsWithinPage :
    (tms : Monitors) → IsList tms → IsWithinPage (scan_all (count_all tms).1).1
unfolding scan_all count_all
count_scan-IsWithinPage [] l = empty
count_scan-IsWithinPage (tm ∷ tms) (IsList.more m new rest) =
    more (fits_page tm m.counted) (count_scan-IsWithinPage tms rest)

-- When the shrinker counts and then, with the mutex, scans, whatever calls were made before: the samples
-- of every process fit a page then, and the scan takes as many samples as it reports and one more from
-- every monitor that has more than it was to lose.
pub shrink_lem :
    (nr_scanned : ℕ) {tms : Monitors}
    → IsReached tms
    → let counted = (taskmonitor_shrink_count tms).1 in
      let (result, scanned) = taskmonitor_shrink_scan true nr_scanned counted in
      IsWithinPage scanned × (total scanned + result.0 + nr_longer counted ≡ total tms)
unfolding taskmonitor_shrink_count taskmonitor_shrink_scan
shrink_lem nr_scanned {tms} r =
    let within_page = count_scan-IsWithinPage tms (IsReached-IsList r) in
    let taken = scan_all-total (count_all tms).1 ∙ count_all-total tms in
    elim (Bool-cases ((count_all tms).0 == 0)) [
      | inl e ↦ rw e (within_page, taken)
      | inr e ↦ rw e (within_page, taken)
    ]
