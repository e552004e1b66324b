-- ===== src/Monitor/Sampled.antt =====
-- The samples of one monitor: what saving and shrinking keep.
use pnl.Base.{
  ℕ, ◌+◌, ◌-◌, ◌≤◌, ◌≡◌, refl, true, false, List, [], ◌∷◌, ◌++◌, leb, arith, Bool-cases, inl, inr,
  length,
}
use pnl.Monitor.{
  Monitor, Procs, Sample, count_excess, save_sample, scan_samples, shrink_scan_task_monitor,
}

-- Samples of one process with increasing numbers from `lo` on, below `hi`.
pub data IsSampled (pid hi : ℕ) : (lo : ℕ) → List Sample → Type 0 where
  done : {lo : ℕ} → lo ≤ hi → IsSampled pid hi lo []
  next :
      {lo : ℕ} {s : Sample} {samples : List Sample}
      → s.pid ≡ pid
      → lo ≤ s.num
      → IsSampled pid hi (s.num + 1) samples
      → IsSampled pid hi lo (s ∷ samples)

pub record IsMonitor (tm : Monitor) : Type 0 where
  pub sampled : IsSampled tm.pid tm.num 0 tm.samples
  pub counted : length tm.samples ≤ tm.count
  pub taken : tm.count ≤ tm.num
  pub shrinks : tm.to_shrink ≤ tm.count

IsSampled-append :
    (pid hi lo : ℕ) (samples : List Sample) (s : Sample)
    → s.pid ≡ pid
    → s.num ≡ hi
    → IsSampled pid hi lo samples
    → IsSampled pid (hi + 1) lo (samples ++ (s ∷ []))
IsSampled-append pid hi lo [] s own at (done le) =
    next own (omega (arith, at)) (done (omega (arith, at)))
IsSampled-append pid hi lo (x ∷ samples) s own at (next e le rest) =
    next e le (IsSampled-append pid hi (x.num + 1) samples s own at rest)

-- A later start is as good.
IsSampled-from :
    (pid hi lo lo' : ℕ) (samples : List Sample)
    → lo' ≤ lo
    → IsSampled pid hi lo samples
    → IsSampled pid hi lo' samples
IsSampled-from pid hi lo lo' [] le (done h) = done (omega arith)
IsSampled-from pid hi lo lo' (x ∷ samples) le (next e h rest) = next e (omega arith) rest

length-append :
    (samples : List Sample) (s : Sample) → length (samples ++ (s ∷ [])) ≡ length samples + 1
length-append [] s = refl
length-append (x ∷ samples) s = omega (arith, length-append samples s)

pub save_sample-IsMonitor :
    (procs : Procs) (tm : Monitor) → IsMonitor tm → IsMonitor (save_sample procs tm)
unfolding save_sample
save_sample-IsMonitor procs tm m = record {
  sampled = IsSampled-append tm.pid tm.num 0 tm.samples _ refl refl m.sampled;
  counted = omega (arith, m.counted, length-append tm.samples _);
  taken = omega (arith, m.taken);
  shrinks = omega (arith, m.shrinks);
}

-- What the scan of one monitor's samples leaves.
pub scan_samples_lem :
    (pid hi lo to_shrink cpt : ℕ) (samples : List Sample)
    → IsSampled pid hi lo samples
    → let (left, _, _) = scan_samples to_shrink cpt samples in IsSampled pid hi lo left
unfolding scan_samples
scan_samples_lem pid hi lo to_shrink cpt [] s = s
scan_samples_lem pid hi lo to_shrink cpt (x ∷ samples) (next e le rest) =
    elim (Bool-cases (leb to_shrink cpt)) [
      | inl early ↦ rw early (IsSampled-from pid hi (x.num + 1) lo samples (omega arith) rest)
      | inr late ↦ rw late (
          scan_samples_lem pid hi lo to_shrink (cpt + 1) samples
            (IsSampled-from pid hi (x.num + 1) lo samples (omega arith) rest))
    ]

-- How many samples the scan takes: one more than `to_shrink` if it is left early, and otherwise all.
pub scan_samples-length :
    (to_shrink cpt : ℕ) (samples : List Sample)
    → cpt ≤ to_shrink
    → let (left, cpt', early) = scan_samples to_shrink cpt samples in
      (early ≡ true → (length left + (to_shrink - cpt) + 1 ≡ length samples) × (cpt' ≡ to_shrink))
      × (early ≡ false
          → (length left ≡ 0) × (length samples ≤ to_shrink - cpt) × (cpt' ≡ cpt + length samples))
unfolding scan_samples
scan_samples-length to_shrink cpt [] le = (λ e. ground arith, λ e. (refl, omega arith, omega arith))
scan_samples-length to_shrink cpt (x ∷ samples) le = elim (Bool-cases (leb to_shrink cpt)) [
  | inl early ↦ rw early (λ e. (ground arith, ground arith), λ e. ground arith)
  | inr late ↦
      let rest = scan_samples-length to_shrink (cpt + 1) samples (ground arith) in
      rw late (
        λ e. (ground (arith, rest.0 e), (rest.0 e).1),
        λ e. ((rest.1 e).0, ground (arith, rest.1 e), ground (arith, rest.1 e)),
      )
]

pub shrink_scan-IsMonitor :
    (tm : Monitor) → IsMonitor tm → IsMonitor (shrink_scan_task_monitor tm).1
unfolding shrink_scan_task_monitor
shrink_scan-IsMonitor tm m =
    let sizes = scan_samples-length tm.to_shrink 0 tm.samples (omega arith) in
    let left = scan_samples_lem tm.pid tm.num 0 tm.to_shrink 0 tm.samples m.sampled in
    elim (Bool-cases (scan_samples tm.to_shrink 0 tm.samples).2) [
      | inl early ↦ rw early (record {
        sampled = left;
        counted = omega (arith, sizes.0 early, m.counted);
        taken = omega (arith, m.taken);
        shrinks = omega arith;
      })
      | inr late ↦ rw late (record {
        sampled = left;
        counted = omega (arith, sizes.1 late, m.counted);
        taken = m.taken;
        shrinks = m.shrinks;
      })
    ]

pub count_excess-le : (tm : Monitor) → count_excess tm ≤ tm.count
unfolding count_excess
count_excess-le tm = ground arith
