-- ===== src/Monitor/Seq.antt =====
-- The functions of labs/6/harena/task_monitor.c that the kernel's seq_file calls to show the samples, and
-- a reader that calls them as documented: start, then show and next until there is nothing left.
use pnl.Base.{
  ℕ, zero, suc, ◌+◌, ◌≤◌, ◌≡◌, refl, ap, Option, none, some, List, [], ◌∷◌, ◌++◌, arith, length,
}
use pnl.Fs.{Result, ok, err, fault}
use pnl.Monitor.{Monitor, Monitors, Sample}
use pnl.Monitor.Shrink.{total}

-- `v` and the samples behind it, which are none if `v` is the head of the list itself, and the monitors
-- behind `lh_task_monitor`.
pub record Cursor : Type 0 where
  pub here : List Sample
  pub later : Monitors

unfoldable pub taskmonitor_seq_start : Monitors → (pos : ℕ) → Option Cursor
taskmonitor_seq_start [] pos = none
taskmonitor_seq_start (tm ∷ tms) zero = some (record { here = tm.samples; later = tms })
taskmonitor_seq_start (tm ∷ tms) (suc pos) = taskmonitor_seq_start tms pos

-- At the end of a monitor's samples: the next monitor.
unfoldable pub next_monitor : Monitors → Option Cursor
next_monitor [] = none
next_monitor (tm ∷ tms) = some (record { here = tm.samples; later = tms })

unfoldable pub seq_next_from : List Sample → Monitors → Option Cursor
seq_next_from [] later = next_monitor later
seq_next_from (s ∷ []) later = next_monitor later
seq_next_from (s ∷ next ∷ rest) later = some (record { here = next ∷ rest; later = later })

abbrev pub taskmonitor_seq_next : Cursor → Option Cursor
taskmonitor_seq_next v = seq_next_from v.here v.later

-- What is printed of a sample: its fields, and the sizes in the address space that it points to.
pub record MmStruct : Type 0 where
  pub total_vm : ℕ
  pub data_vm : ℕ
  pub stack_vm : ℕ

-- The memory of the kernel: the address space at a pointer, which is none for NULL, the pointer of a
-- kernel thread, and once the space was released after the end of the process.
abbrev pub Spaces : Type 0
Spaces = ℕ → Option MmStruct

-- The line of a sample, without the format.
abbrev pub Line : Type 0
Line = Sample × MmStruct

unfoldable pub show_line : Sample → Option MmStruct → Result Line
show_line s none = fault
show_line s (some mm) = ok (s, mm)

-- The sample that is printed; the head of a list is no sample.
unfoldable pub seq_show_first : Spaces → List Sample → Result Line
seq_show_first spaces [] = fault
seq_show_first spaces (s ∷ rest) = show_line s (spaces s.mm)

abbrev pub taskmonitor_seq_show : Spaces → Cursor → Result Line
taskmonitor_seq_show spaces v = seq_show_first spaces v.here

abbrev pub shown_first : Result Line → Result (List Line) → Result (List Line)
shown_first (ok s) (ok rest) = ok (s ∷ rest)
shown_first (ok s) (err e) = err e
shown_first (ok s) fault = fault
shown_first (err e) rest = err e
shown_first fault rest = fault

-- What a reader that gets `k` results sees.
unfoldable pub seq_read : Spaces → ℕ → Option Cursor → Result (List Line)
seq_read spaces k none = ok []
seq_read spaces zero (some v) = fault
seq_read spaces (suc k) (some v) =
    let rest = seq_read spaces k (taskmonitor_seq_next v) in
    shown_first (taskmonitor_seq_show spaces v) rest

-- All samples, one monitor after the other.
unfoldable pub all_samples : Monitors → List Sample
all_samples [] = []
all_samples (tm ∷ tms) = tm.samples ++ all_samples tms

-- Every monitor has a sample.
pub data IsShown : Monitors → Type 0 where
  empty : IsShown []
  more :
      {tm : Monitor} {tms : Monitors} {s : Sample} {rest : List Sample}
      → tm.samples ≡ s ∷ rest
      → IsShown tms
      → IsShown (tm ∷ tms)

-- What showing the samples in their order gives: a line for each, with the address space that it
-- points to, or a fault if one of them points to none.
pub data ReadOutcome (spaces : Spaces) : List Sample → Result (List Line) → Type 0 where
  done : ReadOutcome spaces [] (ok [])
  more :
      {s : Sample} {mm : MmStruct} {samples : List Sample} {lines : List Line}
      → spaces s.mm ≡ some mm
      → ReadOutcome spaces samples (ok lines)
      → ReadOutcome spaces (s ∷ samples) (ok ((s, mm) ∷ lines))
  gone :
      {s : Sample} {samples : List Sample}
      → spaces s.mm ≡ none
      → ReadOutcome spaces (s ∷ samples) fault
  later :
      {s : Sample} {samples : List Sample}
      → ReadOutcome spaces samples fault
      → ReadOutcome spaces (s ∷ samples) fault

-- A line in front.
line-ReadOutcome :
    (spaces : Spaces) (s : Sample) (mm : MmStruct)
    → spaces s.mm ≡ some mm
    → (samples : List Sample) (r : Result (List Line)) → ReadOutcome spaces samples r
    → ReadOutcome spaces (s ∷ samples) (shown_first (ok (s, mm)) r)
line-ReadOutcome spaces s mm e samples (ok lines) o = more e o
line-ReadOutcome spaces s mm e samples fault o = later o
line-ReadOutcome spaces s mm e [] (err x) o = elim o [ ]
line-ReadOutcome spaces s mm e (x ∷ samples) (err y) o = elim o [ ]

-- One sample in front.
shown_first-ReadOutcome :
    (spaces : Spaces) (s : Sample) (samples : List Sample) (r : Result (List Line))
    → ReadOutcome spaces samples r
    → ReadOutcome spaces (s ∷ samples) (shown_first (show_line s (spaces s.mm)) r)
unfolding show_line
shown_first-ReadOutcome spaces s samples r o =
    elim (spaces s.mm)
        as (λ m.
          spaces s.mm ≡ m → ReadOutcome spaces (s ∷ samples) (shown_first (show_line s m) r)) [
            | none ↦ λ e. gone e
            | some mm ↦ λ e. line-ReadOutcome spaces s mm e samples r o
          ]
      refl

seq_read-from :
    (spaces : Spaces) (k : ℕ) (s : Sample) (rest : List Sample) (later : Monitors)
    → length (s ∷ rest) + total later ≤ k
    → IsShown later
    → ReadOutcome spaces
        (s ∷ rest ++ all_samples later)
        (seq_read spaces k (some (record { here = s ∷ rest; later = later })))
unfolding seq_read seq_next_from seq_show_first next_monitor all_samples total
seq_read-from spaces zero s rest tms h shown = absurd (omega arith)
seq_read-from spaces (suc zero) s [] [] h empty = shown_first-ReadOutcome spaces s [] (ok []) done
seq_read-from spaces (suc (suc k)) s [] [] h empty =
    shown_first-ReadOutcome spaces s [] (ok []) done
seq_read-from spaces (suc k) s [] (tm ∷ tms) h (more {s = x} {rest = xs} e shown) = rw e (
    shown_first-ReadOutcome spaces s (x ∷ xs ++ all_samples tms) _
      (seq_read-from spaces k x xs tms (omega (arith, ap length e)) shown))
seq_read-from spaces (suc k) s (next ∷ rest) tms h shown =
    shown_first-ReadOutcome spaces s (next ∷ rest ++ all_samples tms) _
      (seq_read-from spaces k next rest tms (omega arith) shown)

-- If every monitor has a sample, and the reader gets as many results as there are samples, what it
-- sees is what showing the samples of all monitors gives, one monitor after the other: a line for
-- each, with the address space that it points to, or a fault if one of them points to none.
pub seq_read-all_samples :
    (spaces : Spaces) (k : ℕ) (tms : Monitors)
    → IsShown tms
    → total tms ≤ k
    → ReadOutcome spaces (all_samples tms) (seq_read spaces k (taskmonitor_seq_start tms 0))
unfolding taskmonitor_seq_start seq_read all_samples total
seq_read-all_samples spaces k [] empty h = done
seq_read-all_samples spaces k (tm ∷ tms) (more {s = x} {rest = xs} e shown) h =
    rw e (seq_read-from spaces k x xs tms (omega (arith, ap length e)) shown)
