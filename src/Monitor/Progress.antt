-- ===== src/Monitor/Progress.antt =====
-- The thread of the task monitor makes progress: each of its rounds samples every process.
use pnl.Base.{
  ℕ, zero, suc, ◌+◌, ◌≤◌, ◌<◌, ◌≡◌, subst, refl, ap, ◌∙◌, true, List, [], ◌∷◌, ◌++◌, length, arith,
}
use pnl.Fs.{ok}
use pnl.Monitor.{
  Monitor, Monitors, Procs, Sample, monitor_round, save_sample, monitor_fn, after_round,
}

-- Samples of the process `pid`, numbered on from `from`.
pub data IsNumbered (pid : ℕ) : (from : ℕ) → List Sample → Type 0 where
  none : {from : ℕ} → IsNumbered pid from []
  next :
      {from : ℕ} {s : Sample} {samples : List Sample}
      → s.pid ≡ pid
      → s.num ≡ from
      → IsNumbered pid (from + 1) samples
      → IsNumbered pid from (s ∷ samples)

IsNumbered-append :
    (pid from : ℕ) (a b : List Sample)
    → IsNumbered pid from a
    → IsNumbered pid (from + length a) b
    → IsNumbered pid from (a ++ b)
IsNumbered-append pid from [] b none q = subst (λ m. IsNumbered pid m b) (omega arith) q
IsNumbered-append pid from (x ∷ a) b (next e h p) q =
    next e h
      (IsNumbered-append pid (from + 1) a b p (subst (λ m. IsNumbered pid m b) (omega arith) q))

-- The same processes are monitored in the same order, and each has `n` samples more than before, with
-- the old ones in front; the new ones are of the process, and numbered on.
pub data IsAdvanced (n : ℕ) : Monitors → Monitors → Type 0 where
  none : IsAdvanced n [] []
  one :
      {tm tm' : Monitor} {tms tms' : Monitors} (new : List Sample)
      → tm'.pid ≡ tm.pid
      → tm'.samples ≡ tm.samples ++ new
      → length new ≡ n
      → IsNumbered tm.pid tm.num new
      → tm'.num ≡ tm.num + n
      → tm'.count ≡ tm.count + n
      → IsAdvanced n tms tms'
      → IsAdvanced n (tm ∷ tms) (tm' ∷ tms')

-- The processes of all monitors are alive.
pub data AllAlive (procs : Procs) : Monitors → Type 0 where
  none : AllAlive procs []
  one :
      {tm : Monitor} {tms : Monitors}
      → procs.pid_alive tm.pid ≡ true
      → AllAlive procs tms
      → AllAlive procs (tm ∷ tms)

append_assoc : (a b c : List Sample) → (a ++ b) ++ c ≡ a ++ (b ++ c)
append_assoc [] b c = refl
append_assoc (x ∷ a) b c = ap (λ l. x ∷ l) (append_assoc a b c)

append_none : (a : List Sample) → a ≡ a ++ []
append_none [] = refl
append_none (x ∷ a) = ap (λ l. x ∷ l) (append_none a)

length-append_list : (a b : List Sample) → length (a ++ b) ≡ length a + length b
length-append_list [] b = omega arith
length-append_list (x ∷ a) b = omega (arith, length-append_list a b)

IsAdvanced-refl : (tms : Monitors) → IsAdvanced 0 tms tms
IsAdvanced-refl [] = none
IsAdvanced-refl (tm ∷ tms) =
    one [] refl (append_none tm.samples) refl none (omega arith) (omega arith) (IsAdvanced-refl tms)

IsAdvanced-trans :
    (m n : ℕ) (a b c : Monitors) → IsAdvanced m a b → IsAdvanced n b c → IsAdvanced (m + n) a c
IsAdvanced-trans m n [] [] [] none none = none
IsAdvanced-trans m n [] [] (z ∷ c) p q = elim q [ ]
IsAdvanced-trans m n [] (y ∷ b) c p q = elim p [ ]
IsAdvanced-trans m n (x ∷ a) [] c p q = elim p [ ]
IsAdvanced-trans m n (x ∷ a) (y ∷ b) [] p q = elim q [ ]
IsAdvanced-trans m n (x ∷ a) (y ∷ b) (z ∷ c) (one s p e l u k q r) (one s' p' e' l' u' k' q' r') =
    one (s ++ s') (p' ∙ p) (e' ∙ ap (λ t. t ++ s') e ∙ append_assoc x.samples s s')
      (omega (arith, length-append_list s s', l, l'))
      (IsNumbered-append x.pid x.num s s' u (
        subst (λ a. IsNumbered a (x.num + length s) s') p
          (subst (λ m. IsNumbered y.pid m s') (omega (arith, k, l)) u')))
      (omega (arith, k, k')) (omega (arith, q, q')) (IsAdvanced-trans m n a b c r r')

-- The processes are the same, so that they are alive, too.
AllAlive-advanced :
    (procs : Procs) (n : ℕ) (a b : Monitors)
    → IsAdvanced n a b
    → AllAlive procs a
    → AllAlive procs b
AllAlive-advanced procs n [] [] none none = none
AllAlive-advanced procs n [] (y ∷ b) p h = elim p [ ]
AllAlive-advanced procs n (x ∷ a) [] p h = elim p [ ]
AllAlive-advanced procs n (x ∷ a) (y ∷ b) (one s p e l u k q r) (one h rest) =
    one (ap procs.pid_alive p ∙ h) (AllAlive-advanced procs n a b r rest)

monitor_round-IsAdvanced :
    (procs : Procs) (tms : Monitors)
    → AllAlive procs tms
    → ((monitor_round procs tms).0 ≡ ok tt) × IsAdvanced 1 tms (monitor_round procs tms).1
unfolding monitor_round save_sample
monitor_round-IsAdvanced procs [] none = (refl, none)
monitor_round-IsAdvanced procs (tm ∷ tms) (one h rest) =
    let r = monitor_round-IsAdvanced procs tms rest in
    rw h (r.0, one _ refl refl refl (next refl refl none) refl refl r.1)

monitor_fn-round :
    (procs : ℕ → Procs) (n i : ℕ) (tms : Monitors)
    → (monitor_round (procs i) tms).0 ≡ ok tt
    → monitor_fn procs (suc n) i tms ≡ monitor_fn procs n (i + 1) (monitor_round (procs i) tms).1
unfolding monitor_fn after_round
monitor_fn-round procs n i tms e =
    ap (λ r. after_round r (monitor_fn procs n (i + 1) (monitor_round (procs i) tms).1)) shape
  where
    shape : monitor_round (procs i) tms ≡ (ok tt, (monitor_round (procs i) tms).1)
    shape = ap (λ a. (a, (monitor_round (procs i) tms).1)) e

monitor_fn-none :
    (procs : ℕ → Procs) (i : ℕ) (tms : Monitors) → monitor_fn procs 0 i tms ≡ (ok tt, tms)
unfolding monitor_fn
monitor_fn-none procs i tms = refl

-- If the processes of all monitors are alive in the `n` rounds from the round `i` on, the thread does
-- not fault in them, and then every process that was monitored still is, with `n` samples more, which are
-- its own and numbered on from those before.
pub monitor_fn-advances :
    (procs : ℕ → Procs) (n i : ℕ) (tms : Monitors)
    → ((j : ℕ) → i ≤ j → j < i + n → AllAlive (procs j) tms)
    → ((monitor_fn procs n i tms).0 ≡ ok tt) × IsAdvanced n tms (monitor_fn procs n i tms).1
monitor_fn-advances procs zero i tms alive =
    rw (monitor_fn-none procs i tms) (refl, IsAdvanced-refl tms)
monitor_fn-advances procs (suc n) i tms alive =
    let first = monitor_round-IsAdvanced (procs i) tms (alive i (omega arith) (omega arith)) in
    let rest = monitor_fn-advances procs n (i + 1) (monitor_round (procs i) tms).1 (λ j p q.
      AllAlive-advanced (procs j) 1 tms (monitor_round (procs i) tms).1 first.1
        (alive j (omega arith) (omega arith))) in
    rw (monitor_fn-round procs n i tms first.0) (
      rest.0,
      subst (λ m. IsAdvanced m tms (monitor_fn procs n (i + 1) (monitor_round (procs i) tms).1).1)
          (omega arith)
          (IsAdvanced-trans 1 n tms (monitor_round (procs i) tms).1
            (monitor_fn procs n (i + 1) (monitor_round (procs i) tms).1).1 first.1 rest.1),
    )
