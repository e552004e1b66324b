-- ===== src/Tests/Threads.antt =====
-- The threads of a small kernel: it starts a thread 1 if there is none, and no other.
use pnl.Base.{ℕ, ◌≡◌, ◌⊎◌, inl, inr, refl, ap, Bool, true, false, if◌then◌else◌, update, Bool-cases}
use pnl.Fs.{Result, ok, fault}
use pnl.Kthread.{KthreadApi, Pointer, Threads, at, error, null}

abbrev pub run : Threads → Pointer × Threads
run ts = if ts 1 then (error, ts) else (at 1, update ts 1 true)

abbrev pub stop : Pointer → Threads → Result (Unit {0}) × Threads
stop null ts = (fault, ts)
stop error ts = (fault, ts)
stop (at m) ts = if ts m then (ok tt, update ts m false) else (fault, ts)

pub run_lem :
    (ts : Threads)
    → (run ts ≡ (error, ts)) ⊎ ((m : ℕ) × (ts m ≡ false) × (run ts ≡ (at m, update ts m true)))
run_lem ts = elim (Bool-cases (ts 1)) [
  | inl e ↦ inl (ap (λ b. if b then (error, ts) else (at 1, update ts 1 true)) e)
  | inr e ↦ inr (1, e, ap (λ b. if b then (error, ts) else (at 1, update ts 1 true)) e)
]

pub stop-returned : (m : ℕ) (ts : Threads) → ts m ≡ false → (stop (at m) ts).0 ≡ fault
stop-returned m ts e =
    ap
      (λ (b : Bool).
        let r : Result (Unit {0}) × Threads =
          if b then (ok tt, update ts m false) else (fault, ts) in
        r.0)
      e

instance abbrev pub kthread_api : KthreadApi
kthread_api = record {
  kthread_run = run;
  kthread_stop = stop;
  kthread_run_lem = run_lem;
  kthread_stop-running =
      λ m ts e. ap (λ b. if b then (ok tt, update ts m false) else (fault, ts)) e;
  kthread_stop-returned = stop-returned;
  kthread_stop-error = λ ts. refl;
}
