-- ===== src/Kthread.antt =====
-- linux/kthread.h: the threads of the kernel, which the task monitors start and stop.
use pnl.Base.{ℕ, ◌≡◌, ◌⊎◌, Bool, true, false, update}
use pnl.Fs.{Result, ok, fault}

-- A pointer to a thread: NULL, an error pointer, or one to a thread.
pub data Pointer : Type 0 where
  null : Pointer
  error : Pointer
  at : ℕ → Pointer

-- The threads whose functions have not returned.
abbrev pub Threads : Type 0
Threads = ℕ → Bool

-- `kthread_run` returns an error pointer or a new thread. `kthread_stop` waits for the function of
-- the thread to return; a thread that returned has been released, as a caller holds no reference to
-- it, and neither such a thread nor an error pointer can be stopped.
pub record KthreadApi : Type 0 where
  pub kthread_run : Threads → Pointer × Threads
  pub kthread_stop : Pointer → Threads → Result (Unit {0}) × Threads
  pub kthread_run_lem :
      (ts : Threads)
      → (kthread_run ts ≡ (error, ts))
        ⊎ ((m : ℕ) × (ts m ≡ false) × (kthread_run ts ≡ (at m, update ts m true)))
  pub kthread_stop-running :
      (m : ℕ) (ts : Threads) → ts m ≡ true → kthread_stop (at m) ts ≡ (ok tt, update ts m false)
  pub kthread_stop-returned :
      (m : ℕ) (ts : Threads) → ts m ≡ false → (kthread_stop (at m) ts).0 ≡ fault
  pub kthread_stop-error : (ts : Threads) → (kthread_stop error ts).0 ≡ fault
