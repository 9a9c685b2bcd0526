-- ===== src/Threads.antt =====
-- Any number of threads that share memory, one access at a time, as libapi's mutex.c and
-- semaphore.c are run by the scheduler: any thread may go next, whenever it likes.
pub mod Exclusion
use utk.Prelude.{if◌then◌else◌, ℕ, ◌==◌}

-- Code that threads run: `step` is what a thread does at a point of the code, `Calls` says which
-- calls a thread makes that stands outside of it. The kernel's answer to a system call is an
-- argument of the step.
pub record Program : Type 1 where
  pub Shared : Type 0
  pub Point : Type 0
  pub Reply : Type 0
  pub step : Shared → Point → Reply → Shared × Point
  pub Calls : Point → Point → Type 0

abbrev pub moved {ℓ} : {A : Type ℓ} → (ℕ → A) → ℕ → A → ℕ → A
moved threads i pc j = if j == i then pc else threads j

module _ (p : Program) where
  open p use {Shared, Point, Reply, step, Calls}

  pub record World : Type 0 where
    pub shared : Shared
    pub threads : ℕ → Point

  -- One thread makes a call or goes one step on; the kernel answers what it likes.
  pub data Step : World → World → Type 0 where
    call :
        (w : World) (i : ℕ) (pc : Point)
        → Calls (w.threads i) pc
        → Step w (record { shared = w.shared; threads = moved w.threads i pc })
    run :
        (w : World) (i : ℕ) (r : Reply)
        → Step w (record {
          shared = (step w.shared (w.threads i) r).0;
          threads = moved w.threads i ((step w.shared (w.threads i) r).1);
        })

  pub data Reaches : World → World → Type 0 where
    here : (w : World) → Reaches w w
    later : (u v w : World) → Reaches u v → Step v w → Reaches u w
