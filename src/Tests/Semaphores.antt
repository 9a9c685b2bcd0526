-- ===== src/Tests/Semaphores.antt =====
-- semaphore.c with one unit, which a thread takes.
use utk.Prelude.{arith, false, no_err, refl, true, ℕ, ◌+◌, ◌≡◌}
use utk.Threads.{World, Reaches, moved, call, run, here, later}
use utk.Semaphore.{Semaphore, checked, idle, is_positive, pend_check, pend_step, sem_step, spin}
use utk.Semaphore.Threads.{call_pend, idle_outside, sem_program, start}
use utk.Semaphore.Spinlock.{inside, spinlock_exclusion}
use utk.Semaphore.Balance.{took, gave, taken_units, given_units, sem_balance}

abbrev one_unit : Semaphore
one_unit = record { level = 1; waiters = 0; lock = 0; init = true }

abbrev running : World sem_program → ℕ → World sem_program
running w i =
    let r = sem_step w.shared (w.threads i) no_err in
    record { shared = r.0; threads = moved w.threads i (r.1) }

abbrev outside : World sem_program
outside = start one_unit

-- Thread 3 has called sem_pend.
abbrev pending : World sem_program
pending = record { shared = one_unit; threads = moved outside.threads 3 pend_check }

abbrev testing : World sem_program
testing = running (running pending 3) 3

abbrev testing-Reaches : Reaches sem_program outside testing
testing-Reaches =
    let called =
      later outside outside pending (here outside)
        (call outside 3 pend_check (call_pend idle idle_outside)) in
    let past_check = running pending 3 in
    later outside past_check testing
      (later outside pending past_check called (run pending 3 no_err)) (run past_check 3 no_err)

abbrev served : World sem_program
served = running testing 3

abbrev served-Reaches : Reaches sem_program outside served
served-Reaches = later outside testing served testing-Reaches (run testing 3 no_err)

spinlock_exclusion_example :
    ((i j : ℕ) → inside (testing.threads i) ≡ true → inside (testing.threads j) ≡ true → i ≡ j)
    × (testing.shared.lock ≡ 0 → (i : ℕ) → inside (testing.threads i) ≡ false)
spinlock_exclusion_example = spinlock_exclusion one_unit testing refl testing-Reaches

sem_balance_example :
    served.shared.level + taken_units served-Reaches ≡ 1 + given_units served-Reaches
unfolding taken_units given_units took gave sem_step pend_step checked spin is_positive
sem_balance_example = sem_balance outside served served-Reaches refl (omega arith)

unit_taken : taken_units served-Reaches ≡ 1
unfolding taken_units took sem_step pend_step checked spin is_positive
unit_taken = refl
