-- ===== src/Tests/Mutexes.antt =====
-- mutex.c on a free mutex: two threads that take it, and a thread alone.
use utk.Mutex.Runs.{run_alone}
use utk.Prelude.{
  [], arith, false, forbidden_priority, no_err, refl, some, true, ℕ, ◌*◌, ◌^◌, ◌∷◌, ◌≡◌,
}
use utk.Mutex.{
  sched_get_params, Mutex, Point, Reply, by_thread, elevation, finished, held, in_use, is_recursive,
  lock_check, lock_raise, lock_step, locked, locked_wait, mutex_init, request, sched_set_params,
  step, trying, unlock_check, unlocked, waiting,
}
use utk.Threads.{World, Reaches, moved, call, run, here, later}
use utk.Mutex.Threads.{lock_idle, mutex_program, start}
use utk.Mutex.Exclusion.{owns, mutual_exclusion}
use utk.Mutex.RoundTrip.{taken, lock-unlock}
use utk.Mutex.Elevation.{mutex_init-request}

abbrev plain_mutex : Mutex
plain_mutex = record {
  state = 0;
  flags = 16776960;
  acquired_thread_priority = 0;
  locker_tid = 0;
  owner = 0;
}

abbrev done : Reply
done = record { error = no_err; tid = 7; priority = 20 }

abbrev refusing : Reply
refusing = record { error = forbidden_priority; tid = 7; priority = 20 }

abbrev calling : World mutex_program → ℕ → Point → World mutex_program
calling w i pc = record { shared = w.shared; threads = moved w.threads i pc }

abbrev running : World mutex_program → ℕ → World mutex_program
running w i =
    let r = step w.shared (w.threads i) done in
    record { shared = r.0; threads = moved w.threads i (r.1) }

-- Thread 1 has called mutex_lock and is past its ATOMIC_CAS; thread 2 has called mutex_trylock.
abbrev contended : World mutex_program
contended =
    running
      (running (calling (calling (start plain_mutex) 1 (lock_check waiting)) 2 (lock_check trying))
        1)
      1

contended-Reaches : Reaches mutex_program (start plain_mutex) contended
contended-Reaches =
    let w0 = start plain_mutex in
    let w1 = calling w0 1 (lock_check waiting) in
    let w2 = calling w1 2 (lock_check trying) in
    let w3 = running w2 1 in
    later w0 w3 (running w3 1)
      (later w0 w2 w3
        (later w0 w1 w2 (later w0 w0 w1 (here w0) (call w0 1 _ (lock_idle waiting)))
          (call w1 2 _ (lock_idle trying)))
        (run w2 1 done))
      (run w3 1 done)

thread_one_owns : owns (contended.threads 1) ≡ true
unfolding owns step lock_step in_use elevation is_recursive
thread_one_owns = refl

mutual_exclusion_example :
    ((i j : ℕ) → owns (contended.threads i) ≡ true → owns (contended.threads j) ≡ true → i ≡ j)
    × (contended.shared.state ≡ unlocked → (i : ℕ) → owns (contended.threads i) ≡ false)
mutual_exclusion_example = mutual_exclusion plain_mutex contended refl contended-Reaches

abbrev taken_mutex : Mutex
taken_mutex = record plain_mutex { state = locked_wait }

abbrev elevating : Mutex
elevating = record plain_mutex { flags = 5 * 2 ^ 8 }

-- Under a kernel that always answers `done`, the elevating mutex asks for the priority 0 and gives
-- back the priority 20 that the thread had.
lock-unlock_example :
    (run_alone 6 (λ call. done) elevating (lock_check waiting) ≡ (
      sched_get_params ∷ sched_set_params 0 ∷ [],
      record elevating { state = locked; acquired_thread_priority = 20 },
      held,
    ))
    × (run_alone 5 (λ call. done) (taken elevating (λ call. done)) (unlock_check by_thread) ≡ (
      sched_get_params ∷ sched_set_params 20 ∷ [],
      record elevating { locker_tid = 4294967295; acquired_thread_priority = 20 },
      finished no_err,
    ))
unfolding elevation is_recursive
lock-unlock_example = lock-unlock elevating (λ call. done) waiting refl (λ call. refl) refl

made_mutex :
    mutex_init (some plain_mutex) 0 5 done ≡ (no_err, some (record elevating { owner = 7 }))
unfolding mutex_init
made_mutex = refl

mutex_init-request_example :
    request (record elevating { owner = 7 }) (lock_raise done) ≡ some (sched_set_params 0)
mutex_init-request_example =
    mutex_init-request plain_mutex (record elevating { owner = 7 }) 0 5 done done (omega arith)
      (omega arith) made_mutex
