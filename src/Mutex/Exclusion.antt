-- ===== src/Mutex/Exclusion.antt =====
-- Mutual exclusion: what one step of mutex.c does to the lock, and the invariant of all threads.
use utk.Prelude.{
  ==→eq, ==→ne, Bool, Bool-cases, Error, arith, false, inl, inr, is_no_err, no_err, not,
  not_initialized, refl, sym, true, ℕ, ◌%◌, ◌&&◌, ◌+◌, ◌<◌, ◌==◌, ◌^◌, ◌||◌, ◌≡◌, ◌≢◌,
}
use utk.Threads.{World, Reaches}
use utk.Threads.Exclusion.{
  Lock, Effect, taken, given_back, same, Effect-if, Locking, IsExclusive, Reaches-IsExclusive,
}
use utk.Mutex.Threads.{
  Calls, null_idle, null_finished, null_refused, destroy_finished, destroy_idle, lock_finished,
  lock_idle, lock_refused, mutex_program, start, unlock_held, unlock_kept,
}
use utk.Mutex.{
  Mutex, Point, Releasing, Reply, Taking, by_lock, by_thread, cas_failed, destroy_check,
  destroy_owner, destroy_step, destroy_store, destroy_wake, destroyed, elevation, exiting, finished,
  held, idle, in_use, is_recursive, kept, lock_cas, lock_check, lock_mark, lock_own, lock_params,
  lock_raise, lock_retry, lock_save, lock_sleep, lock_step, locked, locked_wait, no_elevation,
  reentered, refused, step, trying, unlock_add, unlock_check, unlock_ended, unlock_failed,
  unlock_forget, unlock_params, unlock_restore, unlock_step, unlock_store, unlock_wake, unlocked,
  waiting,
}

-- From the ATOMIC_CAS that took the lock to the write that gives it back.
unfoldable pub owns : Point → Bool
owns (lock_own p) = true
owns (lock_save p) = true
owns (lock_raise p) = true
owns held = true
owns (kept e) = true
owns (unlock_check w) = true
owns (unlock_params w) = true
owns (unlock_restore w) = true
owns (unlock_forget w) = true
owns (unlock_add w) = true
owns (unlock_store w) = true
owns _ = false

-- The lock is the state, free at MUTEX_STATE_UNLOCKED, and the state stays a number of 32 bits.
abbrev state_lock : Lock mutex_program
state_lock = record { owns = owns; Free = λ m. m.state ≡ unlocked; Valid = λ m. m.state < 2 ^ 32 }

abbrev MutexEffect : Mutex → Point → Mutex × Point → Type 0
MutexEffect = Effect mutex_program state_lock

-- Taking 1 from a 32-bit state other than 1 does not unlock.
decremented : (s : ℕ) → s < 2 ^ 32 → s ≢ 1 → (s + 4294967295) % 2 ^ 32 ≢ 0
decremented s small ne z = omega arith

unlock_ended-owns : (w : Releasing) (e : Error) → owns (unlock_ended w e) ≡ false
unfolding unlock_ended owns
unlock_ended-owns by_thread e = refl
unlock_ended-owns by_lock e = elim (Bool-cases (is_no_err e)) [
  | inl it ↦ rw it refl
  | inr other ↦ rw other refl
]

module _ (m : Mutex) (small : m.state < 2 ^ 32) where
  -- A step that leaves the state and moves between points that agree on owning the lock.
  stay : {pc pc' : Point} → owns pc' ≡ owns pc → MutexEffect m pc (m, pc')
  stay e = same e (λ z. z) small

  unlock_failed-Effect :
      (pc : Point) (w : Releasing) (e : Error)
      → owns pc ≡ true
      → MutexEffect m pc (m, unlock_failed w e)
  unfolding unlock_failed owns
  unlock_failed-Effect pc by_thread e own = stay (sym own)
  unlock_failed-Effect pc by_lock e own = given_back own refl small

  cas_failed-Effect :
      (c : Taking) (p : Reply) (state : ℕ) → MutexEffect m (lock_cas c p) (m, cas_failed c p state)
  unfolding cas_failed owns
  cas_failed-Effect waiting p state = stay refl
  cas_failed-Effect trying p state = stay refl

  still_locked : (s : ℕ) → 0 < s → s ≡ 0 → m.state ≡ 0
  still_locked s positive z = absurd (omega arith)

  -- One step either takes the lock from the unlocked state, or gives it back, or keeps owning as it
  -- was and does not unlock.
  step-Effect : (pc : Point) (r : Reply) → MutexEffect m pc (step m pc r)
  unfolding step lock_step unlock_step destroy_step owns
  step-Effect idle r = stay refl
  step-Effect (lock_check c) r =
      Effect-if (not (in_use m.state)) (λ _. stay refl)
        λ _.
          Effect-if (not (elevation m.flags == no_elevation) || is_recursive m.flags)
            (λ _. stay refl) (λ _. stay refl)
  step-Effect (lock_params c) r =
      Effect-if (not (is_no_err r.error)) (λ _. stay refl)
        λ _.
          Effect-if (is_recursive m.flags && r.tid == m.locker_tid) (λ _. stay refl)
            (λ _. stay refl)
  step-Effect (lock_cas c p) r =
      Effect-if (m.state == unlocked) (λ e. taken (==→eq m.state 0 e) (omega arith) (omega arith))
        (λ _. cas_failed-Effect c p m.state)
  step-Effect (lock_mark p mutex_state) r =
      Effect-if (mutex_state == locked_wait) (λ _. stay refl)
        λ _.
          Effect-if (m.state == locked)
            (λ _. same refl (still_locked locked_wait (omega arith)) (omega arith))
            λ _. Effect-if (m.state == unlocked) (λ _. stay refl) (λ _. stay refl)
  step-Effect (lock_sleep p) r = Effect-if (is_no_err r.error) (λ _. stay refl) (λ _. stay refl)
  step-Effect (lock_retry p) r =
      Effect-if (m.state == unlocked) (λ e. taken (==→eq m.state 0 e) (omega arith) (omega arith))
        λ _. Effect-if (in_use m.state) (λ _. stay refl) (λ _. stay refl)
  step-Effect (lock_own p) r = elim (Bool-cases (is_recursive m.flags)) [
    | inl it ↦ rw it (same refl (λ z. z) small)
    | inr other ↦ rw other (stay refl)
  ]
  step-Effect (lock_save p) r =
      Effect-if (elevation m.flags == no_elevation) (λ _. stay refl) (λ _. same refl (λ z. z) small)
  step-Effect (lock_raise p) r = Effect-if (is_no_err r.error) (λ _. stay refl) (λ _. stay refl)
  step-Effect held r = stay refl
  step-Effect reentered r = stay refl
  step-Effect (refused value) r = stay refl
  step-Effect (unlock_check w) r =
      Effect-if (not (in_use m.state)) (λ _. unlock_failed-Effect _ w not_initialized refl)
        λ _. Effect-if (not (elevation m.flags == no_elevation)) (λ _. stay refl) (λ _. stay refl)
  step-Effect (unlock_params w) r =
      Effect-if (is_no_err r.error) (λ _. stay refl) (λ _. unlock_failed-Effect _ w r.error refl)
  step-Effect (unlock_restore w) r =
      Effect-if (is_no_err r.error) (λ _. stay refl) (λ _. unlock_failed-Effect _ w r.error refl)
  step-Effect (unlock_forget w) r = same refl (λ z. z) small
  step-Effect (unlock_add w) r =
      Effect-if (m.state == locked)
        (λ _. given_back refl (unlock_ended-owns w no_err) (omega arith))
        (λ e.
          same refl (λ z. absurd (decremented m.state small (==→ne m.state 1 e) z)) (omega arith))
  step-Effect (unlock_store w) r = given_back refl refl (omega arith)
  step-Effect (unlock_wake w) r = stay (unlock_ended-owns w r.error)
  step-Effect (kept e) r = stay refl
  step-Effect destroy_check r = Effect-if (in_use m.state) (λ _. stay refl) (λ _. stay refl)
  step-Effect destroy_owner r = same refl (λ z. z) small
  step-Effect destroy_store r = same refl (still_locked destroyed (omega arith)) (omega arith)
  step-Effect destroy_wake r = stay refl
  step-Effect (finished e) r = stay refl
  step-Effect (exiting e) r = stay refl

Calls-owns : {pc pc' : Point} → Calls pc pc' → owns pc' ≡ owns pc
unfolding owns
Calls-owns (lock_idle c) = refl
Calls-owns (lock_finished e c) = refl
Calls-owns (lock_refused value c) = refl
Calls-owns unlock_held = refl
Calls-owns (unlock_kept e) = refl
Calls-owns null_idle = refl
Calls-owns (null_finished e) = refl
Calls-owns (null_refused value) = refl
Calls-owns destroy_idle = refl
Calls-owns (destroy_finished e) = refl

abbrev mutex_laws : Locking mutex_program
mutex_laws = record {
  lock = state_lock;
  step-Effect = λ m pc r small. step-Effect m small pc r;
  Calls-owns = λ pc pc' c. Calls-owns c;
}

start-IsExclusive :
    (m : Mutex) → m.state ≡ unlocked → IsExclusive mutex_program mutex_laws (start m)
unfolding owns
start-IsExclusive m z = record {
  valid = omega (arith, z);
  free = λ _ i. refl;
  alone = λ i j oi oj. absurd cc;
}

-- If a thread calls mutex_unlock only after mutex_lock or mutex_trylock took the lock for it, or
-- a mutex_unlock that failed left it the lock, and a thread that has the lock makes no other
-- call, then, whatever the order of the threads and the answers of the kernel, no two threads
-- own the lock of a mutex that began unlocked with every thread outside the code, and while the
-- state is unlocked none owns it. A recursive call that returns because its thread is the locker
-- is not followed any further, and a lock whose priority the kernel refused is not taken, though
-- mutex_lock returns no_err.
pub mutual_exclusion :
    (m : Mutex) (w : World mutex_program)
    → m.state ≡ unlocked
    → Reaches mutex_program (start m) w
    → ((i j : ℕ) → owns (w.threads i) ≡ true → owns (w.threads j) ≡ true → i ≡ j)
      × (w.shared.state ≡ unlocked → (i : ℕ) → owns (w.threads i) ≡ false)
mutual_exclusion m w free path =
    let is = Reaches-IsExclusive mutex_program mutex_laws path (start-IsExclusive m free) in
    (is.alone, is.free)
