-- ===== src/Mutex/RoundTrip.antt =====
-- mutex_lock and mutex_unlock by a thread that no other thread interrupts, with the system calls that
-- they make.
use utk.Prelude.{
  Bool-cases, List, [], ap, arith, false, if◌then◌else◌, inl, inr, is_no_err, no_err, refl, suc,
  true, ◌&&◌, ◌/◌, ◌==◌, ◌^◌, ◌||◌, ◌∙◌, ◌∷◌, ◌≡◌,
}
use utk.Mutex.{
  not, Bool, ℕ, unlock_restore, unlock_params, unlock_add, lock_cas, lock_params, unlock_forget,
  lock_raise, lock_own, lock_save, Syscall, sched_get_params, sched_set_params, request, unset,
  Mutex, Point, Reply, Taking, by_thread, elevation, finished, held, in_use, is_recursive,
  lock_check, lock_step, locked, no_elevation, step, unlock_check, unlock_ended, unlock_step,
  unlocked,
}
use utk.Mutex.Runs.{run_alone, quietly, asking, held_stays, finished_stays}

module _ (m : Mutex) (kernel : Syscall → Reply) where
  abbrev pub elevates : Bool
  elevates = not (elevation m.flags == no_elevation)

  abbrev pub params : Reply
  params = kernel sched_get_params

  -- The mutex that the thread has taken.
  abbrev pub taken : Mutex
  taken = record m {
    state = locked;
    locker_tid = if is_recursive m.flags then params.tid else m.locker_tid;
    acquired_thread_priority = if elevates then params.priority else m.acquired_thread_priority;
  }

  -- The system calls of mutex_lock, and those of mutex_unlock.
  abbrev pub calls_of_lock : List Syscall
  calls_of_lock =
      if elevates
      then sched_get_params ∷ sched_set_params (elevation m.flags / 2 ^ 8) ∷ []
      else if is_recursive m.flags
      then sched_get_params ∷ []
      else []

  abbrev pub calls_of_unlock : List Syscall
  calls_of_unlock =
      if elevates then sched_get_params ∷ sched_set_params params.priority ∷ [] else []

  -- From the lock to its owner.
  owning :
      (left : ℕ) (p : Reply) {calls : List Syscall} {m'' : Mutex} {pc'' : Point}
      → run_alone left kernel
          (if is_recursive m.flags
            then record m { state = locked; locker_tid = p.tid }
            else record m { state = locked })
          (lock_save p)
        ≡ (calls, m'', pc'')
      → run_alone (suc left) kernel (record m { state = locked }) (lock_own p) ≡ (calls, m'', pc'')
  unfolding request step lock_step
  owning left p = quietly kernel left _ (lock_own p) _ (lock_save p) refl refl

  saving :
      (left : ℕ) (n : Mutex) (p : Reply)
      → elevation n.flags ≡ elevation m.flags
      → ((call : Syscall) → is_no_err (kernel call).error ≡ true)
      → run_alone (suc (suc left)) kernel n (lock_save p) ≡ (
        if elevates then sched_set_params (elevation m.flags / 2 ^ 8) ∷ [] else [],
        record n {
          acquired_thread_priority = if elevates then p.priority else n.acquired_thread_priority;
        },
        held,
      )
  unfolding request step lock_step
  saving left n p same granted = elim (Bool-cases (elevation m.flags == no_elevation)) [
    | inl plain ↦ rw plain (
        quietly kernel (suc left) n (lock_save p) n held refl (rw (same, plain) refl)
          (held_stays (suc left) kernel n))
    | inr raised ↦
        let n' = record n { acquired_thread_priority = p.priority } in
        rw raised (
          quietly kernel (suc left) n (lock_save p) n' (lock_raise p) refl (rw (same, raised) refl)
            (asking kernel left n' (lock_raise p) n' held
              (sched_set_params (elevation m.flags / 2 ^ 8)) (rw same refl)
              (rw (granted (sched_set_params (elevation m.flags / 2 ^ 8))) refl)
              (held_stays left kernel n')))
  ]

  -- mutex_unlock of a mutex that is taken and on which nobody waits.
  releasing :
      (n : Mutex)
      → n.state ≡ locked
      → n.flags ≡ m.flags
      → ((call : Syscall) → is_no_err (kernel call).error ≡ true)
      → run_alone 5 kernel n (unlock_check by_thread) ≡ (
        if elevates
            then sched_get_params ∷ sched_set_params n.acquired_thread_priority ∷ []
            else [],
        record n { state = unlocked; locker_tid = 4294967295 },
        finished no_err,
      )
  unfolding request step lock_step unlock_step in_use unlock_ended
  releasing n owned same granted =
      let n' = record n { locker_tid = 4294967295 } in
      let n'' = record n' { state = unlocked } in
      let restore = sched_set_params n.acquired_thread_priority in
      elim (Bool-cases (elevation m.flags == no_elevation)) [
        | inl plain ↦ rw plain (
            quietly kernel 4 n (unlock_check by_thread) n (unlock_forget by_thread) refl
              (rw (owned, same, plain) refl)
              (quietly kernel 3 n (unlock_forget by_thread) n' (unlock_add by_thread) refl refl (
                quietly kernel 2 n' (unlock_add by_thread) n'' (finished no_err) refl
                  (rw owned refl) (finished_stays 2 kernel n''))))
        | inr raised ↦ rw raised (
            quietly kernel 4 n (unlock_check by_thread) n (unlock_params by_thread) refl
              (rw (owned, same, raised) refl)
              (asking kernel 3 n (unlock_params by_thread) n (unlock_restore by_thread)
                sched_get_params refl (rw (granted sched_get_params) refl)
                (asking kernel 2 n (unlock_restore by_thread) n (unlock_forget by_thread) restore
                  refl (rw (granted restore) refl)
                  (quietly kernel 1 n (unlock_forget by_thread) n' (unlock_add by_thread) refl refl
                    (quietly kernel 0 n' (unlock_add by_thread) n'' (finished no_err) refl
                      (rw owned refl) (finished_stays 0 kernel n''))))))
      ]

  -- The mutex behind lock_own.
  abbrev owned_by : Reply → Mutex
  owned_by p =
      if is_recursive m.flags
      then record m { state = locked; locker_tid = p.tid }
      else record m { state = locked }

  owned_by-elevation : (p : Reply) → elevation (owned_by p).flags ≡ elevation m.flags
  owned_by-elevation p = elim (Bool-cases (is_recursive m.flags)) [
    | inl again ↦ rw again refl
    | inr once ↦ rw once refl
  ]

  saved : Reply → Mutex
  saved p = record (owned_by p) {
    acquired_thread_priority =
        if elevates then p.priority else (owned_by p).acquired_thread_priority;
  }

  -- The reply is read only where the system call was made.
  saved-unset : (elevates || is_recursive m.flags) ≡ false → saved unset ≡ taken
  unfolding saved
  saved-unset plain = elim (Bool-cases (is_recursive m.flags)) [
    | inl again ↦ absurd (ground (arith, plain, again))
    | inr once ↦ elim (Bool-cases (elevation m.flags == no_elevation)) [
      | inl level ↦ rw (once, level) refl
      | inr raised ↦ absurd (ground (arith, plain, raised))
    ]
  ]

  saved-params : saved params ≡ taken
  unfolding saved
  saved-params = elim (Bool-cases (is_recursive m.flags)) [
    | inl again ↦ rw again refl
    | inr once ↦ rw once refl
  ]

  -- The system call that raises the priority.
  abbrev raise_call : List Syscall
  raise_call = if elevates then sched_set_params (elevation m.flags / 2 ^ 8) ∷ [] else []

  with_params :
      (elevates || is_recursive m.flags) ≡ true → sched_get_params ∷ raise_call ≡ calls_of_lock
  with_params asks = elim (Bool-cases (elevation m.flags == no_elevation)) [
    | inl level ↦
        let again : is_recursive m.flags ≡ true = ground (arith, asks, level) in
        rw (level, again) refl
    | inr raised ↦ rw raised refl
  ]

  without_params : (elevates || is_recursive m.flags) ≡ false → raise_call ≡ calls_of_lock
  without_params plain = elim (Bool-cases (elevation m.flags == no_elevation)) [
    | inl level ↦
        let once : is_recursive m.flags ≡ false = ground (arith, plain, level) in
        rw (level, once) refl
    | inr raised ↦ absurd (ground (arith, plain, raised))
  ]

  unlock_calls :
      (if elevates
        then sched_get_params ∷ sched_set_params taken.acquired_thread_priority ∷ []
        else [])
      ≡ calls_of_unlock
  unlock_calls = elim (Bool-cases (elevation m.flags == no_elevation)) [
    | inl level ↦ rw level refl
    | inr raised ↦ rw raised refl
  ]

  module _ (c : Taking) (free : m.state ≡ unlocked)
      (granted : (call : Syscall) → is_no_err (kernel call).error ≡ true) where
    taking :
        (left : ℕ) (p : Reply)
        → saved p ≡ taken
        → run_alone (suc (suc (suc (suc left)))) kernel m (lock_cas c p) ≡ (
          if elevates then sched_set_params (elevation m.flags / 2 ^ 8) ∷ [] else [],
          taken,
          held,
        )
    unfolding saved request step lock_step
    taking left p same =
        quietly kernel (suc (suc (suc left))) m (lock_cas c p) (record m { state = locked })
          (lock_own p) refl (rw free refl)
          (owning (suc (suc left)) p (
            saving left (owned_by p) p (owned_by-elevation p) granted
            ∙ ap (λ n. (raise_call, n, held)) same))

  -- Under a kernel that answers without an error, mutex_lock and mutex_trylock of a free mutex
  -- take it for a thread that no other interrupts and that is not the locker of a recursive one,
  -- in at most six steps, and mutex_unlock gives it back with no_err in at most five. The system
  -- calls are exactly these: the lock reads the parameters of the thread if the mutex is
  -- recursive or elevates priorities, and sets the priority if it elevates; the unlock of a
  -- mutex that elevates reads the parameters and sets the priority that the thread had at the
  -- lock. What is left is locker_tid, which is -1, and the saved priority.
  pub lock-unlock :
      (c : Taking)
      → m.state ≡ unlocked
      → ((call : Syscall) → is_no_err (kernel call).error ≡ true)
      → (is_recursive m.flags && params.tid == m.locker_tid) ≡ false
      → (run_alone 6 kernel m (lock_check c) ≡ (calls_of_lock, taken, held))
        × (run_alone 5 kernel taken (unlock_check by_thread) ≡ (
          calls_of_unlock,
          record taken { state = unlocked; locker_tid = 4294967295 },
          finished no_err,
        ))
  unfolding request step lock_step in_use
  lock-unlock c free granted new = (
    elim (Bool-cases (elevates || is_recursive m.flags)) [
      | inl asks ↦
          quietly kernel 5 m (lock_check c) m (lock_params c) refl (rw (free, asks) refl) (
            asking kernel 4 m (lock_params c) m (lock_cas c params) sched_get_params refl
              (rw (granted sched_get_params, new) refl)
              (taking c free granted 0 params saved-params))
          ∙ ap (λ calls. (calls, taken, held)) (with_params asks)
      | inr plain ↦
          quietly kernel 5 m (lock_check c) m (lock_cas c unset) refl (rw (free, plain) refl)
            (taking c free granted 1 unset (saved-unset plain))
          ∙ ap (λ calls. (calls, taken, held)) (without_params plain)
    ],
    releasing taken refl refl granted
        ∙ ap
            (λ calls.
              (calls, record taken { state = unlocked; locker_tid = 4294967295 }, finished no_err))
            unlock_calls,
  )
