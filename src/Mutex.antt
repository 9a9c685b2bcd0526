-- ===== src/Mutex.antt =====
-- The mutex of Kernel/Sources/lib/libapi/src/mutex.c, one access of shared memory or one system
-- call at a time. A thread stands at a point of the code; `step` is what it does there. The kernel's
-- answer to a system call is an argument, so that a wait on the futex may end at any time.
pub mod Threads
pub mod Exclusion
pub mod Alone
pub mod Runs
pub mod RoundTrip
pub mod Elevation
use Prim.Native.Nat.{bit_or}
use utk.Prelude.{
  Bool, Error, Option, false, forbidden_priority, if◌then◌else◌, is_no_err, ltb, no_err, none, not,
  not_initialized, null_pointer, some, true, ℕ, ◌%◌, ◌&&◌, ◌*◌, ◌+◌, ◌/◌, ◌==◌, ◌^◌, ◌||◌,
}

-- `mutex_t`; an `int32_t` is the number of its bits, so -1 is 2 ^ 32 - 1.
pub record Mutex : Type 0 where
  pub state : ℕ
  pub flags : ℕ
  pub acquired_thread_priority : ℕ
  pub locker_tid : ℕ
  pub owner : ℕ

-- What a system call fills in: `sched_param_t`, or the error of a `futex_t`.
pub record Reply : Type 0 where
  pub error : Error
  pub tid : ℕ
  pub priority : ℕ

pub data Syscall : Type 0 where
  sched_get_params : Syscall
  sched_set_params : (priority : ℕ) → Syscall
  futex_wait : (val : ℕ) → Syscall
  futex_wake : (val : ℕ) → Syscall

abbrev pub unlocked : ℕ
unlocked = 0

abbrev pub locked : ℕ
locked = 1

abbrev pub locked_wait : ℕ
locked_wait = 2

abbrev pub destroyed : ℕ
destroyed = 4

-- The test that every function begins with.
unfoldable pub in_use : ℕ → Bool
in_use state = state == unlocked || state == locked || state == locked_wait

-- MUTEX_PRIORITY_ELEVATION_NONE
abbrev pub no_elevation : ℕ
no_elevation = 65535

-- `(mutex->flags >> 8) & MUTEX_PRIORITY_ELEVATION_NONE`, the mask being that of the low 16 bits
unfoldable pub elevation : ℕ → ℕ
elevation flags = (flags / 2 ^ 8) % 2 ^ 16

-- `mutex->flags & MUTEX_FLAG_RECURSIVE`, the lowest bit
unfoldable pub is_recursive : ℕ → Bool
is_recursive flags = not (flags % 2 == 0)

-- The calls that take the lock: mutex_lock waits for it, mutex_trylock does not.
pub data Taking : Type 0 where
  waiting trying : Taking

-- Who called mutex_unlock: the thread, or mutex_lock when it could not change the priority.
pub data Releasing : Type 0 where
  by_thread by_lock : Releasing

-- The points of the code. The parameters come from SYSCALL_SCHED_GET_PARAMS; they are not read where
-- the call is not made.
pub data Point : Type 0 where
  idle : Point
  lock_check : Taking → Point
  lock_params : Taking → Point
  lock_cas : Taking → Reply → Point
  lock_mark : Reply → (mutex_state : ℕ) → Point
  lock_sleep : Reply → Point
  lock_retry : Reply → Point
  lock_own : Reply → Point
  lock_save : Reply → Point
  lock_raise : Reply → Point
  held : Point
  reentered : Point
  refused : (value : ℕ) → Point
  unlock_check : Releasing → Point
  unlock_params : Releasing → Point
  unlock_restore : Releasing → Point
  unlock_forget : Releasing → Point
  unlock_add : Releasing → Point
  unlock_store : Releasing → Point
  unlock_wake : Releasing → Point
  kept : Error → Point
  destroy_check : Point
  destroy_owner : Point
  destroy_store : Point
  destroy_wake : Point
  finished : Error → Point
  exiting : Error → Point

-- The system call of a point, with the value that the code passes.
pub request : Mutex → Point → Option Syscall
request m (lock_params c) = some sched_get_params
request m (lock_sleep p) = some (futex_wait locked_wait)
request m (lock_raise p) = some (sched_set_params (elevation m.flags / 2 ^ 8))
request m (unlock_params w) = some sched_get_params
request m (unlock_restore w) = some (sched_set_params m.acquired_thread_priority)
request m (unlock_wake w) = some (futex_wake 1)
request m destroy_wake = some (futex_wake 4294967295)
request m _ = none

abbrev set_state : Mutex → ℕ → Mutex
set_state m s = record m { state = s }

abbrev pub unset : Reply
unset = record { error = no_err; tid = 0; priority = 0 }

-- The failed ATOMIC_CAS of the two calls that take the lock.
pub cas_failed : Taking → Reply → ℕ → Point
cas_failed waiting p state = lock_mark p state
cas_failed trying p state = refused state

-- The end of mutex_unlock with the lock not given back.
pub unlock_failed : Releasing → Error → Point
unlock_failed by_thread e = kept e
unlock_failed by_lock e = exiting e

-- The end of mutex_unlock with the lock given back. mutex_lock, if it made the call, returns the
-- same error, or leaves the process.
pub unlock_ended : Releasing → Error → Point
unlock_ended by_thread e = finished e
unlock_ended by_lock e = if is_no_err e then finished no_err else exiting e

-- mutex_lock and mutex_trylock.
unfoldable pub lock_step : Mutex → Point → Reply → Mutex × Point
unfolding cas_failed
lock_step m (lock_check c) r =
    if not (in_use m.state)
    then (m, finished not_initialized)
    else if not (elevation m.flags == no_elevation) || is_recursive m.flags
    then (m, lock_params c)
    else (m, lock_cas c unset)
lock_step m (lock_params c) r =
    if not (is_no_err r.error)
    then (m, finished r.error)
    else if is_recursive m.flags && r.tid == m.locker_tid
    then (m, reentered)
    else (m, lock_cas c r)
lock_step m (lock_cas c p) r =
    if m.state == unlocked then (set_state m locked, lock_own p) else (m, cas_failed c p m.state)
lock_step m (lock_mark p mutex_state) r =
    if mutex_state == locked_wait
    then (m, lock_sleep p)
    else if m.state == locked
    then (set_state m locked_wait, lock_sleep p)
    else if m.state == unlocked
    then (m, lock_retry p)
    else (m, lock_sleep p)
lock_step m (lock_sleep p) r =
    if is_no_err r.error then (m, lock_retry p) else (m, finished r.error)
lock_step m (lock_retry p) r =
    if m.state == unlocked
    then (set_state m locked_wait, lock_own p)
    else if in_use m.state
    then (m, lock_mark p m.state)
    else (m, finished not_initialized)
lock_step m (lock_own p) r =
    ((if is_recursive m.flags then record m { locker_tid = p.tid } else m), lock_save p)
lock_step m (lock_save p) r =
    if elevation m.flags == no_elevation
    then (m, held)
    else (record m { acquired_thread_priority = p.priority }, lock_raise p)
lock_step m (lock_raise p) r = if is_no_err r.error then (m, held) else (m, unlock_check by_lock)
lock_step m pc r = (m, pc)

-- mutex_unlock
pub unlock_step : Mutex → Point → Reply → Mutex × Point
unfolding unlock_failed unlock_ended
unlock_step m (unlock_check w) r =
    if not (in_use m.state)
    then (m, unlock_failed w not_initialized)
    else if not (elevation m.flags == no_elevation)
    then (m, unlock_params w)
    else (m, unlock_forget w)
unlock_step m (unlock_params w) r =
    if is_no_err r.error then (m, unlock_restore w) else (m, unlock_failed w r.error)
unlock_step m (unlock_restore w) r =
    if is_no_err r.error then (m, unlock_forget w) else (m, unlock_failed w r.error)
unlock_step m (unlock_forget w) r = (record m { locker_tid = 4294967295 }, unlock_add w)
unlock_step m (unlock_add w) r =
    if m.state == locked
    then (set_state m unlocked, unlock_ended w no_err)
    else (set_state m ((m.state + 4294967295) % 2 ^ 32), unlock_store w)
unlock_step m (unlock_store w) r = (set_state m unlocked, unlock_wake w)
unlock_step m (unlock_wake w) r = (m, unlock_ended w r.error)
unlock_step m pc r = (m, pc)

-- mutex_destroy
pub destroy_step : Mutex → Point → Reply → Mutex × Point
destroy_step m destroy_check r =
    if in_use m.state then (m, destroy_owner) else (m, finished not_initialized)
destroy_step m destroy_owner r = (record m { owner = 4294967295 }, destroy_store)
destroy_step m destroy_store r = (set_state m destroyed, destroy_wake)
destroy_step m destroy_wake r = (m, finished r.error)
destroy_step m pc r = (m, pc)

abbrev pub in_unlock : Point → Bool
in_unlock (unlock_check w) = true
in_unlock (unlock_params w) = true
in_unlock (unlock_restore w) = true
in_unlock (unlock_forget w) = true
in_unlock (unlock_add w) = true
in_unlock (unlock_store w) = true
in_unlock (unlock_wake w) = true
in_unlock _ = false

abbrev pub in_destroy : Point → Bool
in_destroy destroy_check = true
in_destroy destroy_owner = true
in_destroy destroy_store = true
in_destroy destroy_wake = true
in_destroy _ = false

-- What a thread does at its point; outside the three functions nothing.
unfoldable pub step : Mutex → Point → Reply → Mutex × Point
step m pc r =
    if in_unlock pc
    then unlock_step m pc r
    else if in_destroy pc
    then destroy_step m pc r
    else lock_step m pc r

-- KERNEL_LOWEST_PRIORITY
abbrev lowest_priority : ℕ
lowest_priority = 63

-- mutex_init; none is a NULL mutex, the reply is that of SYSCALL_SCHED_GET_PARAMS.
unfoldable pub mutex_init : Option Mutex → (flags priority : ℕ) → Reply → Error × Option Mutex
mutex_init none flags priority r = (null_pointer, none)
mutex_init (some m) flags priority r =
    let cleared : Mutex = record {
      state = 0;
      flags = bit_or flags (priority * 2 ^ 8);
      acquired_thread_priority = 0;
      locker_tid = 0;
      owner = 0;
    } in
    if ltb lowest_priority priority && not (priority == no_elevation)
    then (forbidden_priority, some m)
    else if is_no_err r.error
    then (no_err, some (record cleared { state = unlocked; owner = r.tid }))
    else (r.error, some cleared)
