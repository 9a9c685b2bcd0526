-- ===== src/Semaphore.antt =====
-- The semaphore of Kernel/Sources/lib/libapi/src/semaphore.c. `level` and `waiters` are read and
-- written only between SPINLOCK_LOCK and SPINLOCK_UNLOCK, so a step is a check of `init`, an attempt
-- at the spinlock, what is done under it, or a system call with the kernel's answer.
pub mod Threads
pub mod Spinlock
pub mod Balance
use utk.Prelude.{
  Bool, Error, Option, false, if◌then◌else◌, is_no_err, ltb, no_err, none, not, not_initialized,
  null_pointer, some, true, ℕ, ◌%◌, ◌&&◌, ◌+◌, ◌==◌, ◌^◌,
}

-- `semaphore_t`; an `int32_t` is the number of its bits.
pub record Semaphore : Type 0 where
  pub level : ℕ
  pub waiters : ℕ
  pub lock : ℕ
  pub init : Bool

-- The points of the code. A call that returns with the semaphore taken ends at `acquired`, with what
-- sem_trypend gives back as `value`.
pub data Point : Type 0 where
  idle : Point
  pend_check pend_spin pend_test : Point
  pend_sleep : (val : ℕ) → Point
  pend_respin : Error → Point
  pend_woken : Error → Point
  post_check post_spin post_raise post_wake : Point
  try_check try_spin try_test : Point
  destroy_check destroy_spin destroy_close : Point
  destroy_wake : (val : ℕ) → Point
  acquired : (value : ℕ) → Point
  refused : (value : ℕ) → Point
  finished : Error → Point

-- `0 < n` of an `int32_t`
unfoldable pub is_positive : ℕ → Bool
is_positive n = ltb 0 n && ltb n (2 ^ 31)

abbrev pub plus_one : ℕ → ℕ
plus_one n = (n + 1) % 2 ^ 32

abbrev pub minus_one : ℕ → ℕ
minus_one n = (n + 4294967295) % 2 ^ 32

abbrev pub open_lock : Semaphore → Semaphore
open_lock s = record s { lock = 0 }

-- The check that every call begins with.
unfoldable pub checked : Semaphore → Point → Semaphore × Point
checked s pc = if s.init then (s, pc) else (s, finished not_initialized)

-- SPINLOCK_LOCK: the thread goes on once it has set the lock.
unfoldable pub spin : Semaphore → (here next : Point) → Semaphore × Point
spin s here next = if s.lock == 0 then (record s { lock = 1 }, next) else (s, here)

-- sem_pend; the loop comes back to `pend_test` with the spinlock set.
unfoldable pub pend_step : Semaphore → Point → Error → Semaphore × Point
unfolding checked spin
pend_step s pend_check r = checked s pend_spin
pend_step s pend_spin r = spin s pend_spin pend_test
pend_step s pend_test r =
    if is_positive s.level
    then (open_lock (record s { level = minus_one s.level }), acquired (minus_one s.level))
    else (open_lock (record s { waiters = plus_one s.waiters }), pend_sleep s.level)
pend_step s (pend_sleep val) r = (s, pend_respin r)
pend_step s (pend_respin e) r = spin s (pend_respin e) (pend_woken e)
pend_step s (pend_woken e) r =
    let s' = record s { waiters = minus_one s.waiters } in
    if not (is_no_err e)
    then (open_lock s', finished e)
    else if not s.init
    then (open_lock s', finished not_initialized)
    else (s', pend_test)
pend_step s pc r = (s, pc)

-- sem_post, which wakes a waiter before it unlocks.
unfoldable pub post_step : Semaphore → Point → Error → Semaphore × Point
unfolding checked spin
post_step s post_check r = checked s post_spin
post_step s post_spin r = spin s post_spin post_raise
post_step s post_raise r =
    let s' = record s { level = plus_one s.level } in
    if is_positive s'.level && is_positive s.waiters
    then (s', post_wake)
    else (open_lock s', finished no_err)
post_step s post_wake r = (open_lock s, finished r)
post_step s pc r = (s, pc)

-- sem_trypend
unfoldable pub trypend_step : Semaphore → Point → Error → Semaphore × Point
unfolding checked spin
trypend_step s try_check r = checked s try_spin
trypend_step s try_spin r = spin s try_spin try_test
trypend_step s try_test r =
    if is_positive s.level
    then (open_lock (record s { level = minus_one s.level }), acquired (minus_one s.level))
    else (open_lock s, refused s.level)
trypend_step s pc r = (s, pc)

-- sem_destroy
unfoldable pub destroy_step : Semaphore → Point → Error → Semaphore × Point
unfolding checked spin
destroy_step s destroy_check r = checked s destroy_spin
destroy_step s destroy_spin r = spin s destroy_spin destroy_close
destroy_step s destroy_close r =
    let s' = record s { init = false } in
    if is_positive s.waiters
    then (open_lock (record s' { level = s.waiters }), destroy_wake s.waiters)
    else (open_lock s', finished no_err)
destroy_step s (destroy_wake val) r = (s, finished r)
destroy_step s pc r = (s, pc)

-- A thread stands in one of the four functions; in the others its step is none.
unfoldable pub sem_step : Semaphore → Point → Error → Semaphore × Point
unfolding pend_step post_step trypend_step destroy_step
sem_step s post_check r = post_step s post_check r
sem_step s post_spin r = post_step s post_spin r
sem_step s post_raise r = post_step s post_raise r
sem_step s post_wake r = post_step s post_wake r
sem_step s try_check r = trypend_step s try_check r
sem_step s try_spin r = trypend_step s try_spin r
sem_step s try_test r = trypend_step s try_test r
sem_step s destroy_check r = destroy_step s destroy_check r
sem_step s destroy_spin r = destroy_step s destroy_spin r
sem_step s destroy_close r = destroy_step s destroy_close r
sem_step s (destroy_wake val) r = destroy_step s (destroy_wake val) r
sem_step s pc r = pend_step s pc r

-- sem_init; none is a NULL semaphore.
pub sem_init : Option Semaphore → (init_level : ℕ) → Error × Option Semaphore
sem_init none init_level = (null_pointer, none)
sem_init (some s) init_level =
    (no_err, some (record { level = init_level; waiters = 0; lock = 0; init = true }))
