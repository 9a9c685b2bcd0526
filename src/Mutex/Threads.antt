-- ===== src/Mutex/Threads.antt =====
-- The threads of one mutex of mutex.c. A thread that has the lock makes no other call than
-- mutex_unlock.
use utk.Prelude.{Error, ℕ}
use utk.Threads.{Program, World}
use utk.Mutex.{
  null_pointer, Mutex, Point, Reply, Taking, by_thread, destroy_check, finished, held, idle, kept,
  lock_check, refused, step, unlock_check,
}

-- A call that a thread outside the code makes next; a call with a NULL mutex is over at once.
pub data Calls : Point → Point → Type 0 where
  lock_idle : (c : Taking) → Calls idle (lock_check c)
  lock_finished : (e : Error) (c : Taking) → Calls (finished e) (lock_check c)
  lock_refused : (value : ℕ) (c : Taking) → Calls (refused value) (lock_check c)
  unlock_held : Calls held (unlock_check by_thread)
  unlock_kept : (e : Error) → Calls (kept e) (unlock_check by_thread)
  null_idle : Calls idle (finished null_pointer)
  null_finished : (e : Error) → Calls (finished e) (finished null_pointer)
  null_refused : (value : ℕ) → Calls (refused value) (finished null_pointer)
  destroy_idle : Calls idle destroy_check
  destroy_finished : (e : Error) → Calls (finished e) destroy_check

abbrev pub mutex_program : Program
mutex_program = record { Shared = Mutex; Point = Point; Reply = Reply; step = step; Calls = Calls }

abbrev pub start : Mutex → World mutex_program
start m = record { shared = m; threads = λ i. idle }
