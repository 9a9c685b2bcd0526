-- ===== src/Semaphore/Threads.antt =====
-- The threads of one semaphore of semaphore.c: whoever stands outside the code may make any call.
use utk.Prelude.{Error, ℕ}
use utk.Threads.{Program, World}
use utk.Semaphore.{
  Point, Semaphore, acquired, destroy_check, finished, idle, pend_check, post_check, refused,
  sem_step, try_check,
}

pub data Outside : Point → Type 0 where
  idle_outside : Outside idle
  acquired_outside : (value : ℕ) → Outside (acquired value)
  refused_outside : (value : ℕ) → Outside (refused value)
  finished_outside : (e : Error) → Outside (finished e)

pub data Calls : Point → Point → Type 0 where
  call_pend : (pc : Point) → Outside pc → Calls pc pend_check
  call_post : (pc : Point) → Outside pc → Calls pc post_check
  call_trypend : (pc : Point) → Outside pc → Calls pc try_check
  call_destroy : (pc : Point) → Outside pc → Calls pc destroy_check

abbrev pub sem_program : Program
sem_program = record {
  Shared = Semaphore;
  Point = Point;
  Reply = Error;
  step = sem_step;
  Calls = Calls;
}

abbrev pub start : Semaphore → World sem_program
start s = record { shared = s; threads = λ i. idle }
