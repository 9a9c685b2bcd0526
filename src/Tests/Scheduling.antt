-- ===== src/Tests/Scheduling.antt =====
-- A scheduler with the idle thread 0, the thread 1 that runs and the thread 2 that sleeps until 100,
-- run through scheduler.c.
use utk.Scheduler.Locking.{lock_and_unlock-Unlocked, lock_and_unlock, Unlocked}
use utk.Prelude.{
  Bool-cases, List, Option, Returns, [], arith, false, if◌then◌else◌, inl, inr, none, not, refl,
  returns, some, suc, true, zero, ℕ, ◌%◌, ◌&&◌, ◌==◌, ◌^◌, ◌∷◌, ◌≡◌,
}
use utk.KQueue.Members.{mem}
use utk.Scheduler.{
  start_elected, elect, wake_loop, push_sleeping, push_ready, requeue_as, requeue, select_thread,
  State, Thread, Sched, running, ready, sleeping,
}
use utk.Scheduler.Valid.{runs, asleep, wakes_at, only, in_range, ready_at, IsSched}
use utk.Scheduler.Elect.{Elected, select_thread-elects}
use utk.Scheduler.Blocking.{end_of_sleep, Slept, sched_sleep-Slept}
use utk.Scheduler.Calls.{sched_sleep}
use utk.Sequence.{push_prio, pop_last}

abbrev thread : (tid priority : ℕ) → State → (wakeup_time : ℕ) → Thread
thread tid priority state wakeup_time = record {
  tid = tid;
  priority = priority;
  state = state;
  block_type = 0;
  wakeup_time = wakeup_time;
}

abbrev three_threads : ℕ → Option Thread
three_threads zero = some (thread 10 63 ready 0)
three_threads (suc zero) = some (thread 11 5 running 0)
three_threads (suc (suc zero)) = some (thread 12 3 sleeping 100)
three_threads (suc (suc (suc id))) = none

abbrev idle_queue : ℕ → List ℕ
idle_queue p = if p == 63 then 0 ∷ [] else []

abbrev three : Sched
three = record {
  threads = three_threads;
  node_priority = λ id. 100;
  active_threads_table = idle_queue;
  sleeping_threads_table = 2 ∷ [];
  active_thread_node = 1;
  idle_node = 0;
  schedule_count = 0;
}

three-tables : (p id : ℕ) → mem id (idle_queue p) ≡ ready_at p (three_threads id)
three-tables p zero = ground arith
three-tables p (suc zero) = ground arith
three-tables p (suc (suc zero)) = ground arith
three-tables p (suc (suc (suc id))) = ground arith

three-sleepers : (id : ℕ) → mem id (2 ∷ []) ≡ (not (only 1 id) && asleep (three_threads id))
three-sleepers zero = refl
three-sleepers (suc zero) = refl
three-sleepers (suc (suc zero)) = refl
three-sleepers (suc (suc (suc id))) = ground arith

three-still : (id : ℕ) → only 1 id ≡ false → runs (three_threads id) ≡ false
three-still zero e = refl
three-still (suc zero) e = absurd cc
three-still (suc (suc zero)) e = refl
three-still (suc (suc (suc id))) e = refl

three-bounded : (id : ℕ) → in_range (three_threads id) ≡ true
three-bounded zero = refl
three-bounded (suc zero) = refl
three-bounded (suc (suc zero)) = refl
three-bounded (suc (suc (suc id))) = refl

three-times : (id : ℕ) → mem id (2 ∷ []) ≡ true → 100 ≡ wakes_at (three_threads id) % 2 ^ 32
three-times zero m = absurd cc
three-times (suc zero) m = absurd cc
three-times (suc (suc zero)) m = refl
three-times (suc (suc (suc id))) m = absurd (ground arith)

three-IsSched : IsSched three
three-IsSched = record {
  placed = record {
    tables = three-tables;
    sleepers = three-sleepers;
    still = three-still;
    bounded = three-bounded;
    each = λ p. elim (Bool-cases (p == 63)) [ inl it ↦ rw it (refl, tt) | inr other ↦ rw other tt ];
    once = (refl, tt);
    sorted = ((λ y m. absurd cc), tt);
    times = three-times;
  };
  active = (thread 11 5 running 0, refl);
  idle = refl;
}

select_thread-elects_example : Returns (Elected 90 three) (select_thread 90 three)
select_thread-elects_example = select_thread-elects 90 three three-IsSched

-- At 90 the thread that ran is elected again, at 101 the one that slept.
at_90 : Returns (λ s. s.active_thread_node ≡ 1) (select_thread 90 three)
unfolding select_thread requeue requeue_as push_ready push_sleeping wake_loop elect start_elected
    pop_last push_prio
at_90 = returns refl

at_101 : Returns (λ s. s.active_thread_node ≡ 2) (select_thread 101 three)
unfolding select_thread requeue requeue_as push_ready push_sleeping wake_loop elect start_elected
    pop_last push_prio
at_101 = returns refl

sched_sleep-Slept_example :
    Returns (Slept (end_of_sleep 40 7) 50 1 three) (sched_sleep 40 50 7 three)
sched_sleep-Slept_example = sched_sleep-Slept 40 50 7 three three-IsSched refl refl

lock_and_unlock-Unlocked_example :
    Returns (Unlocked 1 three) (lock_and_unlock 1 (60 ∷ 120 ∷ []) three)
lock_and_unlock-Unlocked_example =
    lock_and_unlock-Unlocked 1 (60 ∷ 120 ∷ []) three three-IsSched refl refl

-- Two sleepers, until 2^32 + 5 and until 2^33 + 1, whose nodes have the priorities 5 and 1.
abbrev wrapped_threads : ℕ → Option Thread
wrapped_threads zero = some (thread 10 63 running 0)
wrapped_threads (suc zero) = some (thread 11 5 sleeping 4294967301)
wrapped_threads (suc (suc zero)) = some (thread 12 3 sleeping 8589934593)
wrapped_threads (suc (suc (suc id))) = none

abbrev wrapped : Sched
wrapped = record {
  threads = wrapped_threads;
  node_priority = λ id. if id == 1 then 5 else 1;
  active_threads_table = λ p. [];
  sleeping_threads_table = 1 ∷ 2 ∷ [];
  active_thread_node = 0;
  idle_node = 0;
  schedule_count = 0;
}

-- At 2^32 + 10 the time of thread 1 is over, and it sleeps on.
overdue : Returns (λ s. asleep (s.threads 1) ≡ true) (select_thread 4294967306 wrapped)
unfolding select_thread requeue requeue_as push_ready push_sleeping wake_loop elect start_elected
    pop_last push_prio
overdue = returns refl
