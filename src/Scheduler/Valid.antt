-- ===== src/Scheduler/Valid.antt =====
-- Where scheduler.c keeps its threads: the state of a thread says in which queue its node stands.
use utk.Prelude.{
  Bool, Option, false, leb, none, not, some, true, ℕ, ◌%◌, ◌&&◌, ◌==◌, ◌^◌, ◌||◌, ◌≡◌,
}
use utk.KQueue.Members.{mem, Distinct}
use utk.Sequence.Laws.{Sorted}
use utk.Scheduler.{waiting, Sched, State, Thread, lowest_priority, ready, running, sleeping}

abbrev pub is_ready : State → Bool
is_ready ready = true
is_ready _ = false

abbrev pub is_sleeping : State → Bool
is_sleeping sleeping = true
is_sleeping _ = false

abbrev pub is_running : State → Bool
is_running running = true
is_running _ = false

abbrev pub is_waiting : State → Bool
is_waiting waiting = true
is_waiting _ = false

abbrev pub ready_at : ℕ → Option Thread → Bool
ready_at p none = false
ready_at p (some t) = is_ready t.state && t.priority == p

abbrev pub asleep : Option Thread → Bool
asleep none = false
asleep (some t) = is_sleeping t.state

abbrev pub runs : Option Thread → Bool
runs none = false
runs (some t) = is_running t.state

abbrev pub in_range : Option Thread → Bool
in_range none = true
in_range (some t) = leb t.priority lowest_priority

abbrev pub priority_of : Option Thread → ℕ
priority_of none = 0
priority_of (some t) = t.priority

abbrev pub wakes_at : Option Thread → ℕ
wakes_at none = 0
wakes_at (some t) = t.wakeup_time

-- Every node stands in the queue that its thread's state names, once, and in no other; the nodes
-- that `out` holds of, which no queue of sleepers has, may also be running. The sleepers are in the
-- order of the low 32 bits of their times.
pub record Placed (s : Sched) (out : ℕ → Bool) : Type 0 where
  pub tables : (p id : ℕ) → mem id (s.active_threads_table p) ≡ ready_at p (s.threads id)
  pub sleepers :
      (id : ℕ) → mem id s.sleeping_threads_table ≡ (not (out id) && asleep (s.threads id))
  pub still : (id : ℕ) → out id ≡ false → runs (s.threads id) ≡ false
  pub bounded : (id : ℕ) → in_range (s.threads id) ≡ true
  pub each : (p : ℕ) → Distinct (s.active_threads_table p)
  pub once : Distinct s.sleeping_threads_table
  pub sorted : Sorted s.node_priority s.sleeping_threads_table
  pub times :
      (id : ℕ)
      → mem id s.sleeping_threads_table ≡ true
      → s.node_priority id ≡ wakes_at (s.threads id) % 2 ^ 32

abbrev pub nobody : ℕ → Bool
nobody id = false

abbrev pub only : ℕ → ℕ → Bool
only node id = id == node

-- A thread that the scheduler may always elect: ready or running.
abbrev pub steady : Option Thread → Bool
steady none = false
steady (some t) = is_ready t.state || is_running t.state

-- Between two calls of the scheduler. Only the active thread is in no queue, and the idle thread
-- neither sleeps nor waits.
pub record IsSched (s : Sched) : Type 0 where
  pub placed : Placed s (only s.active_thread_node)
  pub active : (t : Thread) × (s.threads s.active_thread_node ≡ some t)
  pub idle : steady (s.threads s.idle_node) ≡ true
