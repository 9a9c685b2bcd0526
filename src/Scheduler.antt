-- ===== src/Scheduler.antt =====
-- The choice of the next thread, Kernel/Sources/core/src/scheduler.c. A queue of threads is the
-- sequence of its nodes, from the head to the tail; kqueue_push, kqueue_pop and kqueue_push_prio are
-- the operations on it that Sequence states. A node is a number, and its thread is `threads node`.
pub mod Valid
pub mod Requeue
pub mod Kept
pub mod Wake
pub mod Start
pub mod Resume
pub mod Elect
pub mod Calls
pub mod Locking
pub mod Blocking
use utk.Prelude.{
  List, Option, Run, endless, fault, if◌then◌else◌, length, ltb, none, null_pointer, ok, panicked,
  some, suc, zero, ℕ, ◌%◌, ◌+◌, ◌==◌, ◌>>=◌, ◌^◌, ◌∷◌,
}
use utk.Sequence.{pop_last, push_prio}

-- `THREAD_STATE_E`
pub data State : Type 0 where
  running ready sleeping zombie joining copying waiting : State

-- `kernel_thread_t`, as far as the scheduler's decisions go.
pub record Thread : Type 0 where
  pub tid : ℕ
  pub priority : ℕ
  pub state : State
  pub block_type : ℕ
  pub wakeup_time : ℕ

-- The globals. `threads` is the `data` of a node, none where it is NULL; the thread that is active is
-- that of `active_thread_node`, and the idle thread that of `idle_node`.
pub record Sched : Type 0 where
  pub threads : ℕ → Option Thread
  pub node_priority : ℕ → ℕ
  pub active_threads_table : ℕ → List ℕ
  pub sleeping_threads_table : List ℕ
  pub active_thread_node : ℕ
  pub idle_node : ℕ
  pub schedule_count : ℕ

abbrev pub lowest_priority : ℕ
lowest_priority = 63

abbrev pub at {ℓ} : {A : Type ℓ} → (ℕ → A) → ℕ → A → ℕ → A
at f i x j = if j == i then x else f j

abbrev pub set_thread : Sched → ℕ → Thread → Sched
set_thread s node t = record s { threads = at s.threads node (some t) }

abbrev pub with_state : Thread → State → Thread
with_state t state = record t { state = state }

-- `kqueue_push(node, active_threads_table[priority])`; an index past the table is a fault.
unfoldable pub push_ready : Sched → (node priority : ℕ) → Run Sched
push_ready s node priority =
    if ltb lowest_priority priority
    then fault
    else ok (record s {
      active_threads_table =
          at s.active_threads_table priority (node ∷ s.active_threads_table priority);
    })

-- `kqueue_push_prio(node, sleeping_threads_table, wakeup_time)`; the priority of a node is a
-- `uintptr_t` of 32 bits, the time one of 64.
unfoldable pub push_sleeping : Sched → (node wakeup_time : ℕ) → Sched
push_sleeping s node wakeup_time =
    let key = at s.node_priority node (wakeup_time % 2 ^ 32) in
    record s {
      node_priority = key;
      sleeping_threads_table = push_prio key node s.sleeping_threads_table;
    }

-- The active thread goes back into a queue, by its state.
unfoldable pub requeue_as : Sched → Thread → State → Run Sched
unfolding push_ready push_sleeping
requeue_as s t running =
    push_ready (set_thread s s.active_thread_node (with_state t ready)) s.active_thread_node
      t.priority
requeue_as s t sleeping = ok (push_sleeping s s.active_thread_node t.wakeup_time)
requeue_as s t _ = ok s

unfoldable pub requeue : Sched → Run Sched
unfolding requeue_as
requeue s = elim (s.threads s.active_thread_node) [ none ↦ fault | some t ↦ requeue_as s t t.state ]

-- The loop that wakes the sleeping threads up. Each round takes a node out of the queue.
unfoldable pub wake_loop : ℕ → (current_time : ℕ) → Sched → Run Sched
unfolding push_ready push_sleeping
wake_loop zero current_time s = endless
wake_loop (suc left) current_time s = elim (pop_last s.sleeping_threads_table) [
  | none ↦ ok s
  | some (rest, node) ↦
      let s' = record s { sleeping_threads_table = rest } in
      elim (s.threads node) [
        | none ↦ wake_loop left current_time s'
        | some t ↦
            let woken =
              push_ready (set_thread s' node (with_state t ready)) node t.priority
              >>= wake_loop left current_time in
            if ltb t.wakeup_time current_time
            then woken
            else ok (push_sleeping s' node t.wakeup_time)
      ]
]

-- The first queue that is not empty, from the priority `i` on, and what is left without its last
-- node.
unfoldable pub elect : ℕ → (i : ℕ) → Sched → Option (ℕ × Sched)
elect zero i s = none
elect (suc left) i s = elim (pop_last (s.active_threads_table i)) [
  | none ↦ elect left (i + 1) s
  | some (rest, node) ↦
      some (node, record s { active_threads_table = at s.active_threads_table i rest })
]

unfoldable pub start_elected : Sched → Run Sched
unfolding elect
start_elected s = elim (elect 64 0 s) [
  | none ↦ panicked null_pointer
  | some (node, s') ↦ elim (s'.threads node) [
    | none ↦ panicked null_pointer
    | some t ↦ ok (record (set_thread s' node (with_state t running)) { active_thread_node = node })
  ]
]

unfoldable pub select_thread : (current_time : ℕ) → Sched → Run Sched
unfolding requeue wake_loop start_elected
select_thread current_time s = requeue s >>= λ s1.
    wake_loop (length s1.sleeping_threads_table + 1) current_time s1 >>= start_elected

-- The handler of the scheduling interrupt, but for the restoring of the thread's context.
unfoldable pub schedule_int : (current_time : ℕ) → Sched → Run Sched
schedule_int current_time s = select_thread current_time s >>= λ s'.
    ok (record s' { schedule_count = (s'.schedule_count + 1) % 2 ^ 64 })
