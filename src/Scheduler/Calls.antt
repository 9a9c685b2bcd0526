-- ===== src/Scheduler/Calls.antt =====
-- The calls of scheduler.c that block the active thread, wake another one up, or change a priority.
use utk.Prelude.{
  Bool, Error, Option, Run, fault, forbidden_priority, if◌then◌else◌, incorrect_value, leb, no_err,
  no_such_id, none, ok, some, unauthorized_action, ℕ, ◌%◌, ◌&&◌, ◌*◌, ◌+◌, ◌==◌, ◌>>=◌, ◌^◌,
}
use utk.Scheduler.{
  ready, sleeping, waiting, with_state, schedule_int, lowest_priority, Thread, push_ready,
  set_thread, Sched,
}
use utk.Scheduler.Valid.{is_waiting}

-- sched_sleep, which reads the time at `now`; the interrupt that it raises reads it at `later`.
unfoldable pub sched_sleep : (now later time_ms : ℕ) → Sched → Run (Error × Sched)
unfolding schedule_int
sched_sleep now later time_ms s =
    if s.active_thread_node == s.idle_node
    then ok (unauthorized_action, s)
    else elim (s.threads s.active_thread_node) [
      | none ↦ fault
      | some t ↦
          let asleep_thread = record t {
            state = sleeping;
            wakeup_time = (now + time_ms * 1000000 % 2 ^ 64) % 2 ^ 64;
          } in
          schedule_int later (set_thread s s.active_thread_node asleep_thread) >>= λ s'.
          ok (no_err, s')
    ]

-- sched_lock_thread
unfoldable pub sched_lock_thread : (block_type : ℕ) → Sched → Run (Option ℕ × Sched)
sched_lock_thread block_type s =
    if s.active_thread_node == s.idle_node
    then ok (none, s)
    else elim (s.threads s.active_thread_node) [
      | none ↦ fault
      | some t ↦ ok (
        some s.active_thread_node,
        set_thread s s.active_thread_node (record t { state = waiting; block_type = block_type }),
      )
    ]

-- `thread->state != THREAD_STATE_WAITING || thread->block_type != block_type`, negated
abbrev pub waits_for : Thread → ℕ → Bool
waits_for t block_type = is_waiting t.state && t.block_type == block_type

-- sched_unlock_thread
unfoldable pub sched_unlock_thread :
    (node block_type : ℕ) (do_schedule : Bool) (now : ℕ) → Sched → Run (Error × Sched)
unfolding push_ready schedule_int
sched_unlock_thread node block_type do_schedule now s = elim (s.threads node) [
  | none ↦ ok (no_such_id, s)
  | some t ↦
      if node == s.idle_node
      then ok (no_such_id, s)
      else if waits_for t block_type
      then (push_ready (set_thread s node (with_state t ready)) node t.priority >>= λ s1.
          (if do_schedule then schedule_int now s1 else ok s1) >>= λ s2. ok (no_err, s2))
      else ok (incorrect_value, s)
]

-- sched_set_thread_params, called by the active thread with parameters that are not NULL: the
-- `error` that it leaves in them.
unfoldable pub sched_set_thread_params : (priority : ℕ) → Sched → Run (Error × Sched)
sched_set_thread_params priority s = elim (s.threads s.active_thread_node) [
  | none ↦ fault
  | some t ↦
      if leb priority lowest_priority
      then ok (no_err, set_thread s s.active_thread_node (record t { priority = priority }))
      else ok (forbidden_priority, s)
]
