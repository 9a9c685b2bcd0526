-- ===== src/Scheduler/Requeue.antt =====
-- A node goes into the queue that its thread's state names.
use utk.Prelude.{
  ==_refl, ==→eq, Bool, Bool-cases, ap, arith, false, inl, inr, ltb, ne→==, ok, refl, some, sym,
  true, ℕ, ◌%◌, ◌==◌, ◌^◌, ◌∙◌, ◌∷◌, ◌≡◌,
}
use utk.KQueue.Members.{ne_of_mem, mem}
use utk.Sequence.Laws.{mem-push_prio, Distinct-push_prio, Sorted-push_prio, Sorted-congr}
use utk.Scheduler.{
  Sched, State, Thread, at, copying, joining, lowest_priority, push_ready, push_sleeping, ready,
  running, set_thread, sleeping, waiting, with_state, zombie,
}
use utk.Scheduler.Valid.{
  Placed, asleep, in_range, is_ready, is_running, is_sleeping, nobody, only, ready_at, runs,
  wakes_at,
}

sleeping_still : (state : State) → is_sleeping state ≡ true → is_running state ≡ false
sleeping_still running e = absurd cc
sleeping_still sleeping e = refl
sleeping_still ready e = refl
sleeping_still zombie e = refl
sleeping_still joining e = refl
sleeping_still copying e = refl
sleeping_still waiting e = refl

pub running_unready : (state : State) → is_running state ≡ true → is_ready state ≡ false
running_unready running e = refl
running_unready sleeping e = refl
running_unready ready e = absurd cc
running_unready zombie e = refl
running_unready joining e = refl
running_unready copying e = refl
running_unready waiting e = refl

module _ (s : Sched) (node : ℕ) (t : Thread) (here : s.threads node ≡ some t) (out : ℕ → Bool)
    (is : Placed s out) where
  abbrev awake : Sched
  awake =
      let s' = set_thread s node (with_state t ready) in
      record s' {
        active_threads_table =
            at s.active_threads_table t.priority (node ∷ s.active_threads_table t.priority);
      }

  thread_of : (id : ℕ) → (id == node) ≡ true → s.threads id ≡ some t
  thread_of id it = ap s.threads (==→eq id node it) ∙ here

  low : ltb lowest_priority t.priority ≡ false
  low = ground (arith, is.bounded node, here)

  -- A node whose thread neither sleeps nor is ready goes into the table of its priority.
  pub push_ready-Placed_but :
      (out' : ℕ → Bool)
      → mem node s.sleeping_threads_table ≡ false
      → ((id : ℕ) → (id == node) ≡ false → out' id ≡ out id)
      → is_ready t.state ≡ false
      → (push_ready (set_thread s node (with_state t ready)) node t.priority ≡ ok awake)
        × Placed awake out'
  unfolding push_ready
  push_ready-Placed_but out' gone same was = (
    rw low refl,
    record {
      tables = λ p id. elim (Bool-cases (id == node)) [
        | inl it ↦ elim (Bool-cases (p == t.priority)) [
          | inl level ↦ rw (it, level) (ground (arith, level))
          | inr apart ↦
              rw (it, apart)
                (ground (arith, is.tables p id, ap (ready_at p) (thread_of id it), was, apart))
        ]
        | inr other ↦ elim (Bool-cases (p == t.priority)) [
          | inl level ↦
              rw (level, other)
                (is.tables t.priority id
                  ∙ ap (λ q. ready_at q (s.threads id)) (sym (==→eq p t.priority level)))
          | inr apart ↦ rw (other, apart) (is.tables p id)
        ]
      ];
      sleepers = λ id. elim (Bool-cases (id == node)) [
        | inl it ↦
            rw it
              (ap (λ j. mem j s.sleeping_threads_table) (==→eq id node it) ∙ gone ∙ ground arith)
        | inr other ↦ rw (other, same id other) (is.sleepers id)
      ];
      still = λ id inside. elim (Bool-cases (id == node)) [
        | inl it ↦ rw it refl
        | inr other ↦ rw other (is.still id (sym (same id other) ∙ inside))
      ];
      bounded = λ id. elim (Bool-cases (id == node)) [
        | inl it ↦ rw it (sym (ap in_range here) ∙ is.bounded node)
        | inr other ↦ rw other (is.bounded id)
      ];
      each = λ p. elim (Bool-cases (p == t.priority)) [
        | inl level ↦ rw level (
          is.tables t.priority node ∙ ap (ready_at t.priority) here ∙ rw was refl,
          is.each t.priority,
        )
        | inr apart ↦ rw apart (is.each p)
      ];
      once = is.once;
      sorted = is.sorted;
      times = λ id m. elim (Bool-cases (id == node)) [
        | inl it ↦ rw it (is.times id m ∙ ap (λ o. wakes_at o % 2 ^ 32) (thread_of id it))
        | inr other ↦ rw other (is.times id m)
      ];
    },
  )

module _ (s : Sched) (node : ℕ) (t : Thread) (here : s.threads node ≡ some t)
    (is : Placed s (only node)) where
  gone : mem node s.sleeping_threads_table ≡ false
  gone = is.sleepers node ∙ rw (==_refl node) refl

  pub push_ready-Placed :
      is_ready t.state ≡ false
      → (push_ready (set_thread s node (with_state t ready)) node t.priority
          ≡ ok (awake s node t here (only node) is))
        × Placed (awake s node t here (only node) is) nobody
  push_ready-Placed was =
      push_ready-Placed_but s node t here (only node) is nobody gone (λ id other. sym other) was

  -- A node whose thread sleeps goes into the queue of the sleepers.
  pub push_sleeping-Placed :
      is_sleeping t.state ≡ true → Placed (push_sleeping s node t.wakeup_time) nobody
  unfolding push_sleeping
  push_sleeping-Placed was =
      let key = at s.node_priority node (t.wakeup_time % 2 ^ 32) in
      let xs = s.sleeping_threads_table in
      record {
        tables = is.tables;
        sleepers = λ id. mem-push_prio key id node xs ∙ (elim (Bool-cases (id == node)) [
          | inl it ↦ rw it (sym (ap asleep (thread_of s node t here (only node) is id it) ∙ was))
          | inr other ↦ rw other (rw other at (is.sleepers id))
        ]);
        still = λ id _. elim (Bool-cases (id == node)) [
          | inl it ↦
              ap runs (thread_of s node t here (only node) is id it) ∙ sleeping_still t.state was
          | inr other ↦ is.still id other
        ];
        bounded = is.bounded;
        each = is.each;
        once = Distinct-push_prio key node xs gone is.once;
        sorted = Sorted-push_prio key node xs (
            Sorted-congr s.node_priority key xs
              (λ y m. rw (ne→== y node (ne_of_mem node y xs gone m)) refl) is.sorted);
        times = λ id m. elim (Bool-cases (id == node)) [
          | inl it ↦
              rw it
                (sym (ap (λ o. wakes_at o % 2 ^ 32) (thread_of s node t here (only node) is id it)))
          | inr other ↦
              rw other (is.times id (ground (arith, mem-push_prio key id node xs, m, other)))
        ];
      }

  -- A node whose thread waits for something else stays out of the queues.
  pub leave-Placed : is_sleeping t.state ≡ false → is_running t.state ≡ false → Placed s nobody
  leave-Placed awake_now idle_now = record {
    tables = is.tables;
    sleepers = λ id. elim (Bool-cases (id == node)) [
      | inl it ↦
          is.sleepers id
          ∙ rw it (sym (ap asleep (thread_of s node t here (only node) is id it) ∙ awake_now))
      | inr other ↦ rw other at (is.sleepers id)
    ];
    still = λ id _. elim (Bool-cases (id == node)) [
      | inl it ↦ ap runs (thread_of s node t here (only node) is id it) ∙ idle_now
      | inr other ↦ is.still id other
    ];
    bounded = is.bounded;
    each = is.each;
    once = is.once;
    sorted = is.sorted;
    times = is.times;
  }
