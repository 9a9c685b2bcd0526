-- ===== src/Scheduler/Wake.antt =====
-- The waking of the sleepers, and what all steps of the scheduler leave alone.
use utk.Prelude.{
  ==→eq, Bool-cases, List, Option-cases, Returns, [], ap, arith, false, inl, inr, length,
  length-append, ltb, ltb→le, ltb→lt, mono, ok, refl, returns, some, subst, suc, sym, true, zero, ℕ,
  ◌%◌, ◌++◌, ◌<◌, ◌==◌, ◌^◌, ◌∙◌, ◌∷◌, ◌≡◌, ◌≤◌,
}
use utk.KQueue.Members.{mem, Distinct, mem-append, mem_of_inner}
use utk.Sequence.Laws.{
  Sorted, Sorted-front, Sorted-last, Distinct-last, mem-push_prio, pop_last-cases,
}
use utk.Scheduler.Requeue.{push_ready-Placed, push_sleeping-Placed}
use utk.Scheduler.{
  Sched, State, Thread, at, copying, joining, push_ready, push_sleeping, ready, running, set_thread,
  sleeping, waiting, wake_loop, with_state, zombie,
}
use utk.Scheduler.Valid.{Placed, asleep, is_ready, is_sleeping, nobody, only, wakes_at}
use utk.Scheduler.Kept.{
  Kept, Kept-refl, Kept-trans, at-Kept, Held, Stays, at-Stays, Dozes, Dozes-trans,
}

abbrev pub without_last : Sched → List ℕ → Sched
without_last s rest = record s { sleeping_threads_table = rest }

module _ (s : Sched) (is : Placed s nobody) (rest : List ℕ) (node : ℕ)
    (parts : s.sleeping_threads_table ≡ rest ++ node ∷ []) where
  -- The node that is popped belongs to a thread that sleeps.
  sleeper : asleep (s.threads node) ≡ true
  sleeper = sym (is.sleepers node) ∙ ap (mem node) parts ∙ mem_of_inner node rest []

  apart : Distinct rest × (mem node rest ≡ false)
  apart = Distinct-last rest node (subst Distinct parts is.once)

  popped-Placed : Placed (without_last s rest) (only node)
  popped-Placed = record {
    tables = is.tables;
    sleepers = λ id. elim (Bool-cases (id == node)) [
      | inl it ↦ rw it (ap (λ j. mem j rest) (==→eq id node it) ∙ apart.1)
      | inr other ↦
          rw other (
            ground
              (arith, is.sleepers id, ap (mem id) parts, mem-append id rest (node ∷ []), other))
    ];
    still = λ id _. is.still id refl;
    bounded = is.bounded;
    each = is.each;
    once = apart.0;
    sorted =
        Sorted-front s.node_priority rest (node ∷ [])
          (subst (Sorted s.node_priority) parts is.sorted);
    times = λ id m. is.times id (ap (mem id) parts ∙ mem-append id rest (node ∷ []) ∙ rw m refl);
  }

-- After the loop every thread that is still asleep stands in the queue behind one that is not due.
pub record Woken (now : ℕ) (s s' : Sched) : Type 0 where
  pub placed : Placed s' nobody
  pub kept : Kept s s'
  pub stays : Stays s s'
  pub dozes : Dozes now s s'
  pub late : (id : ℕ) → mem id s'.sleeping_threads_table ≡ true → Held now s' id

pub sleeping_unready : (state : State) → is_sleeping state ≡ true → is_ready state ≡ false
sleeping_unready running e = refl
sleeping_unready sleeping e = refl
sleeping_unready ready e = absurd cc
sleeping_unready zombie e = refl
sleeping_unready joining e = refl
sleeping_unready copying e = refl
sleeping_unready waiting e = refl

module _ (now : ℕ) (s : Sched) (is : Placed s nobody) (rest : List ℕ) (node : ℕ)
    (parts : s.sleeping_threads_table ≡ rest ++ node ∷ []) (t : Thread)
    (here : s.threads node ≡ some t) where
  was : is_sleeping t.state ≡ true
  was = sym (ap asleep here) ∙ sleeper s is rest node parts

  at_node : (id : ℕ) → (id == node) ≡ true → s.threads id ≡ some t
  at_node id it = ap s.threads (==→eq id node it) ∙ here

  -- The popped node is the first whose time is not over: it goes back, and the loop ends.
  put_back :
      now ≤ t.wakeup_time → Woken now s (push_sleeping (without_last s rest) node t.wakeup_time)
  unfolding push_sleeping
  put_back not_over = record {
    placed =
        push_sleeping-Placed (without_last s rest) node t here (popped-Placed s is rest node parts)
          was;
    kept = record {
      identity = λ id. refl;
      alive = λ id. refl;
      untouched = λ id _. refl;
      idle = refl;
    };
    stays = λ p id r. r;
    dozes = λ id a until. a;
    late = λ id m. elim (Bool-cases (id == node)) [
      | inl it ↦ (
        id,
        ap asleep (at_node id it) ∙ was,
        omega (arith, ap wakes_at (at_node id it)),
        omega arith,
      )
      | inr other ↦
          let key = at s.node_priority node (t.wakeup_time % 2 ^ 32) in
          let m' : mem id rest ≡ true = ground (arith, mem-push_prio key id node rest, m, other) in
          let inside : mem id s.sleeping_threads_table ≡ true =
            ap (mem id) parts ∙ mem-append id rest (node ∷ []) ∙ rw m' refl in
          let own : mem node s.sleeping_threads_table ≡ true =
            ap (mem node) parts ∙ mem_of_inner node rest [] in
          (
            node,
            ap asleep here ∙ was,
            omega (arith, ap wakes_at here),
            omega (
              arith,
              Sorted-last s.node_priority rest node id
                  (subst (Sorted s.node_priority) parts is.sorted) m',
              is.times id inside,
              is.times node own,
            ),
          )
    ];
  }

  abbrev woken : Sched
  woken = record (set_thread (without_last s rest) node (with_state t ready)) {
    active_threads_table =
        at s.active_threads_table t.priority (node ∷ s.active_threads_table t.priority);
  }

  wake_one :
      (push_ready (set_thread (without_last s rest) node (with_state t ready)) node t.priority
        ≡ ok woken)
      × Placed woken nobody
      × Kept s woken
      × Stays s woken
  wake_one =
      let (e, placed) =
        push_ready-Placed (without_last s rest) node t here (popped-Placed s is rest node parts)
          (sleeping_unready t.state was) in
      (
        e,
        placed,
        at-Kept s woken node t ready here (ground (arith, was)) refl (λ id. refl) refl,
        at-Stays s woken node t here (λ id. refl),
      )

  still_asleep : t.wakeup_time < now → Dozes now s woken
  still_asleep over id a until = elim (Bool-cases (id == node)) [
    | inl it ↦ absurd (omega (arith, over, until, ap wakes_at (at_node id it)))
    | inr other ↦ rw other a
  ]

pub wake_loop-Woken :
    (left now : ℕ) (s : Sched)
    → Placed s nobody
    → length s.sleeping_threads_table < left
    → Returns (Woken now s) (wake_loop left now s)
unfolding wake_loop
wake_loop-Woken zero now s is enough = absurd (omega arith)
wake_loop-Woken (suc left) now s is enough = elim (pop_last-cases s.sleeping_threads_table) [
  | inl (nil, e) ↦
      rw (wake_loop, e)
        (returns (record {
          placed = is;
          kept = Kept-refl s;
          stays = λ p id r. r;
          dozes = λ id a until. a;
          late = λ id m. absurd (cc (ap (mem id) nil));
        }))
  | inr (rest, node, parts, e) ↦ elim (Option-cases (s.threads node)) [
    | inl missing ↦ absurd (cc (ap asleep missing, sleeper s is rest node parts))
    | inr (t, here) ↦ elim (Bool-cases (ltb t.wakeup_time now)) [
      | inl over ↦
          let (step, placed, kept, stays) = wake_one now s is rest node parts t here in
          rw (wake_loop, e, here, over, step)
            (mono
              (wake_loop-Woken left now (woken now s is rest node parts t here) placed
                (omega (arith, ap length parts, length-append rest (node ∷ []))))
              (λ s' w. record {
                placed = w.placed;
                kept = Kept-trans kept w.kept;
                stays = λ p id r. w.stays p id (stays p id r);
                dozes =
                    Dozes-trans now s (woken now s is rest node parts t here) s' kept
                      (still_asleep now s is rest node parts t here (ltb→lt t.wakeup_time now over))
                      w.dozes;
                late = w.late;
              }))
      | inr not_over ↦
          rw (wake_loop, e, here, not_over)
            (returns (put_back now s is rest node parts t here (ltb→le t.wakeup_time now not_over)))
    ]
  ]
]
