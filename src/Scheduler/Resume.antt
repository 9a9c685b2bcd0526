-- ===== src/Scheduler/Resume.antt =====
-- The active thread goes back into a queue when scheduler.c is to choose the next one.
use utk.Scheduler.Kept.{at-Kept, Kept-refl, Kept}
use utk.Prelude.{
  ==_refl, ==→eq, Bool-cases, Option, Returns, ap, arith, false, inl, inr, none, ok, refl, returns,
  some, true, ℕ, ◌==◌, ◌∙◌, ◌≡◌,
}
use utk.Scheduler.{
  Sched, State, Thread, copying, joining, ready, requeue, requeue_as, running, sleeping, waiting,
  zombie,
}
use utk.Scheduler.Valid.{
  priority_of, IsSched, Placed, asleep, is_ready, is_running, is_sleeping, nobody, ready_at, runs,
  steady,
}
use utk.Scheduler.Requeue.{push_ready-Placed, push_sleeping-Placed, leave-Placed}

steady_ready :
    (o : Option Thread) → steady o ≡ true → runs o ≡ false → ready_at (priority_of o) o ≡ true
steady_ready none e r = absurd cc
steady_ready (some t) e r = ground (arith, e, r, ==_refl t.priority)

-- The active thread is in a queue again, and every thread that ran or was ready is ready.
pub record Requeued (s s' : Sched) : Type 0 where
  pub placed : Placed s' nobody
  pub kept : Kept s s'
  pub dozes : (id : ℕ) → asleep (s.threads id) ≡ true → asleep (s'.threads id) ≡ true
  pub readied :
      (id : ℕ)
      → steady (s.threads id) ≡ true
      → ready_at (priority_of (s.threads id)) (s'.threads id) ≡ true

module _ (s : Sched) (is : IsSched s) (t : Thread)
    (here : s.threads s.active_thread_node ≡ some t) where
  abbrev node : ℕ
  node = s.active_thread_node

  same_ready :
      is_running t.state ≡ false
      → (id : ℕ) → steady (s.threads id) ≡ true
      → ready_at (priority_of (s.threads id)) (s.threads id) ≡ true
  same_ready was id e = elim (Bool-cases (id == node)) [
    | inl it ↦
        steady_ready (s.threads id) e (ap runs (ap s.threads (==→eq id node it) ∙ here) ∙ was)
    | inr other ↦ steady_ready (s.threads id) e (is.placed.still id other)
  ]

  quiet : is_sleeping t.state ≡ false → is_running t.state ≡ false → Returns (Requeued s) (ok s)
  quiet asleep_now runs_now = returns (record {
    placed = leave-Placed s node t here is.placed asleep_now runs_now;
    kept = Kept-refl s;
    dozes = λ id a. a;
    readied = same_ready runs_now;
  })

  go : (state : State) → t.state ≡ state → Returns (Requeued s) (requeue_as s t state)
  unfolding requeue_as
  go running e =
      let (step, placed) = push_ready-Placed s node t here is.placed (ap is_ready e) in
      rw step (
        returns (record {
          placed = placed;
          kept =
              at-Kept s _ node t ready here (ground (arith, ap is_running e)) refl (λ id. refl)
                refl;
          dozes = λ id a. elim (Bool-cases (id == node)) [
            | inl it ↦
                absurd
                  (cc (ap asleep (ap s.threads (==→eq id node it) ∙ here) ∙ ap is_sleeping e, a))
            | inr other ↦ rw other a
          ];
          readied = λ id f. elim (Bool-cases (id == node)) [
            | inl it ↦ rw it (
                ap (λ o. t.priority == priority_of o) (ap s.threads (==→eq id node it) ∙ here)
                ∙ ==_refl t.priority)
            | inr other ↦ rw other (steady_ready (s.threads id) f (is.placed.still id other))
          ];
        }))
  go sleeping e = returns (record {
    placed = push_sleeping-Placed s node t here is.placed (ap is_sleeping e);
    kept = record {
      identity = λ id. refl;
      alive = λ id. refl;
      untouched = λ id _. refl;
      idle = refl;
    };
    dozes = λ id a. a;
    readied = same_ready (ap is_running e);
  })
  go ready e = quiet (ap is_sleeping e) (ap is_running e)
  go zombie e = quiet (ap is_sleeping e) (ap is_running e)
  go joining e = quiet (ap is_sleeping e) (ap is_running e)
  go copying e = quiet (ap is_sleeping e) (ap is_running e)
  go waiting e = quiet (ap is_sleeping e) (ap is_running e)

pub requeue-Requeued : (s : Sched) → IsSched s → Returns (Requeued s) (requeue s)
unfolding requeue
requeue-Requeued s is =
    rw (requeue, is.active.1) (go s is is.active.0 is.active.1 is.active.0.state refl)
