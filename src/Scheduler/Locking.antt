-- ===== src/Scheduler/Locking.antt =====
-- A thread that locks itself in scheduler.c waits until it is unlocked, whatever runs in between.
use utk.Prelude.{
  ==_refl, ==→ne, Bool-cases, Error, List, Returns, Run, [], ap, arith, bind, false, fault, inl,
  inr, mono, ne→==, no_err, none, not, ok, refl, returns, some, subst, sym, true, ℕ, ◌&&◌, ◌==◌,
  ◌>>=◌, ◌∙◌, ◌∷◌, ◌≡◌,
}
use utk.KQueue.Members.{mem}
use utk.Scheduler.{
  with_state, copying, joining, ready, running, waiting, zombie, State, sleeping, set_thread, at,
  Thread, schedule_int, Sched,
}
use utk.Scheduler.Valid.{
  priority_of, is_sleeping, only, is_waiting, runs, asleep, is_ready, is_running, IsSched,
}
use utk.Scheduler.Kept.{live}
use utk.Scheduler.Requeue.{push_ready-Placed_but}
use utk.Scheduler.Calls.{sched_lock_thread, waits_for, sched_unlock_thread}
use utk.Scheduler.Blocking.{blocks-IsSched, blocks-own, schedule_int-elects}

waiting_still :
    (state : State)
    → is_waiting state ≡ true
    → (is_sleeping state ≡ false) × (is_ready state ≡ false) × (is_running state ≡ false)
waiting_still running e = absurd cc
waiting_still sleeping e = absurd cc
waiting_still ready e = absurd cc
waiting_still zombie e = absurd cc
waiting_still joining e = absurd cc
waiting_still copying e = absurd cc
waiting_still waiting e = (refl, refl, refl)

-- The thread `node` is ready and in the queue of its priority.
pub record Unlocked (node : ℕ) (s : Sched) (r : Error × Sched) : Type 0 where
  pub error : r.0 ≡ no_err
  pub sched : IsSched r.1
  pub queued : mem node (r.1.active_threads_table (priority_of (s.threads node))) ≡ true

pub sched_unlock_thread-Unlocked :
    (node block_type now : ℕ) (s : Sched) (t : Thread)
    → IsSched s
    → s.threads node ≡ some t
    → (node == s.idle_node) ≡ false
    → waits_for t block_type ≡ true
    → Returns (Unlocked node s) (sched_unlock_thread node block_type false now s)
unfolding sched_unlock_thread
sched_unlock_thread-Unlocked node block_type now s t is here busy waits =
    let (awake_now, unready, idle_now) = waiting_still t.state (ground (arith, waits)) in
    let out = only s.active_thread_node in
    let gone : mem node s.sleeping_threads_table ≡ false =
      is.placed.sleepers node
      ∙ ap (λ o. not (out node) && asleep o) here
      ∙ ground (arith, awake_now) in
    let (step, placed) =
      push_ready-Placed_but s node t here out is.placed out gone (λ id _. refl) unready in
    rw (sched_unlock_thread, here, busy, waits, step)
      (returns (record {
        error = refl;
        sched = record {
          placed = placed;
          active = elim (Bool-cases (s.active_thread_node == node)) [
            | inl it ↦ (with_state t ready, rw it refl)
            | inr other ↦ (is.active.0, rw other is.active.1)
          ];
          idle = rw (ne→== s.idle_node node (λ e. ==→ne node s.idle_node busy (sym e))) is.idle;
        };
        queued =
            ap
              (λ o. mem node (
                at s.active_threads_table t.priority (node ∷ s.active_threads_table t.priority)
                  (priority_of o)))
              here
            ∙ rw (==_refl t.priority, ==_refl node) refl;
      }))

-- The interrupts that run other threads while one waits, by the times that they read.
pub schedules : List ℕ → Sched → Run Sched
unfolding schedule_int
schedules [] s = ok s
schedules (now ∷ times) s = schedule_int now s >>= schedules times

pub record Waits (node : ℕ) (s s' : Sched) : Type 0 where
  pub sched : IsSched s'
  pub same : s'.threads node ≡ s.threads node
  pub idle : s'.idle_node ≡ s.idle_node

-- A thread that neither runs, nor is ready or asleep is left as it is.
pub schedules-Waits :
    (times : List ℕ) (node : ℕ) (s : Sched)
    → IsSched s
    → live (s.threads node) ≡ false
    → Returns (Waits node s) (schedules times s)
unfolding schedules
schedules-Waits [] node s is dead = returns (record { sched = is; same = refl; idle = refl })
schedules-Waits (now ∷ times) node s is dead = bind _ (schedule_int-elects now s is) (λ s1 e.
    mono (schedules-Waits times node s1 e.sched (e.kept.alive node ∙ dead)) (λ s2 w. record {
      sched = w.sched;
      same = w.same ∙ e.kept.untouched node dead;
      idle = w.idle ∙ e.kept.idle;
    }))

-- A thread locks itself, others run, and one of them unlocks it.
pub lock_and_unlock : (block_type : ℕ) (times : List ℕ) → Sched → Run (Error × Sched)
unfolding sched_lock_thread sched_unlock_thread schedules
lock_and_unlock block_type times s = sched_lock_thread block_type s >>= λ (locked, s1).
    schedules times s1 >>= λ s2. elim locked [
      | none ↦ fault
      | some node ↦ sched_unlock_thread node block_type false 0 s2
    ]

-- A running thread that is not the idle one and locks itself with sched_lock_thread, from a
-- state in order, can be unlocked after any number of scheduling interrupts: sched_unlock_thread
-- with the same reason, asked not to schedule, returns no_err in a state in order, with the node
-- of the thread in the queue of its priority.
pub lock_and_unlock-Unlocked :
    (block_type : ℕ) (times : List ℕ) (s : Sched)
    → IsSched s
    → runs (s.threads s.active_thread_node) ≡ true
    → (s.active_thread_node == s.idle_node) ≡ false
    → Returns (Unlocked s.active_thread_node s) (lock_and_unlock block_type times s)
unfolding lock_and_unlock
lock_and_unlock-Unlocked block_type times s is runs_now busy =
    let (t, here) = is.active in
    let t' = record t { state = waiting; block_type = block_type } in
    let s1 = set_thread s s.active_thread_node t' in
    let own = blocks-own s is runs_now busy t' refl refl in
    rw (busy, here)
      (bind _
        (schedules-Waits times s.active_thread_node s1
          (blocks-IsSched s is runs_now busy t' refl refl) (ap live own))
        (λ s2 w.
          let here2 = w.same ∙ own in
          mono
            (sched_unlock_thread-Unlocked s.active_thread_node block_type 0 s2 t' w.sched here2
              (ap (λ i. s.active_thread_node == i) w.idle ∙ busy) (==_refl block_type))
            (λ r u. record {
              error = u.error;
              sched = u.sched;
              queued =
                  subst (λ o. mem s.active_thread_node (r.1.active_threads_table o) ≡ true)
                    (ap priority_of here2 ∙ sym (ap priority_of here)) u.queued;
            })))
