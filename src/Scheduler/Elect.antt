-- ===== src/Scheduler/Elect.antt =====
-- select_thread of scheduler.c elects a thread of the highest priority that is ready.
use utk.Scheduler.Kept.{Dozes-trans, Dozes, time-Kept, Held, Kept-trans, Kept}
use utk.Prelude.{
  Option, Returns, arith, bind, length, mono, none, refl, some, true, ℕ, ◌+◌, ◌≡◌, ◌≤◌,
}
use utk.Scheduler.{Sched, Thread, lowest_priority, select_thread, start_elected}
use utk.Scheduler.Valid.{priority_of, IsSched, asleep, in_range, ready_at, runs}
use utk.Scheduler.Wake.{wake_loop-Woken}
use utk.Scheduler.Start.{start_elected-Started}
use utk.Scheduler.Resume.{requeue-Requeued}

-- What is found is the last node of the first queue that has one.

ready_low :
    (k : ℕ) (o : Option Thread) → ready_at k o ≡ true → in_range o ≡ true → k ≤ lowest_priority
ready_low k none r low = absurd cc
ready_low k (some t) r low = ground (arith, r, low)

running_thread : (o : Option Thread) → runs o ≡ true → (t : Thread) × (o ≡ some t)
running_thread none e = absurd cc
running_thread (some t) e = (t, refl)

Held-Kept :
    {now : ℕ} {s s' : Sched} (id : ℕ)
    → Kept s s'
    → ((i : ℕ) → asleep (s.threads i) ≡ true → asleep (s'.threads i) ≡ true)
    → Held now s id
    → Held now s' id
Held-Kept id kept dozes (first, sleeps, late, low) = (
  first,
  dozes first sleeps,
  omega (arith, time-Kept kept first),
  omega (arith, time-Kept kept first, time-Kept kept id),
)

pub record Elected (now : ℕ) (s s' : Sched) : Type 0 where
  pub sched : IsSched s'
  pub kept : Kept s s'
  pub running_now : runs (s'.threads s'.active_thread_node) ≡ true
  pub highest :
      (k id : ℕ)
      → ready_at k (s'.threads id) ≡ true
      → priority_of (s'.threads s'.active_thread_node) ≤ k
  pub dozes : Dozes now s s'
  pub late : (id : ℕ) → asleep (s'.threads id) ≡ true → Held now s' id

-- select_thread, from a state in order, ends with no fault and no panic in a state in order. A
-- thread runs, and no ready thread has a higher priority. For every thread that sleeps, due or
-- not, some thread sleeps that is to wake up now or later and whose time, modulo 2^32, is not
-- larger. A thread that slept and is to wake up now or later still sleeps. No thread is lost,
-- and none changes but in its state.
pub select_thread-elects :
    (now : ℕ) (s : Sched) → IsSched s → Returns (Elected now s) (select_thread now s)
unfolding select_thread
select_thread-elects now s is = bind _ (requeue-Requeued s is) (λ s1 requeued.
    bind start_elected
      (wake_loop-Woken (length s1.sleeping_threads_table + 1) now s1 requeued.placed (omega arith))
      (λ s2 woken.
        let r = woken.stays _ s.idle_node (requeued.readied s.idle_node is.idle) in
        mono
          (start_elected-Started s2 woken.placed _ s.idle_node
            (ready_low _ (s2.threads s.idle_node) r (woken.placed.bounded s.idle_node)) r)
          (λ s3 started. record {
            sched = record {
              placed = started.placed;
              active = running_thread (s3.threads s3.active_thread_node) started.running_now;
              idle =
                  rw (started.kept.idle, woken.kept.idle, requeued.kept.idle)
                    (started.steadied _ s.idle_node r);
            };
            kept = Kept-trans requeued.kept (Kept-trans woken.kept started.kept);
            running_now = started.running_now;
            highest = started.highest;
            dozes = λ id a until. started.dozes id (
                Dozes-trans now s s1 s2 requeued.kept (λ i b _. requeued.dozes i b) woken.dozes id a
                  until);
            late = λ id a.
                Held-Kept id started.kept started.dozes
                  (woken.late id (started.asleep_before id a));
          })))
