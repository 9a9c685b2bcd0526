-- ===== src/Scheduler/Blocking.antt =====
-- What a thread that blocks in scheduler.c can rely on.
use utk.Prelude.{
  ==_refl, ==→eq, ==→ne, Bool-cases, Error, Returns, ap, arith, bind, false, inl, inr, leb, ne→==,
  no_err, refl, returns, some, sym, true, ℕ, ◌%◌, ◌*◌, ◌+◌, ◌==◌, ◌^◌, ◌∙◌, ◌≡◌, ◌≤◌,
}
use utk.Scheduler.{lowest_priority, sleeping, set_thread, at, Thread, schedule_int, Sched}
use utk.Scheduler.Valid.{
  runs, asleep, wakes_at, ready_at, steady, in_range, is_ready, is_running, IsSched,
}
use utk.Scheduler.Requeue.{running_unready}
use utk.Scheduler.Elect.{Elected, select_thread-elects}
use utk.Scheduler.Kept.{time-Kept, Held}
use utk.Scheduler.Calls.{sched_sleep}

-- The count of the schedules is read by nothing here.
pub counted : (s : Sched) (n : ℕ) → IsSched s → IsSched (record s { schedule_count = n })
counted s n is = record {
  placed = record {
    tables = is.placed.tables;
    sleepers = is.placed.sleepers;
    still = is.placed.still;
    bounded = is.placed.bounded;
    each = is.placed.each;
    once = is.placed.once;
    sorted = is.placed.sorted;
    times = is.placed.times;
  };
  active = is.active;
  idle = is.idle;
}

pub schedule_int-elects :
    (now : ℕ) (s : Sched) → IsSched s → Returns (Elected now s) (schedule_int now s)
unfolding schedule_int
schedule_int-elects now s is = bind _ (select_thread-elects now s is) (λ s' e. returns (record {
  sched = counted s' ((s'.schedule_count + 1) % 2 ^ 64) e.sched;
  kept = record {
    identity = e.kept.identity;
    alive = e.kept.alive;
    untouched = e.kept.untouched;
    idle = e.kept.idle;
  };
  running_now = e.running_now;
  highest = e.highest;
  dozes = e.dozes;
  late = e.late;
}))

module _ (s : Sched) (is : IsSched s) (t t' : Thread)
    (here : s.threads s.active_thread_node ≡ some t) (runs_now : is_running t.state ≡ true)
    (blocked : is_ready t'.state ≡ false) (low : in_range (some t') ≡ true) where
  abbrev active_node : ℕ
  active_node = s.active_thread_node

  of_node : (id : ℕ) → (id == active_node) ≡ true → s.threads id ≡ some t
  of_node id it = ap s.threads (==→eq id active_node it) ∙ here

  -- The thread that runs changes, but is not made ready.
  pub changed-IsSched :
      steady (at s.threads active_node (some t') s.idle_node) ≡ true
      → IsSched (set_thread s active_node t')
  changed-IsSched idle = record {
    placed = record {
      tables = λ p id. elim (Bool-cases (id == active_node)) [
        | inl it ↦ rw it (
            is.placed.tables p id
            ∙ ap (ready_at p) (of_node id it)
            ∙ ground (arith, running_unready t.state runs_now, blocked))
        | inr other ↦ rw other (is.placed.tables p id)
      ];
      sleepers = λ id. is.placed.sleepers id ∙ (elim (Bool-cases (id == active_node)) [
        | inl it ↦ rw it refl
        | inr other ↦ rw other refl
      ]);
      still = λ id other. rw other (is.placed.still id other);
      bounded = λ id. elim (Bool-cases (id == active_node)) [
        | inl it ↦ rw it low
        | inr other ↦ rw other (is.placed.bounded id)
      ];
      each = is.placed.each;
      once = is.placed.once;
      sorted = is.placed.sorted;
      times = λ id m. elim (Bool-cases (id == active_node)) [
        | inl it ↦ absurd (ground (arith, is.placed.sleepers id, it, m))
        | inr other ↦ rw other (is.placed.times id m)
      ];
    };
    active = (t', rw (==_refl active_node) refl);
    idle = idle;
  }

-- The thread that runs, which is not the idle one, blocks.
module _ (s : Sched) (is : IsSched s) (runs_now : runs (s.threads s.active_thread_node) ≡ true)
    (busy : (s.active_thread_node == s.idle_node) ≡ false) (t' : Thread)
    (blocked : is_ready t'.state ≡ false) (same : t'.priority ≡ is.active.0.priority) where
  abbrev blocks : Sched
  blocks = set_thread s s.active_thread_node t'

  pub blocks-IsSched : IsSched blocks
  blocks-IsSched =
      let (t, here) = is.active in
      changed-IsSched s is t t' here (sym (ap runs here) ∙ runs_now) blocked
        (ap (λ p. leb p lowest_priority) same
          ∙ sym (ap in_range here)
          ∙ is.placed.bounded s.active_thread_node)
        (rw
          (ne→== s.idle_node s.active_thread_node
            (λ e. ==→ne s.active_thread_node s.idle_node busy (sym e)))
          is.idle)

  pub blocks-own : blocks.threads s.active_thread_node ≡ some t'
  blocks-own = rw (==_refl s.active_thread_node) refl

-- When the thread that called sched_sleep is to wake up.
abbrev pub end_of_sleep : (now time_ms : ℕ) → ℕ
end_of_sleep now time_ms = (now + time_ms * 1000000 % 2 ^ 64) % 2 ^ 64

-- The thread `node` sleeps on after the call unless its time is over when the next one is chosen.
pub record Slept (until later node : ℕ) (s : Sched) (r : Error × Sched) : Type 0 where
  pub error : r.0 ≡ no_err
  pub sched : IsSched r.1
  pub time : wakes_at (r.1.threads node) ≡ until
  pub sleeps_on : later ≤ until → asleep (r.1.threads node) ≡ true
  pub held : asleep (r.1.threads node) ≡ true → Held later r.1 node

-- sched_sleep, called by a running thread that is not the idle one, from a state in order,
-- returns no_err in a state in order: the wake-up time of the thread is the one that it asked
-- for, modulo 2^64, and the thread still sleeps if that time is not over when the next thread is
-- chosen. If it sleeps, some thread does whose time is not over and, modulo 2^32, not larger.
pub sched_sleep-Slept :
    (now later time_ms : ℕ) (s : Sched)
    → IsSched s
    → runs (s.threads s.active_thread_node) ≡ true
    → (s.active_thread_node == s.idle_node) ≡ false
    → Returns
        (Slept (end_of_sleep now time_ms) later s.active_thread_node s)
        (sched_sleep now later time_ms s)
unfolding sched_sleep
sched_sleep-Slept now later time_ms s is runs_now busy =
    let (t, here) = is.active in
    let t' = record t { state = sleeping; wakeup_time = end_of_sleep now time_ms } in
    let s1 = set_thread s s.active_thread_node t' in
    let own = blocks-own s is runs_now busy t' refl refl in
    rw (busy, here)
      (bind _ (schedule_int-elects later s1 (blocks-IsSched s is runs_now busy t' refl refl))
        (λ s' e. returns (record {
          error = refl;
          sched = e.sched;
          time = time-Kept e.kept s.active_thread_node ∙ ap wakes_at own;
          sleeps_on = λ until. e.dozes s.active_thread_node (ap asleep own) (rw own until);
          held = e.late s.active_thread_node;
        })))
