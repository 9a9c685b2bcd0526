-- ===== src/Scheduler/Kept.antt =====
-- What the choice of a thread leaves alone in scheduler.c: no thread is lost, made or changed but for its state.
use utk.Prelude.{
  ==→eq, Bool, Bool-cases, Option, ap, arith, false, inl, inr, none, refl, some, sym, true, ℕ, ◌%◌,
  ◌==◌, ◌^◌, ◌||◌, ◌∙◌, ◌≡◌, ◌≤◌,
}
use utk.Scheduler.{Sched, State, Thread, at, ready, with_state}
use utk.Scheduler.Valid.{asleep, is_ready, is_running, is_sleeping, ready_at, wakes_at}

-- What a thread is but for its state.
abbrev pub identity_of : Option Thread → Option (ℕ × ℕ × ℕ × ℕ)
identity_of none = none
identity_of (some t) = some (t.tid, t.priority, t.block_type, t.wakeup_time)

-- A thread that the scheduler has to run again.
abbrev pub live : Option Thread → Bool
live none = false
live (some t) = is_ready t.state || is_running t.state || is_sleeping t.state

-- No thread is lost, made or given another priority or time.
pub record Kept (s s' : Sched) : Type 0 where
  pub identity : (id : ℕ) → identity_of (s'.threads id) ≡ identity_of (s.threads id)
  pub alive : (id : ℕ) → live (s'.threads id) ≡ live (s.threads id)
  pub untouched : (id : ℕ) → live (s.threads id) ≡ false → s'.threads id ≡ s.threads id
  pub idle : s'.idle_node ≡ s.idle_node

pub Kept-refl : (s : Sched) → Kept s s
Kept-refl s = record {
  identity = λ id. refl;
  alive = λ id. refl;
  untouched = λ id _. refl;
  idle = refl;
}

pub Kept-trans : {s s' s'' : Sched} → Kept s s' → Kept s' s'' → Kept s s''
Kept-trans k l = record {
  identity = λ id. l.identity id ∙ k.identity id;
  alive = λ id. l.alive id ∙ k.alive id;
  untouched = λ id dead. l.untouched id (k.alive id ∙ dead) ∙ k.untouched id dead;
  idle = l.idle ∙ k.idle;
}

-- The change of a live thread's state.
pub at-Kept :
    (s s' : Sched) (node : ℕ) (t : Thread) (state : State)
    → s.threads node ≡ some t
    → live (some t) ≡ true
    → live (some (with_state t state)) ≡ true
    → ((id : ℕ) → s'.threads id ≡ at s.threads node (some (with_state t state)) id)
    → s'.idle_node ≡ s.idle_node
    → Kept s s'
at-Kept s s' node t state here was now same idle = record {
  identity = λ id. ap identity_of (same id) ∙ (elim (Bool-cases (id == node)) [
    | inl it ↦ rw it (sym (ap identity_of (ap s.threads (==→eq id node it) ∙ here)))
    | inr other ↦ rw other refl
  ]);
  alive = λ id. ap live (same id) ∙ (elim (Bool-cases (id == node)) [
    | inl it ↦ rw it (now ∙ sym (ap live (ap s.threads (==→eq id node it) ∙ here) ∙ was))
    | inr other ↦ rw other refl
  ]);
  untouched = λ id dead. elim (Bool-cases (id == node)) [
    | inl it ↦ absurd (cc (ap live (ap s.threads (==→eq id node it) ∙ here) ∙ was, dead))
    | inr other ↦ same id ∙ rw other refl
  ];
  idle = idle;
}

-- What is ready stays ready.
abbrev pub Stays : Sched → Sched → Type 0
Stays s s' = (p id : ℕ) → ready_at p (s.threads id) ≡ true → ready_at p (s'.threads id) ≡ true

pub at-Stays :
    (s s' : Sched) (node : ℕ) (t : Thread)
    → s.threads node ≡ some t
    → ((id : ℕ) → s'.threads id ≡ at s.threads node (some (with_state t ready)) id)
    → Stays s s'
at-Stays s s' node t here same p id r =
    ap (ready_at p) (same id) ∙ (elim (Bool-cases (id == node)) [
      | inl it ↦ rw it (ground (arith, r, ap (ready_at p) (ap s.threads (==→eq id node it) ∙ here)))
      | inr other ↦ rw other r
    ])

abbrev pub time_of : Option (ℕ × ℕ × ℕ × ℕ) → ℕ
time_of none = 0
time_of (some (_, _, _, wakeup_time)) = wakeup_time

pub wakes_at-identity : (o : Option Thread) → wakes_at o ≡ time_of (identity_of o)
wakes_at-identity none = refl
wakes_at-identity (some t) = refl

pub time-Kept :
    {s s' : Sched} → Kept s s' → (id : ℕ) → wakes_at (s'.threads id) ≡ wakes_at (s.threads id)
time-Kept {s} {s'} k id =
    wakes_at-identity (s'.threads id)
    ∙ ap time_of (k.identity id)
    ∙ sym (wakes_at-identity (s.threads id))

-- A thread that sleeps until later than now, or until now, still sleeps.
abbrev pub Dozes : (now : ℕ) → Sched → Sched → Type 0
Dozes now s s' =
    (id : ℕ)
    → asleep (s.threads id) ≡ true
    → now ≤ wakes_at (s.threads id)
    → asleep (s'.threads id) ≡ true

pub Dozes-trans :
    (now : ℕ) (s s' s'' : Sched) → Kept s s' → Dozes now s s' → Dozes now s' s'' → Dozes now s s''
Dozes-trans now s s' s'' k d e id a until =
    e id (d id a until) (omega (arith, until, time-Kept k id))

-- A thread that is not due and whose time has low 32 bits no larger than those of `id`: the reason
-- that `id` may sleep on, be its time over or not.
abbrev pub Held : (now : ℕ) → Sched → (id : ℕ) → Type 0
Held now s id =
    (first : ℕ) × (asleep (s.threads first) ≡ true)
    × (now ≤ wakes_at (s.threads first))
    × (wakes_at (s.threads first) % 2 ^ 32 ≤ wakes_at (s.threads id) % 2 ^ 32)
