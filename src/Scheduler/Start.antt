-- ===== src/Scheduler/Start.antt =====
-- A thread of the highest priority that is ready is taken from its queue and runs, in scheduler.c.
use utk.Scheduler.Kept.{at-Kept, Kept}
use utk.Prelude.{
  ==_refl, ==→eq, Bool-cases, List, Option, Option-cases, Returns, [], ap, arith, false, inl, inr,
  ltb, ltb→le, ltb→lt, refl, returns, some, subst, suc, sym, true, zero, ℕ, ◌%◌, ◌++◌, ◌+◌, ◌<◌,
  ◌==◌, ◌^◌, ◌∙◌, ◌∷◌, ◌≡◌, ◌≤◌,
}
use utk.KQueue.Members.{mem, Distinct, mem-append, mem_of_inner}
use utk.Sequence.Laws.{pop_last-cases, Distinct-last}
use utk.Scheduler.{
  Sched, Thread, at, elect, lowest_priority, running, set_thread, start_elected, with_state,
}
use utk.Scheduler.Valid.{
  priority_of, Placed, asleep, in_range, is_sleeping, nobody, only, ready_at, runs, steady,
  wakes_at,
}
use utk.Scheduler.Wake.{sleeping_unready}

pub record Found (s : Sched) (i q : ℕ) (r : Option (ℕ × Sched)) : Type 0 where
  pub p : ℕ
  pub rest : List ℕ
  pub node : ℕ
  pub parts : s.active_threads_table p ≡ rest ++ node ∷ []
  pub result : r ≡ some (node, record s { active_threads_table = at s.active_threads_table p rest })
  pub least : p ≤ q
  pub before : (k : ℕ) → i ≤ k → k < p → s.active_threads_table k ≡ []

elect-Found :
    (left i : ℕ) (s : Sched) (q id : ℕ)
    → i ≤ q
    → q < i + left
    → mem id (s.active_threads_table q) ≡ true
    → Found s i q (elect left i s)
unfolding elect
elect-Found zero i s q id low high m = absurd (omega arith)
elect-Found (suc left) i s q id low high m = elim (pop_last-cases (s.active_threads_table i)) [
  | inl (nil, e) ↦ elim (Bool-cases (i == q)) [
    | inl it ↦ absurd (cc (ap (mem id) (ap s.active_threads_table (sym (==→eq i q it)) ∙ nil), m))
    | inr other ↦
        let found = elect-Found left (i + 1) s q id (ground (arith, low, other)) (omega arith) m in
        rw (elect, e)
          (record {
            p = found.p;
            rest = found.rest;
            node = found.node;
            parts = found.parts;
            result = found.result;
            least = found.least;
            before = λ k a b. elim (Bool-cases (i == k)) [
              | inl now ↦ ap s.active_threads_table (sym (==→eq i k now)) ∙ nil
              | inr later ↦ found.before k (ground (arith, a, later)) b
            ];
          })
  ]
  | inr (rest, node, parts, e) ↦ record {
    p = i;
    rest = rest;
    node = node;
    parts = parts;
    result = rw (elect, e) refl;
    least = low;
    before = λ k a b. absurd (omega (arith, a, b));
  }
]

-- A thread runs, and no ready thread has a higher priority, which is a lower number.
pub record Started (s s' : Sched) : Type 0 where
  pub placed : Placed s' (only s'.active_thread_node)
  pub kept : Kept s s'
  pub running_now : runs (s'.threads s'.active_thread_node) ≡ true
  pub highest :
      (k id : ℕ)
      → ready_at k (s'.threads id) ≡ true
      → priority_of (s'.threads s'.active_thread_node) ≤ k
  pub dozes : (id : ℕ) → asleep (s.threads id) ≡ true → asleep (s'.threads id) ≡ true
  pub steadied : (k id : ℕ) → ready_at k (s.threads id) ≡ true → steady (s'.threads id) ≡ true
  pub asleep_before :
      (id : ℕ) → asleep (s'.threads id) ≡ true → mem id s.sleeping_threads_table ≡ true

module _ (s : Sched) (is : Placed s nobody) (p : ℕ) (rest : List ℕ) (node : ℕ)
    (parts : s.active_threads_table p ≡ rest ++ node ∷ []) where
  standing : ready_at p (s.threads node) ≡ true
  standing = sym (is.tables p node) ∙ ap (mem node) parts ∙ mem_of_inner node rest []

  apart : Distinct rest × (mem node rest ≡ false)
  apart = Distinct-last rest node (subst Distinct parts (is.each p))

  module _ (t : Thread) (here : s.threads node ≡ some t) where
    abbrev chosen : Sched
    chosen =
        let s' = record s { active_threads_table = at s.active_threads_table p rest } in
        record (set_thread s' node (with_state t running)) { active_thread_node = node }

    of_node : (id : ℕ) → (id == node) ≡ true → s.threads id ≡ some t
    of_node id it = ap s.threads (==→eq id node it) ∙ here

    level : ready_at p (some t) ≡ true
    level = sym (ap (ready_at p) here) ∙ standing

    awake_now : is_sleeping t.state ≡ false
    awake_now = elim (Bool-cases (is_sleeping t.state)) [
      | inl it ↦ absurd (ground (arith, sleeping_unready t.state it, level))
      | inr other ↦ other
    ]

    -- The elected thread is taken from its queue and runs.
    chosen-Placed : Placed chosen (only node)
    chosen-Placed = record {
      tables = λ k id. elim (Bool-cases (k == p)) [
        | inl it ↦ elim (Bool-cases (id == node)) [
          | inl self ↦ rw (it, self) (ap (λ j. mem j rest) (==→eq id node self) ∙ apart.1)
          | inr other ↦
              rw (it, other)
                (sym (ground (arith, ap (mem id) parts, mem-append id rest (node ∷ []), other))
                  ∙ is.tables p id
                  ∙ ap (λ q. ready_at q (s.threads id)) (sym (==→eq k p it)))
        ]
        | inr elsewhere ↦ elim (Bool-cases (id == node)) [
          | inl self ↦
              rw (elsewhere, self)
                (is.tables k id
                  ∙ ap (ready_at k) (of_node id self)
                  ∙ (ground (arith, level, elsewhere)))
          | inr other ↦ rw (elsewhere, other) (is.tables k id)
        ]
      ];
      sleepers = λ id. is.sleepers id ∙ (elim (Bool-cases (id == node)) [
        | inl self ↦ rw self (ap asleep (of_node id self) ∙ awake_now)
        | inr other ↦ rw other refl
      ]);
      still = λ id other. rw other (is.still id refl);
      bounded = λ id. elim (Bool-cases (id == node)) [
        | inl self ↦ rw self (sym (ap in_range here) ∙ is.bounded node)
        | inr other ↦ rw other (is.bounded id)
      ];
      each = λ k. elim (Bool-cases (k == p)) [
        | inl it ↦ rw it apart.0
        | inr elsewhere ↦ rw elsewhere (is.each k)
      ];
      once = is.once;
      sorted = is.sorted;
      times = λ id m. elim (Bool-cases (id == node)) [
        | inl self ↦ rw self (is.times id m ∙ ap (λ o. wakes_at o % 2 ^ 32) (of_node id self))
        | inr other ↦ rw other (is.times id m)
      ];
    }

    level_of : t.priority ≡ p
    level_of = ==→eq t.priority p (ground (arith, level))

    chosen-Started : ((k : ℕ) → k < p → s.active_threads_table k ≡ []) → Started s chosen
    chosen-Started before = record {
      placed = chosen-Placed;
      kept = at-Kept s chosen node t running here (ground (arith, level)) refl (λ id. refl) refl;
      running_now = rw (==_refl node) refl;
      highest = λ k id r. rw (==_refl node) (elim (Bool-cases (ltb k p)) [
        | inl lower ↦
            let below = ltb→lt k p lower in
            let differ : (k == p) ≡ false = ground (arith, lower) in
            let gone : mem id (chosen.active_threads_table k) ≡ false =
              rw (differ, before k below) refl in
            absurd (cc (gone, chosen-Placed.tables k id ∙ r))
        | inr above ↦ omega (arith, level_of, ltb→le k p above)
      ]);
      dozes = λ id a. elim (Bool-cases (id == node)) [
        | inl self ↦ absurd (cc (ap asleep (of_node id self) ∙ awake_now, a))
        | inr other ↦ rw other a
      ];
      steadied = λ k id r. elim (Bool-cases (id == node)) [
        | inl self ↦ rw self refl
        | inr other ↦ rw other (ground (arith, r))
      ];
      asleep_before = λ id a. elim (Bool-cases (id == node)) [
        | inl self ↦ absurd (cc (rw self at a))
        | inr other ↦ is.sleepers id ∙ rw other at a
      ];
    }

pub start_elected-Started :
    (s : Sched)
    → Placed s nobody
    → (q id : ℕ) → q ≤ lowest_priority
    → ready_at q (s.threads id) ≡ true
    → Returns (Started s) (start_elected s)
unfolding start_elected
start_elected-Started s is q id low r =
    let found = elect-Found 64 0 s q id (omega arith) (omega arith) (is.tables q id ∙ r) in
    elim (Option-cases (s.threads found.node)) [
      | inl missing ↦ absurd (
          cc (
            ap (ready_at found.p) missing,
            standing s is found.p found.rest found.node found.parts,
          ))
      | inr (t, here) ↦
          rw (start_elected, found.result, here)
            (returns (
              chosen-Started s is found.p found.rest found.node found.parts t here
                (λ k b. found.before k (omega arith) b)))
    ]
