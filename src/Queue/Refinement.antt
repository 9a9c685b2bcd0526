-- ===== src/Queue/Refinement.antt =====
-- Any calls of queue.c that keep the rules of a queue return no error and do to its nodes what the
-- operations on the sequence say.
use utk.Prelude.{
  Bool, Error, List, Option, Returns, Run, [], ap₂, arith, bind, endless, fault, is_no_err, none,
  ok, panicked, refl, returns, some, true, ℕ, ◌&&◌, ◌>>=◌, ◌∷◌, ◌≡◌,
}
use utk.KQueue.{Queue, Nodes}
use utk.Sequence.Refinement.{
  pop, spec_step, remove, step-Follows, Implements, Represents, push_prio_of, all_allowed, spec_run,
  kqueue_step, push, Op, Spec,
}
use utk.Queue.Agreement.{
  returned, refused, faulted, never, remove_in-Agree, pop_from-Agree, push_prio_into-Agree,
  push_into-Agree, refused, Agree,
}
use utk.Queue.{
  with_queue, push_into, push_prio_into, pop_from, remove_in, queue_remove, queue_pop,
  queue_push_prio, queue_push,
}

-- What a call leaves; no call makes the queue NULL.
abbrev still_there : Error × (ℕ × Option Queue × Nodes) → Run (Error × (ℕ × Queue × Nodes))
still_there (e, (out, none, n)) = fault
still_there (e, (out, some q, n)) = ok (e, (out, q, n))

abbrev no_output : Error × (Option Queue × Nodes) → Run (Error × (ℕ × Queue × Nodes))
no_output (e, (q, n)) = still_there (e, (0, q, n))

pub queue_step : Op → Nodes → Queue → Run (Error × (ℕ × Queue × Nodes))
queue_step (push node) n q = queue_push n node (some q) >>= no_output
queue_step (push_prio_of node priority) n q = queue_push_prio n node (some q) priority >>= no_output
queue_step pop n q = queue_pop n (some q) >>= still_there
queue_step (remove node) n q = queue_remove n (some q) node >>= no_output

present :
    (r : Run (Error × (Queue × Nodes)))
    → (r >>= with_queue >>= no_output) ≡ (r >>= λ (e, (q, n)). ok (e, (0, q, n)))
present (ok a) = refl
present fault = refl
present (panicked e) = refl
present endless = refl

present_popped :
    (r : Run (Error × (ℕ × Queue × Nodes)))
    → ((r >>= λ (e, (node, q, n)). ok (e, (node, some q, n))) >>= still_there) ≡ r
present_popped (ok a) = refl
present_popped fault = refl
present_popped (panicked e) = refl
present_popped endless = refl

Agree-map {ℓ κ} :
    {A : Type ℓ} {B : Type κ} (r : Run A) (r' : Run (Error × A)) (f : A → B)
    → Agree r r'
    → Agree (r >>= λ a. ok (f a)) (r' >>= λ (e, a). ok (e, f a))
Agree-map _ _ f returned = returned
Agree-map _ _ f (refused err) = refused err
Agree-map _ _ f faulted = faulted
Agree-map _ _ f never = never

step-Agree : (op : Op) (n : Nodes) (q : Queue) → Agree (kqueue_step op n q) (queue_step op n q)
unfolding kqueue_step queue_step queue_push queue_push_prio queue_pop queue_remove
step-Agree (push node) n q =
    rw (present (push_into n node q)) (Agree-map _ _ _ (push_into-Agree n node q))
step-Agree (push_prio_of node priority) n q =
    rw (present (push_prio_into n node q priority))
      (Agree-map _ _ _ (push_prio_into-Agree n node q priority))
step-Agree pop n q = rw (present_popped (pop_from n q)) (pop_from-Agree n q)
step-Agree (remove node) n q =
    rw (present (remove_in n q node)) (Agree-map _ _ _ (remove_in-Agree n q node))

-- A run of calls: the errors, the nodes that were popped, and what is left.
pub queue_run : List Op → Nodes → Queue → Run (List Error × (List ℕ × Queue × Nodes))
queue_run [] n q = ok ([], ([], q, n))
queue_run (op ∷ ops) n q = queue_step op n q >>= λ (e, (out, q', n')).
    queue_run ops n' q' >>= λ (es, (outs, q'', n'')). ok (e ∷ es, (out ∷ outs, q'', n''))

abbrev pub all_fine : List Error → Bool
all_fine [] = true
all_fine (e ∷ es) = is_no_err e && all_fine es

-- A call of queue.c where the same call of kqueue.c returns.
agreed {ℓ κ} :
    {A : Type ℓ} {P : A → Type κ} (r : Run A) (r' : Run (Error × A))
    → Agree r r'
    → Returns P r
    → Returns (λ (e, a). (is_no_err e ≡ true) × P a) r'
agreed _ _ returned (returns p) = returns (refl, p)
agreed _ _ (refused err) done = elim done [ ]
agreed _ _ faulted done = elim done [ ]
agreed _ _ never done = elim done [ ]

-- Any sequence of queue_push, queue_push_prio, queue_pop and queue_remove that keeps the rules
-- of a queue never faults or loops for ever and returns no error: the nodes that it pops and
-- what it leaves are those that the operations on the sequence of nodes give.
pub queue_run-Implements :
    (ops : List Op) (n : Nodes) (q : Queue) (s : Spec)
    → Represents n q s
    → all_allowed ops s ≡ true
    → Returns (λ (es, r). (all_fine es ≡ true) × Implements (spec_run ops s) r) (queue_run ops n q)
unfolding queue_run spec_run all_allowed
queue_run-Implements [] n q s rep may = returns (refl, (refl, rep))
queue_run-Implements (op ∷ ops) n q s rep may =
    bind _
      (agreed (kqueue_step op n q) (queue_step op n q) (step-Agree op n q)
        (step-Follows n q s rep op (ground (arith, may))))
      (λ (e, (out, q', n')) (fine, (same, rep')).
        bind _ (queue_run-Implements ops n' q' (spec_step op s).1 rep' (ground (arith, may)))
          (λ (es, (outs, q'', n'')) (all, (sames, rep'')).
            returns (ground (arith, fine, all), (ap₂ (λ x xs. x ∷ xs) same sames, rep''))))
