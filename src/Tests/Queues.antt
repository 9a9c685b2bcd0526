-- ===== src/Tests/Queues.antt =====
-- kqueue.c on a queue of two nodes.
use utk.Prelude.{
  List, Returns, [], arith, false, if◌then◌else◌, none, ok, refl, some, true, ◌==◌, ◌∷◌, ◌≡◌,
}
use utk.KQueue.{Node, Queue, Nodes, kqueue_push_prio, kqueue_find}
use utk.KQueue.Valid.{IsQueue}
use utk.KQueue.Push.{Pushed}
use utk.KQueue.Priority.{
  prio_of, Descending, insert_prio, prioritised, kqueue_push_prio-insert, kqueue_push_prio_sorted,
}
use utk.KQueue.Find.{find_first, kqueue_find-first}
use utk.Sequence.Refinement.{
  remove, pop, kqueue_run-Implements, push_prio_of, kqueue_run, is_some, spec_step, Op, Implements,
  spec_run, Represents, Spec, all_allowed,
}
use utk.Queue.Refinement.{queue_run-Implements, queue_run, all_fine}
use utk.Sequence.{push_prio, pop_last}

abbrev head_node : Node
head_node = record { next = 20; prev = 0; enlisted = true; priority = 9; value = 1 }

abbrev tail_node : Node
tail_node = record { next = 0; prev = 10; enlisted = true; priority = 4; value = 2 }

abbrev lone_node : Node
lone_node = record { next = 0; prev = 0; enlisted = false; priority = 0; value = 3 }

-- The nodes 10 and 20 stand in the queue, 30 does not.
abbrev two_nodes : Nodes
two_nodes a =
    if a == 10
    then some head_node
    else if a == 20
    then some tail_node
    else if a == 30
    then some lone_node
    else none

abbrev two_queue : Queue
two_queue = record { head = 10; tail = 20; size = 2 }

two-IsQueue : IsQueue two_nodes two_queue (10 ∷ 20 ∷ [])
two-IsQueue = record {
  chain = (
    refl,
    omega arith,
    (head_node, refl, refl, refl, (refl, omega arith, (tail_node, refl, refl, refl, (refl, refl)))),
  );
  distinct = (refl, (refl, tt));
  counted = omega arith;
}

kqueue_push_prio-insert_example :
    Pushed
      (prioritised two_nodes 30 6 lone_node)
      two_queue
      (insert_prio (prioritised two_nodes 30 6 lone_node) 6 30 (10 ∷ 20 ∷ []))
      (kqueue_push_prio two_nodes 30 (some two_queue) 6)
kqueue_push_prio-insert_example =
    kqueue_push_prio-insert two_nodes two_queue 30 6 lone_node (omega arith) refl (omega arith)
      (10 ∷ 20 ∷ []) refl two-IsQueue

kqueue_find-first_example :
    kqueue_find two_nodes (some two_queue) 2 ≡ ok (find_first two_nodes 2 (10 ∷ 20 ∷ []))
kqueue_find-first_example = kqueue_find-first two_nodes two_queue 2 (10 ∷ 20 ∷ []) two-IsQueue

kqueue_push_prio_sorted_example :
    (p : Pushed
      (prioritised two_nodes 30 6 lone_node)
      two_queue
      (insert_prio (prioritised two_nodes 30 6 lone_node) 6 30 (10 ∷ 20 ∷ []))
      (kqueue_push_prio two_nodes 30 (some two_queue) 6))
    × Descending p.nodes (insert_prio (prioritised two_nodes 30 6 lone_node) 6 30 (10 ∷ 20 ∷ []))
kqueue_push_prio_sorted_example =
    kqueue_push_prio_sorted two_nodes two_queue 30 6 lone_node (omega arith) refl (omega arith)
      (10 ∷ 20 ∷ []) refl two-IsQueue (omega arith, tt)

-- What a client knows of that queue.
abbrev two_spec : Spec
two_spec = record {
  items = 10 ∷ 20 ∷ [];
  prio = λ a. prio_of (two_nodes a);
  allocated = λ a. is_some (two_nodes a);
  counter = 2;
}

two-Represents : Represents two_nodes two_queue two_spec
two-Represents = record {
  queue = two-IsQueue;
  counter = refl;
  word = omega arith;
  allocated = λ a. refl;
  prio = λ a. refl;
}

-- 30 enters between the two, the last is popped, and the first removed.
abbrev some_calls : List Op
some_calls = push_prio_of 30 5 ∷ pop ∷ remove 10 ∷ []

some_calls-allowed : all_allowed some_calls two_spec ≡ true
unfolding all_allowed spec_step pop_last push_prio
some_calls-allowed = refl

kqueue_run-Implements_example :
    Returns (Implements (spec_run some_calls two_spec)) (kqueue_run some_calls two_nodes two_queue)
kqueue_run-Implements_example =
    kqueue_run-Implements some_calls two_nodes two_queue two_spec two-Represents some_calls-allowed

queue_run-Implements_example :
    Returns
      (λ (es, r). (all_fine es ≡ true) × Implements (spec_run some_calls two_spec) r)
      (queue_run some_calls two_nodes two_queue)
queue_run-Implements_example =
    queue_run-Implements some_calls two_nodes two_queue two_spec two-Represents some_calls-allowed

-- What comes out is 20, and 30 is left.
some_calls-spec : (spec_run some_calls two_spec).0 ≡ 0 ∷ 20 ∷ 0 ∷ []
unfolding spec_run spec_step pop_last push_prio
some_calls-spec = refl

some_calls-left : (spec_run some_calls two_spec).1.items ≡ 30 ∷ []
unfolding spec_run spec_step pop_last push_prio
some_calls-left = refl
