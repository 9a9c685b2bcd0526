-- ===== src/KQueue/Push.antt =====
-- kqueue_push of kqueue.c puts a node in front.
use utk.KQueue.Members.{mem_ne, mem}
use utk.Prelude.{
  List, Run, [], ap, arith, false, ne→==, not, ok, refl, some, sym, true, ℕ, ◌%◌, ◌+◌, ◌<◌, ◌==◌,
  ◌^◌, ◌||◌, ◌∙◌, ◌∷◌, ◌≡◌, ◌≢◌,
}
use utk.KQueue.{Node, Queue, Nodes, put, update, link, set_prev, enlist, push_first, kqueue_push}
use utk.KQueue.Segment.{Seg, put_self, put_other, update-some, frame-put, set_prev-Seg}
use utk.KQueue.Valid.{IsQueue, SamePayload, SamePayload-put, SamePayload-trans, enlisted_in-ok}

-- The outcome of a push that makes the list `xs`.
pub record Pushed (n : Nodes) (q : Queue) (xs : List ℕ) (run : Run (Queue × Nodes)) : Type 0 where
  pub queue : Queue
  pub nodes : Nodes
  pub runs : run ≡ ok (queue, nodes)
  pub holds : IsQueue nodes queue xs
  pub size : queue.size ≡ q.size + 1
  pub payloads : SamePayload n nodes

module _ (n : Nodes) (q : Queue) (node : ℕ) (y : Node) (ne : node ≢ 0) (here : n node ≡ some y)
    (room : q.size + 1 < 2 ^ 32) where
  pub push_first-Pushed : IsQueue n q [] → Pushed n q (node ∷ []) (push_first node q n)
  unfolding push_first
  push_first-Pushed is =
      let y1 : Node = link 0 0 y in
      let n1 = put n node (some y1) in
      let at1 : n1 node ≡ some y1 = put_self n node (some y1) in
      record {
        queue = record { head = node; tail = node; size = (q.size + 1) % 2 ^ 32 };
        nodes = put n1 node (some (enlist y1));
        runs =
            rw (update-some n node (link 0 0) y ne here)
              (enlisted_in-ok node (record q { head = node; tail = node }) n1 y1 ne at1 refl);
        holds = record {
          chain = (
            refl,
            ne,
            (enlist y1, put_self n1 node (some (enlist y1)), refl, refl, (refl, refl)),
          );
          distinct = (refl, tt);
          counted = omega arith;
        };
        size = omega arith;
        payloads =
            SamePayload-trans n n1 (put n1 node (some (enlist y1)))
              (SamePayload-put n node y y1 here refl)
              (SamePayload-put n1 node y1 (enlist y1) at1 refl);
      }

  push_onto :
      (x : ℕ) (xs : List ℕ)
      → mem node (x ∷ xs) ≡ false
      → IsQueue n q (x ∷ xs)
      → Pushed n q (node ∷ x ∷ xs) (kqueue_push n node (some q))
  unfolding kqueue_push
  push_onto x xs out is = go (is.chain)
    where
      go :
          Seg n 0 q.head (x ∷ xs) 0 q.tail
          → Pushed n q (node ∷ x ∷ xs) (kqueue_push n node (some q))
      go (at, xne, (z, zhere, back, on, rest)) =
          let apart = (mem_ne node x xs out).0 in
          let y1 : Node = link q.head 0 y in
          let n1 = put n node (some y1) in
          let z1 : n1 x ≡ some z = put_other n node x (some y1) (λ e. apart (sym e)) ∙ zhere in
          let n2 = put n1 x (some (set_prev node z)) in
          let y2 : n2 node ≡ some y1 =
            put_other n1 x node (some (set_prev node z)) apart ∙ put_self n node (some y1) in
          let n3 = put n2 node (some (enlist y1)) in
          let linked : update n1 q.head (set_prev node) ≡ ok n2 =
            ap (λ c. update n1 c (set_prev node)) at ∙ update-some n1 x (set_prev node) z xne z1 in
          let acyclic : (not (q.head == 0) || (q.head == 0) || true) ≡ true = ground arith in
          let nonempty : (q.head == 0) ≡ false = ne→== q.head 0 (λ e. xne (sym at ∙ e)) in
          let chain1 : Seg n1 0 q.head (x ∷ xs) 0 q.tail =
            frame-put n node (some y1) 0 q.head (x ∷ xs) 0 q.tail out
              (at, xne, (z, zhere, back, on, rest)) in
          let chain2 : Seg n2 node q.head (x ∷ xs) 0 q.tail =
            set_prev-Seg n1 0 node q.head x xs 0 q.tail z is.distinct.0 z1 chain1 in
          record {
            queue = record { head = node; tail = q.tail; size = (q.size + 1) % 2 ^ 32 };
            nodes = n3;
            runs =
                rw (ne→== node 0 ne, nonempty, update-some n node (link q.head 0) y ne here, linked)
                  (enlisted_in-ok node (record q { head = node }) n2 y1 ne y2 acyclic);
            holds = record {
              chain = (
                refl,
                ne,
                (
                  enlist y1,
                  put_self n2 node (some (enlist y1)),
                  refl,
                  refl,
                  frame-put n2 node (some (enlist y1)) node q.head (x ∷ xs) 0 q.tail out chain2,
                ),
              );
              distinct = (out, is.distinct);
              counted = omega (arith, is.counted);
            };
            size = omega arith;
            payloads =
                SamePayload-trans n n2 n3
                  (SamePayload-trans n n1 n2 (SamePayload-put n node y y1 here refl)
                    (SamePayload-put n1 x z (set_prev node z) z1 refl))
                  (SamePayload-put n2 node y1 (enlist y1) y2 refl);
          }

  -- kqueue_push of an allocated node that is not in the queue never faults or panics: the node
  -- stands in front of the queue's list, the size grows by one, and no node's value or priority
  -- changes.
  pub kqueue_push-cons :
      (xs : List ℕ)
      → mem node xs ≡ false
      → IsQueue n q xs
      → Pushed n q (node ∷ xs) (kqueue_push n node (some q))
  unfolding kqueue_push
  kqueue_push-cons [] out is = simp (ne→== node 0 ne, is.chain.0) (push_first-Pushed is)
  kqueue_push-cons (x ∷ xs) out is = push_onto x xs out is
