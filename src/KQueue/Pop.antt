-- ===== src/KQueue/Pop.antt =====
-- kqueue_pop of kqueue.c takes the last node.
use utk.KQueue.Members.{not_in_front, snoc-cases, mem_of_inner, Distinct-append, mem_ne, mem}
use utk.Prelude.{
  List, Run, [], arith, false, inl, inr, length-append, ne→==, ok, refl, some, subst, sym, true, ℕ,
  ◌%◌, ◌++◌, ◌+◌, ◌-◌, ◌<◌, ◌^◌, ◌∙◌, ◌∷◌, ◌≡◌, ◌≢◌,
}
use utk.KQueue.{Node, Queue, Nodes, put, set_next, unlist, kqueue_pop}
use utk.KQueue.Segment.{
  Seg, put_self, put_other, node_at-some, update-some, frame-put, set_next-Seg, last_of, inner,
}
use utk.KQueue.Valid.{IsQueue, SamePayload, SamePayload-put, SamePayload-trans}

-- A node that stands in no queue.
pub record IsFree (n : Nodes) (x : ℕ) : Type 0 where
  pub node : Node
  pub here : n x ≡ some node
  pub next : node.next ≡ 0
  pub prev : node.prev ≡ 0
  pub off : node.enlisted ≡ false

pub record Popped (n : Nodes) (q : Queue) (xs : List ℕ) (x : ℕ) (run : Run (ℕ × Queue × Nodes))
    : Type 0 where
  pub queue : Queue
  pub nodes : Nodes
  pub runs : run ≡ ok (x, queue, nodes)
  pub holds : IsQueue nodes queue xs
  pub size : queue.size + 1 ≡ q.size
  pub free : IsFree nodes x
  pub payloads : SamePayload n nodes

head_ne_zero :
    (n : Nodes) (p : ℕ) (us : List ℕ) (x : ℕ) (last : ℕ) → Seg n 0 p (us ++ x ∷ []) 0 last → p ≢ 0
head_ne_zero n p [] x last (at, ne, rest) e = ne (sym at ∙ e)
head_ne_zero n p (u ∷ us) x last (at, ne, rest) e = ne (sym at ∙ e)

module _ (n : Nodes) (q : Queue) (x : ℕ) (small : q.size < 2 ^ 32) where
  pop_only : IsQueue n q (x ∷ []) → Popped n q [] x (kqueue_pop n (some q))
  unfolding kqueue_pop
  pop_only is = go is.chain
    where
      go : Seg n 0 q.head (x ∷ []) 0 q.tail → Popped n q [] x (kqueue_pop n (some q))
      go (at, ne, (y, here, back, on, (e, l))) = record {
        queue = record { head = 0; tail = 0; size = (q.size + 2 ^ 32 - 1) % 2 ^ 32 };
        nodes = put n x (some (unlist y));
        runs = simp (
          ne→== q.head 0 (λ z. ne (sym at ∙ z)),
          sym l,
          node_at-some n x y ne here,
          back,
          update-some n x unlist y ne here,
        );
        holds = record { chain = (refl, refl); distinct = tt; counted = omega arith };
        size = omega (arith, is.counted);
        free = record {
          node = unlist y;
          here = put_self n x (some (unlist y));
          next = refl;
          prev = refl;
          off = refl;
        };
        payloads = SamePayload-put n x y (unlist y) here refl;
      }

  pop_more :
      (us : List ℕ) (m : ℕ)
      → IsQueue n q ((us ++ m ∷ []) ++ x ∷ [])
      → Popped n q (us ++ m ∷ []) x (kqueue_pop n (some q))
  unfolding kqueue_pop
  pop_more us m is =
      let (c, y, front, ne, here, back, on, (e, l)) =
        inner n 0 q.head (us ++ m ∷ []) x [] 0 q.tail is.chain in
      let cm : c ≡ m = last_of n 0 q.head us m x c front in
      let (d, z, front', mne, mhere, _, _, _) = inner n 0 q.head us m [] x c front in
      let (dus, _, apart) = Distinct-append (us ++ m ∷ []) (x ∷ []) is.distinct in
      let inside : mem m (us ++ m ∷ []) ≡ true = mem_of_inner m us [] in
      let mx : m ≢ x = (mem_ne m x [] (apart m inside)).0 in
      let out : mem x (us ++ m ∷ []) ≡ false = not_in_front (us ++ m ∷ []) x [] apart in
      let prev : y.prev ≡ m = back ∙ cm in
      let n1 = put n m (some (set_next 0 z)) in
      let at1 : n1 x ≡ some y = put_other n m x _ (λ e. mx (sym e)) ∙ here in
      let n2 = put n1 x (some (unlist y)) in
      record {
        queue = record { head = q.head; tail = m; size = (q.size + 2 ^ 32 - 1) % 2 ^ 32 };
        nodes = n2;
        runs = simp (
          ne→== q.head 0 (head_ne_zero n q.head (us ++ m ∷ []) x q.tail is.chain),
          sym l,
          node_at-some n x y ne here,
          prev,
          ne→== m 0 mne,
          update-some n m (set_next 0) z mne mhere,
          update-some n1 x unlist y ne at1,
        );
        holds = record {
          chain =
              frame-put n1 x (some (unlist y)) 0 q.head (us ++ m ∷ []) 0 m out
                (set_next-Seg n 0 q.head us m 0 x c z dus mhere front);
          distinct = dus;
          counted = omega (arith, is.counted, length-append (us ++ m ∷ []) (x ∷ []));
        };
        size = omega (arith, is.counted, length-append (us ++ m ∷ []) (x ∷ []));
        free = record {
          node = unlist y;
          here = put_self n1 x (some (unlist y));
          next = refl;
          prev = refl;
          off = refl;
        };
        payloads =
            SamePayload-trans n n1 n2 (SamePayload-put n m z (set_next 0 z) mhere refl)
              (SamePayload-put n1 x y (unlist y) at1 refl);
      }

  -- kqueue_pop of a queue that holds a list ending in `x` never faults: it returns that node, now in
  -- no queue, and leaves the queue with the nodes before it and a size one smaller; no node's value
  -- or priority changes.
  pub kqueue_pop-snoc :
      (us : List ℕ) → IsQueue n q (us ++ x ∷ []) → Popped n q us x (kqueue_pop n (some q))
  kqueue_pop-snoc us is = elim (snoc-cases us) [
    | inl e ↦
        subst (λ t. Popped n q t x (kqueue_pop n (some q))) (sym e)
          (pop_only (subst (λ t. IsQueue n q (t ++ x ∷ [])) e is))
    | inr (vs, m, e) ↦
        subst (λ t. Popped n q t x (kqueue_pop n (some q))) (sym e)
          (pop_more vs m (subst (λ t. IsQueue n q (t ++ x ∷ [])) e is))
  ]
