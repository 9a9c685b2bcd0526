-- ===== src/KQueue/Unlink.antt =====
-- The search and the unlinking of kqueue_remove, over the list that a queue holds.
use utk.KQueue.Members.{
  not_in_front, Around, snoc-cases, mem_of_inner, mem_ne, mem-append_false, Distinct, mem,
}
use utk.Prelude.{
  ==_refl, List, Run, [], append-nil, arith, false, inl, inr, length, ne→==, ok, refl, some, subst,
  suc, sym, zero, ℕ, ◌++◌, ◌<◌, ◌∙◌, ◌∷◌, ◌≡◌, ◌≢◌,
}
use utk.KQueue.{Node, Queue, Nodes, put, set_next, set_prev, seek_loop, unlink}
use utk.KQueue.Segment.{
  join, inner, frame-put, last_of, Seg, put_other, node_at-some, update-some, set_next-Seg,
  set_prev-Seg,
}
use utk.KQueue.Valid.{SamePayload-trans, SamePayload, SamePayload-put}

-- The search for a node reaches it.
pub seek_loop-finds :
    (n : Nodes) (left x before p : ℕ) (us vs : List ℕ) (after last : ℕ)
    → mem x us ≡ false
    → length us < left
    → Seg n before p (us ++ x ∷ vs) after last
    → seek_loop left x n p ≡ ok x
unfolding seek_loop
seek_loop-finds n zero x before p us vs after last out fuel s = absurd (omega arith)
seek_loop-finds n (suc left) x before p [] vs after last out fuel (at, ne, rest) =
    simp (at, ne→== x 0 ne, ==_refl x)
seek_loop-finds n (suc left) x before p (u ∷ us) vs after last out fuel
      (at, ne, (y, here, back, on, rest)) =
    let (apart, out') = mem_ne x u us out in
    simp (at, ne→== u 0 ne, ne→== u x (λ e. apart (sym e)), node_at-some n u y ne here)
      (seek_loop-finds n left x u y.next us vs after last out' (omega arith) rest)

-- The search for a node that is not there ends at NULL.
pub seek_loop-misses :
    (n : Nodes) (left x before p : ℕ) (us : List ℕ) (last : ℕ)
    → mem x us ≡ false
    → length us < left
    → Seg n before p us 0 last
    → seek_loop left x n p ≡ ok 0
unfolding seek_loop
seek_loop-misses n zero x before p us last out fuel s = absurd (omega arith)
seek_loop-misses n (suc left) x before p [] last out fuel (at, e) = simp at
seek_loop-misses n (suc left) x before p (u ∷ us) last out fuel
      (at, ne, (y, here, back, on, rest)) =
    let (apart, out') = mem_ne x u us out in
    simp (at, ne→== u 0 ne, ne→== u x (λ e. apart (sym e)), node_at-some n u y ne here)
      (seek_loop-misses n left x u y.next us last out' (omega arith) rest)

-- The queue and the nodes once `x` is unlinked, before its own fields are reset.
pub record Unlinked (n : Nodes) (q : Queue) (xs : List ℕ) (x : ℕ) (y : Node)
    (run : Run (Queue × Nodes)) : Type 0 where
  pub queue : Queue
  pub nodes : Nodes
  pub runs : run ≡ ok (queue, nodes)
  pub chain : Seg nodes 0 queue.head xs 0 queue.tail
  pub size : queue.size ≡ q.size
  pub same : nodes x ≡ some y
  pub payloads : SamePayload n nodes

module _ (n : Nodes) (q : Queue) (x : ℕ) (y : Node) (ne : x ≢ 0) (here : n x ≡ some y) where
  -- The only node.
  unlink_only : y.prev ≡ 0 → y.next ≡ 0 → Unlinked n q [] x y (unlink q n x)
  unfolding unlink
  unlink_only prev next = record {
    queue = record q { head = 0; tail = 0 };
    nodes = n;
    runs = simp (node_at-some n x y ne here, prev, next);
    chain = (refl, refl);
    size = refl;
    same = here;
    payloads = λ a. refl;
  }

  -- The first of several.
  unlink_first :
      (v : ℕ) (vs : List ℕ)
      → mem x (v ∷ vs) ≡ false
      → mem v vs ≡ false
      → y.prev ≡ 0
      → Seg n x y.next (v ∷ vs) 0 q.tail
      → Unlinked n q (v ∷ vs) x y (unlink q n x)
  unfolding unlink
  unlink_first v vs out vout prev (at, vne, (z, vhere, back, on, rest)) =
      let n1 = put n v (some (set_prev 0 z)) in
      record {
        queue = record { head = v; tail = q.tail; size = q.size };
        nodes = n1;
        runs = simp (
          node_at-some n x y ne here,
          prev,
          at,
          ne→== v 0 vne,
          update-some n v (set_prev 0) z vne vhere,
        );
        chain =
            set_prev-Seg n x 0 v v vs 0 q.tail z vout vhere (refl, vne, (z, vhere, back, on, rest));
        size = refl;
        same = put_other n v x _ (mem_ne x v vs out).0 ∙ here;
        payloads = SamePayload-put n v z (set_prev 0 z) vhere refl;
      }

  -- The last of several.
  unlink_last :
      (us : List ℕ) (m c : ℕ) (z : Node)
      → mem x (us ++ m ∷ []) ≡ false
      → Distinct (us ++ m ∷ [])
      → y.prev ≡ m
      → y.next ≡ 0
      → m ≢ 0
      → n m ≡ some z
      → Seg n 0 q.head (us ++ m ∷ []) x c
      → Unlinked n q (us ++ m ∷ []) x y (unlink q n x)
  unfolding unlink
  unlink_last us m c z out d prev next mne mhere front = record {
    queue = record { head = q.head; tail = m; size = q.size };
    nodes = put n m (some (set_next 0 z));
    runs = simp (
      node_at-some n x y ne here,
      prev,
      next,
      ne→== m 0 mne,
      update-some n m (set_next 0) z mne mhere,
    );
    chain = set_next-Seg n 0 q.head us m 0 x c z d mhere front;
    size = refl;
    same = put_other n m x _ (mem_ne x m [] (mem-append_false x us (m ∷ []) out).1).0 ∙ here;
    payloads = SamePayload-put n m z (set_next 0 z) mhere refl;
  }

  -- One between two others.
  unlink_middle :
      (us : List ℕ) (m c : ℕ) (z : Node) (v : ℕ) (vs : List ℕ)
      → Around (us ++ m ∷ []) x (v ∷ vs)
      → y.prev ≡ m
      → m ≢ 0
      → n m ≡ some z
      → Seg n 0 q.head (us ++ m ∷ []) x c
      → Seg n x y.next (v ∷ vs) 0 q.tail
      → Unlinked n q ((us ++ m ∷ []) ++ v ∷ vs) x y (unlink q n x)
  unfolding unlink
  unlink_middle us m c z v vs d prev mne mhere front (at, vne, (w, vhere, back, on, rest)) =
      let m_out : mem m (v ∷ vs) ≡ false = d.apart m (mem_of_inner m us []) in
      let mv : m ≢ v = (mem_ne m v vs m_out).0 in
      let xm : x ≢ m = (mem_ne x m [] (mem-append_false x us (m ∷ []) d.out_front).1).0 in
      let v_out : mem v (us ++ m ∷ []) ≡ false = not_in_front (us ++ m ∷ []) v vs d.apart in
      let n1 = put n m (some (set_next v z)) in
      let at1 : n1 x ≡ some y = put_other n m x (some (set_next v z)) xm ∙ here in
      let v1 : n1 v ≡ some w = put_other n m v (some (set_next v z)) (λ e. mv (sym e)) ∙ vhere in
      let n2 = put n1 v (some (set_prev m w)) in
      let front2 : Seg n2 0 q.head (us ++ m ∷ []) v m =
        frame-put n1 v (some (set_prev m w)) 0 q.head (us ++ m ∷ []) v m v_out
          (set_next-Seg n 0 q.head us m v x c z d.front mhere front) in
      let back1 : Seg n1 x v (v ∷ vs) 0 q.tail =
        frame-put n m (some (set_next v z)) x v (v ∷ vs) 0 q.tail m_out
          (refl, vne, (w, vhere, back, on, rest)) in
      let back2 : Seg n2 m v (v ∷ vs) 0 q.tail =
        set_prev-Seg n1 x m v v vs 0 q.tail w d.back.0 v1 back1 in
      record {
        queue = q;
        nodes = n2;
        runs = simp (
          node_at-some n x y ne here,
          prev,
          at,
          ne→== m 0 mne,
          ne→== v 0 vne,
          update-some n m (set_next v) z mne mhere,
          node_at-some n1 x y ne at1,
          update-some n1 v (set_prev m) w vne v1,
        );
        chain = join n2 0 q.head (us ++ m ∷ []) (v ∷ vs) v m 0 q.tail front2 back2;
        size = refl;
        same = put_other n1 v x _ (mem_ne x v vs d.out_back).0 ∙ at1;
        payloads =
            SamePayload-trans n n1 n2 (SamePayload-put n m z (set_next v z) mhere refl)
              (SamePayload-put n1 v w (set_prev m w) v1 refl);
      }

  -- All four cases of the unlinking.
  pub unlink-Unlinked :
      (us vs : List ℕ) (c : ℕ)
      → Around us x vs
      → y.prev ≡ c
      → Seg n 0 q.head us x c
      → Seg n x y.next vs 0 q.tail
      → Unlinked n q (us ++ vs) x y (unlink q n x)
  unlink-Unlinked us vs c d prev front back = elim (snoc-cases us) [
    | inl e ↦
        at_front vs (subst (λ t. Around t x vs) e d) (subst (λ t. Seg n 0 q.head t x c) e front)
          back e
    | inr (ws, m, e) ↦
        inside vs ws m (subst (λ t. Around t x vs) e d) (subst (λ t. Seg n 0 q.head t x c) e front)
          back e
  ]
    where
      at_front :
          (vs : List ℕ)
          → Around [] x vs
          → Seg n 0 q.head [] x c
          → Seg n x y.next vs 0 q.tail
          → us ≡ []
          → Unlinked n q (us ++ vs) x y (unlink q n x)
      at_front [] d (e0, e1) (e2, e3) e =
          subst (λ t. Unlinked n q (t ++ []) x y (unlink q n x)) (sym e)
            (unlink_only (prev ∙ sym e1) e2)
      at_front (v ∷ vs) d (e0, e1) back e =
          subst (λ t. Unlinked n q (t ++ v ∷ vs) x y (unlink q n x)) (sym e)
            (unlink_first v vs d.out_back d.back.0 (prev ∙ sym e1) back)

      inside :
          (vs ws : List ℕ) (m : ℕ)
          → Around (ws ++ m ∷ []) x vs
          → Seg n 0 q.head (ws ++ m ∷ []) x c
          → Seg n x y.next vs 0 q.tail
          → us ≡ ws ++ m ∷ []
          → Unlinked n q (us ++ vs) x y (unlink q n x)
      inside [] ws m d front (e2, e3) e =
          let cm : c ≡ m = last_of n 0 q.head ws m x c front in
          let (_, z, _, mne, mhere, _, _, _) = inner n 0 q.head ws m [] x c front in
          subst (λ t. Unlinked n q t x y (unlink q n x)) (sym (append-nil us ∙ e))
            (unlink_last ws m c z d.out_front d.front (prev ∙ cm) e2 mne mhere front)
      inside (v ∷ vs) ws m d front back e =
          let cm : c ≡ m = last_of n 0 q.head ws m x c front in
          let (_, z, _, mne, mhere, _, _, _) = inner n 0 q.head ws m [] x c front in
          subst (λ t. Unlinked n q (t ++ v ∷ vs) x y (unlink q n x)) (sym e)
            (unlink_middle ws m c z v vs d (prev ∙ cm) mne mhere front back)
