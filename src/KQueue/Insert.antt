-- ===== src/KQueue/Insert.antt =====
-- The insertion of kqueue_push_prio of kqueue.c: behind the nodes `us` and in front of the nodes `vs`.
use utk.KQueue.Members.{
  not_in_front, Distinct-join, snoc-cases, mem_of_inner, Distinct-append, mem_ne, mem-append_false,
  mem,
}
use utk.Prelude.{
  ==→eq, Bool-cases, List, [], ap, append-nil, arith, false, inl, inr, length-append, ne→==, not,
  ok, refl, some, subst, sym, true, ℕ, ◌%◌, ◌++◌, ◌+◌, ◌<◌, ◌==◌, ◌^◌, ◌||◌, ◌∙◌, ◌∷◌, ◌≡◌, ◌≢◌,
}
use utk.KQueue.{Node, Queue, Nodes, put, update, link, set_next, set_prev, enlist, insert_at}
use utk.KQueue.Segment.{
  Seg, put_self, put_other, node_at-some, update-some, frame-put, set_next-Seg, set_prev-Seg,
  last_of, inner, join,
}
use utk.KQueue.Valid.{IsQueue, SamePayload-put, SamePayload-trans, enlisted_in-ok}
use utk.KQueue.Push.{Pushed}

-- The cursor in front of which the node goes.
abbrev pub head_or_null : List ℕ → ℕ
head_or_null [] = 0
head_or_null (v ∷ vs) = v

module _ (n : Nodes) (q : Queue) (node : ℕ) (y : Node) (ne : node ≢ 0) (here : n node ≡ some y)
    (room : q.size + 1 < 2 ^ 32) where
  -- In front of all.
  insert_first :
      (v : ℕ) (vs : List ℕ)
      → mem node (v ∷ vs) ≡ false
      → IsQueue n q (v ∷ vs)
      → Pushed n q (node ∷ v ∷ vs) (insert_at node q n v)
  unfolding insert_at
  insert_first v vs out is = go is.chain
    where
      go : Seg n 0 q.head (v ∷ vs) 0 q.tail → Pushed n q (node ∷ v ∷ vs) (insert_at node q n v)
      go (at, vne, (w, vhere, back, on, rest)) =
          let apart = (mem_ne node v vs out).0 in
          let y1 : Node = link v 0 y in
          let n1 = put n node (some y1) in
          let v1 : n1 v ≡ some w = put_other n node v (some y1) (λ e. apart (sym e)) ∙ vhere in
          let n2 = put n1 v (some (set_prev node w)) in
          let y2 : n2 node ≡ some y1 =
            put_other n1 v node (some (set_prev node w)) apart ∙ put_self n node (some y1) in
          let n3 = put n2 node (some (enlist y1)) in
          let acyclic : (not (v == 0) || (v == 0) || true) ≡ true = ground arith in
          let chain2 : Seg n2 node q.head (v ∷ vs) 0 q.tail =
            set_prev-Seg n1 0 node q.head v vs 0 q.tail w is.distinct.0 v1 (
              frame-put n node (some y1) 0 q.head (v ∷ vs) 0 q.tail out
                (at, vne, (w, vhere, back, on, rest))) in
          record {
            queue = record { head = node; tail = q.tail; size = (q.size + 1) % 2 ^ 32 };
            nodes = n3;
            runs = simp (
              ne→== v 0 vne,
              node_at-some n v w vne vhere,
              back,
              update-some n node (link v 0) y ne here,
              update-some n1 v (set_prev node) w vne v1,
              node_at-some n2 node y1 ne y2,
              enlisted_in-ok node (record q { head = node }) n2 y1 ne y2 acyclic,
            );
            holds = record {
              chain = (
                refl,
                ne,
                (
                  enlist y1,
                  put_self n2 node (some (enlist y1)),
                  refl,
                  refl,
                  frame-put n2 node (some (enlist y1)) node v (v ∷ vs) 0 q.tail out
                      (subst (λ c. Seg n2 node c (v ∷ vs) 0 q.tail) at chain2),
                ),
              );
              distinct = (out, is.distinct);
              counted = omega (arith, is.counted);
            };
            size = omega arith;
            payloads =
                SamePayload-trans n n2 n3
                  (SamePayload-trans n n1 n2 (SamePayload-put n node y y1 here refl)
                    (SamePayload-put n1 v w (set_prev node w) v1 refl))
                  (SamePayload-put n2 node y1 (enlist y1) y2 refl);
          }

  -- Behind all.
  insert_last :
      (us : List ℕ) (m : ℕ)
      → mem node (us ++ m ∷ []) ≡ false
      → IsQueue n q (us ++ m ∷ [])
      → Pushed n q ((us ++ m ∷ []) ++ node ∷ []) (insert_at node q n 0)
  unfolding insert_at
  insert_last us m out is =
      let tm : q.tail ≡ m = last_of n 0 q.head us m 0 q.tail is.chain in
      let (_, z, _, mne, mhere, _, _, _) = inner n 0 q.head us m [] 0 q.tail is.chain in
      let apart : m ≢ node =
        λ e. (mem_ne node m [] (mem-append_false node us (m ∷ []) out).1).0 (sym e) in
      let y1 : Node = link 0 q.tail y in
      let n1 = put n node (some y1) in
      let m1 : n1 m ≡ some z = put_other n node m (some y1) apart ∙ mhere in
      let n2 = put n1 m (some (set_next node z)) in
      let y2 : n2 node ≡ some y1 =
        put_other n1 m node (some (set_next node z)) (λ e. apart (sym e))
        ∙ put_self n node (some y1) in
      let n3 = put n2 node (some (enlist y1)) in
      let linked : update n1 q.tail (set_next node) ≡ ok n2 =
        ap (λ c. update n1 c (set_next node)) tm ∙ update-some n1 m (set_next node) z mne m1 in
      let acyclic : (not (0 == q.tail) || true || (q.tail == 0)) ≡ true = ground arith in
      let front : Seg n3 0 q.head (us ++ m ∷ []) node m =
        frame-put n2 node (some (enlist y1)) 0 q.head (us ++ m ∷ []) node m out (
          set_next-Seg n1 0 q.head us m node 0 q.tail z is.distinct m1
            (frame-put n node (some y1) 0 q.head (us ++ m ∷ []) 0 q.tail out is.chain)) in
      record {
        queue = record { head = q.head; tail = node; size = (q.size + 1) % 2 ^ 32 };
        nodes = n3;
        runs = simp (
          update-some n node (link 0 q.tail) y ne here,
          linked,
          enlisted_in-ok node (record q { tail = node }) n2 y1 ne y2 acyclic,
        );
        holds = record {
          chain =
              join n3 0 q.head (us ++ m ∷ []) (node ∷ []) node m 0 node front (
                refl,
                ne,
                (enlist y1, put_self n2 node (some (enlist y1)), tm, refl, (refl, refl)),
              );
          distinct =
              Distinct-join (us ++ m ∷ []) (node ∷ []) is.distinct (refl, tt)
                (only_node (us ++ m ∷ []) out);
          counted = omega (arith, is.counted, length-append (us ++ m ∷ []) (node ∷ []));
        };
        size = omega arith;
        payloads =
            SamePayload-trans n n2 n3
              (SamePayload-trans n n1 n2 (SamePayload-put n node y y1 here refl)
                (SamePayload-put n1 m z (set_next node z) m1 refl))
              (SamePayload-put n2 node y1 (enlist y1) y2 refl);
      }
    where
      only_node :
          (xs : List ℕ)
          → mem node xs ≡ false
          → (a : ℕ) → mem a xs ≡ true
          → mem a (node ∷ []) ≡ false
      only_node xs out a inside = elim (Bool-cases (a == node)) [
        | inl it ↦ cc (ap (λ c. mem c xs) (==→eq a node it))
        | inr other ↦ rw other
      ]

  -- Between two.
  insert_middle :
      (us : List ℕ) (m v : ℕ) (vs : List ℕ)
      → mem node ((us ++ m ∷ []) ++ v ∷ vs) ≡ false
      → IsQueue n q ((us ++ m ∷ []) ++ v ∷ vs)
      → Pushed n q ((us ++ m ∷ []) ++ node ∷ v ∷ vs) (insert_at node q n v)
  unfolding insert_at
  insert_middle us m v vs out is =
      let (c, w, front, vne, vhere, vback, von, rest) =
        inner n 0 q.head (us ++ m ∷ []) v vs 0 q.tail is.chain in
      let cm : c ≡ m = last_of n 0 q.head us m v c front in
      let (_, z, _, mne, mhere, _, _, _) = inner n 0 q.head us m [] v c front in
      let (dus, dvs, apart) = Distinct-append (us ++ m ∷ []) (v ∷ vs) is.distinct in
      let (out_us, out_vs) = mem-append_false node (us ++ m ∷ []) (v ∷ vs) out in
      let nm : node ≢ m = (mem_ne node m [] (mem-append_false node us (m ∷ []) out_us).1).0 in
      let nv : node ≢ v = (mem_ne node v vs out_vs).0 in
      let m_out : mem m (v ∷ vs) ≡ false = apart m (mem_of_inner m us []) in
      let mv : m ≢ v = (mem_ne m v vs m_out).0 in
      let v_out : mem v (us ++ m ∷ []) ≡ false = not_in_front (us ++ m ∷ []) v vs apart in
      let back : w.prev ≡ m = vback ∙ cm in
      let y1 : Node = link v m y in
      let n1 = put n node (some y1) in
      let v1 : n1 v ≡ some w = put_other n node v (some y1) (λ e. nv (sym e)) ∙ vhere in
      let n2 = put n1 v (some (set_prev node w)) in
      let y2 : n2 node ≡ some y1 =
        put_other n1 v node (some (set_prev node w)) nv ∙ put_self n node (some y1) in
      let m2 : n2 m ≡ some z =
        put_other n1 v m (some (set_prev node w)) mv
        ∙ put_other n node m (some y1) (λ e. nm (sym e))
        ∙ mhere in
      let n3 = put n2 m (some (set_next node z)) in
      let y3 : n3 node ≡ some y1 = put_other n2 m node (some (set_next node z)) nm ∙ y2 in
      let n4 = put n3 node (some (enlist y1)) in
      let acyclic : (not (v == m) || (v == 0) || (m == 0)) ≡ true =
        simp (ne→== v m (λ e. mv (sym e))) in
      let front4 : Seg n4 0 q.head (us ++ m ∷ []) node m =
        frame-put n3 node (some (enlist y1)) 0 q.head (us ++ m ∷ []) node m out_us (
          set_next-Seg n2 0 q.head us m node v c z dus m2 (
            frame-put n1 v (some (set_prev node w)) 0 q.head (us ++ m ∷ []) v c v_out
              (frame-put n node (some y1) 0 q.head (us ++ m ∷ []) v c out_us front))) in
      let back4 : Seg n4 node v (v ∷ vs) 0 q.tail =
        frame-put n3 node (some (enlist y1)) node v (v ∷ vs) 0 q.tail out_vs (
          frame-put n2 m (some (set_next node z)) node v (v ∷ vs) 0 q.tail m_out (
            set_prev-Seg n1 c node v v vs 0 q.tail w dvs.0 v1 (
              frame-put n node (some y1) c v (v ∷ vs) 0 q.tail out_vs
                (refl, vne, (w, vhere, vback, von, rest))))) in
      record {
        queue = record { head = q.head; tail = q.tail; size = (q.size + 1) % 2 ^ 32 };
        nodes = n4;
        runs = simp (
          ne→== v 0 vne,
          node_at-some n v w vne vhere,
          back,
          update-some n node (link v m) y ne here,
          update-some n1 v (set_prev node) w vne v1,
          node_at-some n2 node y1 ne y2,
          ne→== m 0 mne,
          update-some n2 m (set_next node) z mne m2,
          enlisted_in-ok node q n3 y1 ne y3 acyclic,
        );
        holds = record {
          chain =
              join n4 0 q.head (us ++ m ∷ []) (node ∷ v ∷ vs) node m 0 q.tail front4
                (refl, ne, (enlist y1, put_self n3 node (some (enlist y1)), refl, refl, back4));
          distinct =
              Distinct-join (us ++ m ∷ []) (node ∷ v ∷ vs) dus (out_vs, dvs)
                (λ a inside. apart_from a (us ++ m ∷ []) (v ∷ vs) inside out_us (apart a inside));
          counted = omega (
            arith,
            is.counted,
            length-append (us ++ m ∷ []) (node ∷ v ∷ vs),
            length-append (us ++ m ∷ []) (v ∷ vs),
          );
        };
        size = omega arith;
        payloads =
            SamePayload-trans n n3 n4
              (SamePayload-trans n n2 n3
                (SamePayload-trans n n1 n2 (SamePayload-put n node y y1 here refl)
                  (SamePayload-put n1 v w (set_prev node w) v1 refl))
                (SamePayload-put n2 m z (set_next node z) m2 refl))
              (SamePayload-put n3 node y1 (enlist y1) y3 refl);
      }
    where
      apart_from :
          (a : ℕ) (xs ys : List ℕ)
          → mem a xs ≡ true
          → mem node xs ≡ false
          → mem a ys ≡ false
          → mem a (node ∷ ys) ≡ false
      apart_from a xs ys inside out clear = elim (Bool-cases (a == node)) [
        | inl it ↦ cc (ap (λ c. mem c xs) (==→eq a node it))
        | inr other ↦ rw (other, clear)
      ]

  -- All three places of the insertion.
  pub insert_at-Pushed :
      (us vs : List ℕ)
      → us ++ vs ≢ []
      → mem node (us ++ vs) ≡ false
      → IsQueue n q (us ++ vs)
      → Pushed n q (us ++ node ∷ vs) (insert_at node q n (head_or_null vs))
  insert_at-Pushed us vs some_node out is = elim (snoc-cases us) [
    | inl e ↦
        subst (λ t. Pushed n q (t ++ node ∷ vs) (insert_at node q n (head_or_null vs))) (sym e)
          (at_front vs (λ z. some_node (ap (λ t. t ++ vs) e ∙ z))
            (subst (λ t. mem node (t ++ vs) ≡ false) e out)
            (subst (λ t. IsQueue n q (t ++ vs)) e is))
    | inr (ws, m, e) ↦
        subst (λ t. Pushed n q (t ++ node ∷ vs) (insert_at node q n (head_or_null vs))) (sym e)
          (behind vs ws m (subst (λ t. mem node (t ++ vs) ≡ false) e out)
            (subst (λ t. IsQueue n q (t ++ vs)) e is))
  ]
    where
      at_front :
          (vs : List ℕ)
          → vs ≢ []
          → mem node vs ≡ false
          → IsQueue n q vs
          → Pushed n q (node ∷ vs) (insert_at node q n (head_or_null vs))
      at_front [] some_node out is = absurd (some_node refl)
      at_front (v ∷ vs) some_node out is = insert_first v vs out is

      behind :
          (vs ws : List ℕ) (m : ℕ)
          → mem node ((ws ++ m ∷ []) ++ vs) ≡ false
          → IsQueue n q ((ws ++ m ∷ []) ++ vs)
          → Pushed n q ((ws ++ m ∷ []) ++ node ∷ vs) (insert_at node q n (head_or_null vs))
      behind [] ws m out is =
          insert_last ws m (subst (λ t. mem node t ≡ false) (append-nil (ws ++ m ∷ [])) out)
            (subst (λ t. IsQueue n q t) (append-nil (ws ++ m ∷ [])) is)
      behind (v ∷ vs) ws m out is = insert_middle ws m v vs out is
