-- ===== src/KQueue/Priority.antt =====
-- kqueue_push_prio of kqueue.c inserts by priority, the highest at the head.
use utk.KQueue.Members.{ne_of_mem, mem_tail, mem_head, mem}
use utk.Prelude.{
  Bool-cases, List, Option, Run, [], ap, arith, false, if◌then◌else◌, inl, inr, length, ltb, ltb→le,
  ltb→lt, ne→==, none, ok, refl, some, subst, suc, sym, zero, ℕ, ◌++◌, ◌+◌, ◌<◌, ◌==◌, ◌^◌, ◌∙◌,
  ◌∷◌, ◌≡◌, ◌≢◌, ◌≤◌,
}
use utk.KQueue.{true, Node, Queue, Nodes, put, prio_loop, kqueue_push_prio}
use utk.KQueue.Segment.{Seg, put_self, put_other, node_at-some, update-some, frame-put}
use utk.KQueue.Valid.{IsQueue, payload}
use utk.KQueue.Push.{Pushed, push_first-Pushed}
use utk.KQueue.Insert.{head_or_null, insert_at-Pushed}

abbrev pub prio_of : Option Node → ℕ
prio_of none = 0
prio_of (some y) = y.priority

-- The list with a node put in front of the first one whose priority is at most its own.
unfoldable pub insert_prio : Nodes → ℕ → ℕ → List ℕ → List ℕ
insert_prio n priority node [] = node ∷ []
insert_prio n priority node (x ∷ xs) =
    if ltb priority (prio_of (n x)) then x ∷ insert_prio n priority node xs else node ∷ x ∷ xs

-- The priorities do not rise from the head to the tail.
abbrev pub Descending : Nodes → List ℕ → Type 0
Descending n [] = Unit {0}
Descending n (x ∷ []) = Unit {0}
Descending n (x ∷ y ∷ zs) = (prio_of (n y) ≤ prio_of (n x)) × Descending n (y ∷ zs)

insert_prio-Descending :
    (n : Nodes) (priority node : ℕ) (xs : List ℕ)
    → prio_of (n node) ≡ priority
    → Descending n xs
    → Descending n (insert_prio n priority node xs)
unfolding insert_prio
insert_prio-Descending n priority node [] own d = tt
insert_prio-Descending n priority node (x ∷ []) own d =
    elim (Bool-cases (ltb priority (prio_of (n x)))) [
      | inl lower ↦ rw lower (omega (arith, own, ltb→lt priority (prio_of (n x)) lower), tt)
      | inr found ↦ rw found (omega (arith, own, ltb→le priority (prio_of (n x)) found), tt)
    ]
insert_prio-Descending n priority node (x ∷ z ∷ zs) own (le, d) =
    elim (Bool-cases (ltb priority (prio_of (n x)))) [
      | inr found ↦ rw found (omega (arith, own, ltb→le priority (prio_of (n x)) found), (le, d))
      | inl lower ↦ rw lower (
          below x z zs lower (ltb→lt priority (prio_of (n x)) lower) le
            (insert_prio-Descending n priority node (z ∷ zs) own d))
    ]
  where
    below :
        (x z : ℕ) (zs : List ℕ)
        → ltb priority (prio_of (n x)) ≡ true
        → priority < prio_of (n x)
        → prio_of (n z) ≤ prio_of (n x)
        → Descending n (insert_prio n priority node (z ∷ zs))
        → Descending n (x ∷ insert_prio n priority node (z ∷ zs))
    below x z zs lower lt le d = elim (Bool-cases (ltb priority (prio_of (n z)))) [
      | inl low ↦ rw low (le, (rw low at d))
      | inr here ↦ rw here (omega (arith, own), (rw here at d))
    ]

Descending-congr :
    (n n' : Nodes) (xs : List ℕ)
    → ((a : ℕ) → mem a xs ≡ true → prio_of (n' a) ≡ prio_of (n a))
    → Descending n xs
    → Descending n' xs
Descending-congr n n' [] same d = tt
Descending-congr n n' (x ∷ []) same d = tt
Descending-congr n n' (x ∷ z ∷ zs) same (le, d) = (
  omega (arith, same x (mem_head x (z ∷ zs)), same z (mem_tail z x (z ∷ zs) (mem_head z zs))),
  Descending-congr n n' (z ∷ zs) (λ a m. same a (mem_tail a x (z ∷ zs) m)) d,
)

prio_of-payload : (o o' : Option Node) → payload o ≡ payload o' → prio_of o ≡ prio_of o'
prio_of-payload none none e = refl
prio_of-payload none (some y) e = cc
prio_of-payload (some y) none e = cc
prio_of-payload (some y) (some z) e = cc

-- Where the search for the place ends.
pub record Splits (n : Nodes) (priority node : ℕ) (xs : List ℕ) (run : Run ℕ) : Type 0 where
  pub us : List ℕ
  pub vs : List ℕ
  pub whole : xs ≡ us ++ vs
  pub inserted : insert_prio n priority node xs ≡ us ++ node ∷ vs
  pub runs : run ≡ ok (head_or_null vs)

prio_loop-Splits :
    (n : Nodes) (priority node left before p : ℕ) (xs : List ℕ) (last : ℕ)
    → length xs < left
    → Seg n before p xs 0 last
    → Splits n priority node xs (prio_loop left priority n p)
unfolding prio_loop insert_prio
prio_loop-Splits n priority node zero before p xs last fuel s = absurd (omega arith)
prio_loop-Splits n priority node (suc left) before p [] last fuel (at, e) = record {
  us = [];
  vs = [];
  whole = refl;
  inserted = refl;
  runs = simp at;
}
prio_loop-Splits n priority node (suc left) before p (x ∷ xs) last fuel
      (at, ne, (y, here, back, on, rest)) =
    let same : prio_of (n x) ≡ y.priority = ap prio_of here in
    elim (Bool-cases (ltb priority y.priority)) [
      | inl lower ↦
          let s = prio_loop-Splits n priority node left x y.next xs last (omega arith) rest in
          record {
            us = x ∷ s.us;
            vs = s.vs;
            whole = ap (◌∷◌ x) s.whole;
            inserted = simp (same, lower) (ap (◌∷◌ x) s.inserted);
            runs = simp (at, ne→== x 0 ne, node_at-some n x y ne here, lower) s.runs;
          }
      | inr found ↦ record {
        us = [];
        vs = x ∷ xs;
        whole = refl;
        inserted = simp (same, found);
        runs = simp (at, ne→== x 0 ne, node_at-some n x y ne here, found);
      }
    ]

-- The nodes once a node's priority is set.
abbrev pub prioritised : Nodes → ℕ → ℕ → Node → Nodes
prioritised n node priority y = put n node (some (record y { priority = priority }))

module _ (n : Nodes) (q : Queue) (node priority : ℕ) (y : Node) (ne : node ≢ 0)
    (here : n node ≡ some y) (room : q.size + 1 < 2 ^ 32) where
  IsQueue-prioritised :
      (xs : List ℕ)
      → mem node xs ≡ false
      → IsQueue n q xs
      → IsQueue (prioritised n node priority y) q xs
  IsQueue-prioritised xs out is = record {
    chain = frame-put n node _ 0 q.head xs 0 q.tail out is.chain;
    distinct = is.distinct;
    counted = is.counted;
  }

  push_prio_first :
      IsQueue n q []
      → Pushed
          (prioritised n node priority y)
          q
          (node ∷ [])
          (kqueue_push_prio n node (some q) priority)
  unfolding kqueue_push_prio
  push_prio_first is =
      simp
        (
          ne→== node 0 ne,
          update-some n node (λ z. record z { priority = priority }) y ne here,
          is.chain.0,
        )
        (push_first-Pushed (prioritised n node priority y) q node (record y { priority = priority })
          ne (put_self n node (some (record y { priority = priority }))) room
          (IsQueue-prioritised [] refl is))

  push_prio_more :
      (x : ℕ) (xs : List ℕ)
      → mem node (x ∷ xs) ≡ false
      → IsQueue n q (x ∷ xs)
      → Pushed
          (prioritised n node priority y)
          q
          (insert_prio (prioritised n node priority y) priority node (x ∷ xs))
          (kqueue_push_prio n node (some q) priority)
  unfolding kqueue_push_prio
  push_prio_more x xs out is =
      let is' = IsQueue-prioritised (x ∷ xs) out is in
      let s =
        prio_loop-Splits (prioritised n node priority y) priority node (q.size + 1) 0 q.head
          (x ∷ xs) q.tail (omega (arith, is.counted)) is'.chain in
      let nonempty : (q.head == 0) ≡ false =
        ne→== q.head 0 (λ e. is.chain.1 (sym (is.chain.0) ∙ e)) in
      subst
        (λ t.
          Pushed (prioritised n node priority y) q t (kqueue_push_prio n node (some q) priority))
        (sym s.inserted)
        (simp
          (
            ne→== node 0 ne,
            update-some n node (λ z. record z { priority = priority }) y ne here,
            nonempty,
            s.runs,
          )
          (insert_at-Pushed (prioritised n node priority y) q node
            (record y { priority = priority }) ne
            (put_self n node (some (record y { priority = priority }))) room s.us s.vs
            (λ e. cc (s.whole ∙ e)) (subst (λ t. mem node t ≡ false) s.whole out)
            (subst (λ t. IsQueue (prioritised n node priority y) q t) s.whole is')))

  -- kqueue_push_prio, of a node that is not NULL, is allocated and not in the well-formed queue,
  -- whose size counter is below 2^32 - 1, never faults or panics: the node gets the priority and
  -- stands in front of the first node of the list whose priority is at most that, the size grows
  -- by one, and no other value or priority changes.
  pub kqueue_push_prio-insert :
      (xs : List ℕ)
      → mem node xs ≡ false
      → IsQueue n q xs
      → Pushed
          (prioritised n node priority y)
          q
          (insert_prio (prioritised n node priority y) priority node xs)
          (kqueue_push_prio n node (some q) priority)
  unfolding insert_prio
  kqueue_push_prio-insert [] out is = push_prio_first is
  kqueue_push_prio-insert (x ∷ xs) out is = push_prio_more x xs out is

  -- kqueue_push_prio, of a node that is not NULL, is allocated and not in the well-formed queue,
  -- whose size counter is below 2^32 - 1, keeps the queue sorted: if the priorities of the list
  -- did not rise from head to tail before, those of the list it leaves, with the node in its
  -- place, do not either.
  pub kqueue_push_prio_sorted :
      (xs : List ℕ)
      → mem node xs ≡ false
      → IsQueue n q xs
      → Descending n xs
      → (p : Pushed
          (prioritised n node priority y)
          q
          (insert_prio (prioritised n node priority y) priority node xs)
          (kqueue_push_prio n node (some q) priority))
        × Descending p.nodes (insert_prio (prioritised n node priority y) priority node xs)
  kqueue_push_prio_sorted xs out is sorted =
      let p = kqueue_push_prio-insert xs out is in
      let own : prio_of (prioritised n node priority y node) ≡ priority =
        ap prio_of (put_self n node (some (record y { priority = priority }))) in
      (
        p,
        Descending-congr (prioritised n node priority y) p.nodes
            (insert_prio (prioritised n node priority y) priority node xs)
            (λ a m. prio_of-payload (p.nodes a) (prioritised n node priority y a) (p.payloads a))
            (insert_prio-Descending (prioritised n node priority y) priority node xs own (
              Descending-congr n (prioritised n node priority y) xs
                (λ a m. ap prio_of (put_other n node a _ (ne_of_mem node a xs out m))) sorted)),
      )
