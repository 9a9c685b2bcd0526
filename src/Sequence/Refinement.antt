-- ===== src/Sequence/Refinement.antt =====
-- Any calls of kqueue.c, and of queue.c, that keep the rules of a queue do to its nodes what the
-- operations on the sequence say.
use utk.Prelude.{
  ==_refl, ==→eq, ==→ne, Bool, Bool-cases, List, Option, Returns, Run, [], ap, ap₂, arith, bind,
  false, if◌then◌else◌, inl, inr, ltb, none, not, ok, refl, returns, some, subst, sym, true, ℕ,
  ◌&&◌, ◌++◌, ◌+◌, ◌-◌, ◌<◌, ◌==◌, ◌>>=◌, ◌^◌, ◌∙◌, ◌∷◌, ◌≡◌, ◌≢◌,
}
use utk.KQueue.{put, kqueue_remove, kqueue_pop, kqueue_push_prio, kqueue_push, Node, Queue, Nodes}
use utk.KQueue.Members.{mem}
use utk.KQueue.Valid.{IsQueue, payload, SamePayload}
use utk.KQueue.Priority.{prioritised, kqueue_push_prio-insert, prio_of, insert_prio}
use utk.Sequence.{push_prio, pop_last}
use utk.KQueue.Remove.{kqueue_remove-erase}
use utk.Sequence.Laws.{pop_last-cases}
use utk.KQueue.Push.{kqueue_push-cons}
use utk.KQueue.Pop.{kqueue_pop-snoc}

pub data Op : Type 0 where
  push : (node : ℕ) → Op
  push_prio_of : (node priority : ℕ) → Op
  pop : Op
  remove : (node : ℕ) → Op

-- What a client knows of a queue: the sequence of its nodes, the priority of every node, which nodes
-- are allocated, and the counter, which kqueue_remove does not lower.
pub record Spec : Type 0 where
  pub items : List ℕ
  pub prio : ℕ → ℕ
  pub allocated : ℕ → Bool
  pub counter : ℕ

abbrev pub erase : ℕ → List ℕ → List ℕ
erase x [] = []
erase x (y ∷ ys) = let rest = erase x ys in if x == y then ys else y ∷ rest

abbrev pub priorities : Spec → (node priority : ℕ) → ℕ → ℕ
priorities s node priority a = if a == node then priority else s.prio a

-- The node that a pop gives, 0 where there is none, and what is left.
unfoldable pub spec_step : Op → Spec → ℕ × Spec
spec_step (push node) s = (0, record s { items = node ∷ s.items; counter = s.counter + 1 })
spec_step (push_prio_of node priority) s =
    let key = priorities s node priority in
    (0, record s { items = push_prio key node s.items; prio = key; counter = s.counter + 1 })
spec_step pop s = elim (pop_last s.items) [
  | none ↦ (0, s)
  | some (rest, x) ↦ (x, record s { items = rest; counter = s.counter - 1 })
]
spec_step (remove node) s = (0, record s { items = erase node s.items })

-- A node that is pushed is allocated and not in the queue, and the counter has room; one that is
-- removed is in it.
abbrev pub enters : ℕ → Spec → Bool
enters node s =
    not (node == 0) && s.allocated node && not (mem node s.items) && ltb (s.counter + 1) (2 ^ 32)

abbrev pub allowed : Op → Spec → Bool
allowed (push node) s = enters node s
allowed (push_prio_of node priority) s = enters node s
allowed pop s = true
allowed (remove node) s = mem node s.items

unfoldable pub kqueue_step : Op → Nodes → Queue → Run (ℕ × Queue × Nodes)
kqueue_step (push node) n q = kqueue_push n node (some q) >>= λ (q', n'). ok (0, q', n')
kqueue_step (push_prio_of node priority) n q =
    kqueue_push_prio n node (some q) priority >>= λ (q', n'). ok (0, q', n')
kqueue_step pop n q = kqueue_pop n (some q)
kqueue_step (remove node) n q = kqueue_remove n (some q) node true >>= λ (q', n'). ok (0, q', n')

abbrev pub is_some {ℓ} : {A : Type ℓ} → Option A → Bool
is_some none = false
is_some (some a) = true

pub record Represents (n : Nodes) (q : Queue) (s : Spec) : Type 0 where
  pub queue : IsQueue n q s.items
  pub counter : q.size ≡ s.counter
  pub word : q.size < 2 ^ 32
  pub allocated : (a : ℕ) → is_some (n a) ≡ s.allocated a
  pub prio : (a : ℕ) → prio_of (n a) ≡ s.prio a

abbrev pub Follows : ℕ × Spec → ℕ × Queue × Nodes → Type 0
Follows (out, s) (out', q, n) = (out' ≡ out) × Represents n q s

payload-is_some : (o o' : Option Node) → payload o' ≡ payload o → is_some o' ≡ is_some o
payload-is_some none none e = refl
payload-is_some none (some y) e = absurd (cc e)
payload-is_some (some y) none e = absurd (cc e)
payload-is_some (some y) (some z) e = refl

payload-prio_of : (o o' : Option Node) → payload o' ≡ payload o → prio_of o' ≡ prio_of o
payload-prio_of none none e = refl
payload-prio_of none (some y) e = absurd (cc e)
payload-prio_of (some y) none e = absurd (cc e)
payload-prio_of (some y) (some z) e = cc e

allocated_node : (o : Option Node) → is_some o ≡ true → (y : Node) × (o ≡ some y)
allocated_node none e = absurd (cc e)
allocated_node (some y) e = (y, refl)

insert_prio-push_prio :
    (n : Nodes) (key : ℕ → ℕ) (priority node : ℕ) (xs : List ℕ)
    → key node ≡ priority
    → ((a : ℕ) → prio_of (n a) ≡ key a)
    → insert_prio n priority node xs ≡ push_prio key node xs
unfolding insert_prio push_prio
insert_prio-push_prio n key priority node [] own same = refl
insert_prio-push_prio n key priority node (x ∷ xs) own same =
    ap₂ (λ p k. if ltb p k then x ∷ insert_prio n priority node xs else node ∷ x ∷ xs) (sym own)
      (same x)
    ∙ ap (λ t. if ltb (key node) (key x) then x ∷ t else node ∷ x ∷ xs)
        (insert_prio-push_prio n key priority node xs own same)

split_at_node :
    (x : ℕ) (xs : List ℕ)
    → mem x xs ≡ true
    → (us : List ℕ) × (vs : List ℕ) × (xs ≡ us ++ x ∷ vs) × (erase x xs ≡ us ++ vs)
split_at_node x [] m = absurd (cc m)
split_at_node x (y ∷ ys) m = elim (Bool-cases (x == y)) [
  | inl it ↦ ([], ys, ap (λ z. z ∷ ys) (sym (==→eq x y it)), rw it refl)
  | inr other ↦
      let (us, vs, whole, left) = split_at_node x ys (ground (arith, m, other)) in
      (y ∷ us, vs, ap (λ t. y ∷ t) whole, rw other (ap (λ t. y ∷ t) left))
]

-- What a call that keeps every payload leaves.
same_payloads :
    (n n' : Nodes) (q : Queue) (s : Spec) (items : List ℕ) (counter : ℕ)
    → ((a : ℕ) → is_some (n a) ≡ s.allocated a)
    → ((a : ℕ) → prio_of (n a) ≡ s.prio a)
    → IsQueue n' q items
    → q.size ≡ counter
    → q.size < 2 ^ 32
    → SamePayload n n'
    → Represents n' q (record s { items = items; counter = counter })
same_payloads n n' q s items counter allocated prio queue size word same = record {
  queue = queue;
  counter = size;
  word = word;
  allocated = λ a. payload-is_some (n a) (n' a) (same a) ∙ allocated a;
  prio = λ a. payload-prio_of (n a) (n' a) (same a) ∙ prio a;
}

pop_empty : (n : Nodes) (q : Queue) → IsQueue n q [] → kqueue_pop n (some q) ≡ ok (0, q, n)
unfolding kqueue_pop
pop_empty n q is = simp is.chain.0 refl

prioritised-prio_of :
    (n : Nodes) (node priority : ℕ) (y : Node) (a : ℕ) (prio : ℕ → ℕ)
    → ((b : ℕ) → prio_of (n b) ≡ prio b)
    → prio_of (prioritised n node priority y a) ≡ (if a == node then priority else prio a)
unfolding put
prioritised-prio_of n node priority y a prio same = elim (Bool-cases (a == node)) [
  | inl it ↦ rw it refl
  | inr other ↦ rw other (same a)
]

prioritised-is_some :
    (n : Nodes) (node priority : ℕ) (y : Node) (a : ℕ)
    → n node ≡ some y
    → is_some (prioritised n node priority y a) ≡ is_some (n a)
unfolding put
prioritised-is_some n node priority y a here = elim (Bool-cases (a == node)) [
  | inl it ↦ rw it (sym (ap is_some (ap n (==→eq a node it) ∙ here)))
  | inr other ↦ rw other refl
]

module _ (n : Nodes) (q : Queue) (s : Spec) (rep : Represents n q s) where
  entering :
      (node : ℕ)
      → enters node s ≡ true
      → (node ≢ 0)
        × ((y : Node) × (n node ≡ some y))
        × (mem node s.items ≡ false)
        × (q.size + 1 < 2 ^ 32)
  entering node ok_to = (
    ==→ne node 0 (ground (arith, ok_to)),
    allocated_node (n node) (rep.allocated node ∙ ground (arith, ok_to)),
    ground (arith, ok_to),
    ground (arith, ok_to, rep.counter),
  )

  push-Follows :
      (node : ℕ)
      → enters node s ≡ true
      → Returns (Follows (spec_step (push node) s)) (kqueue_step (push node) n q)
  unfolding kqueue_step spec_step
  push-Follows node may =
      let (ne, (y, here), out, room) = entering node may in
      let p = kqueue_push-cons n q node y ne here room s.items out rep.queue in
      rw p.runs (
        returns (
          refl,
          same_payloads n p.nodes p.queue s (node ∷ s.items) (s.counter + 1) rep.allocated rep.prio
              p.holds (p.size ∙ ap (λ c. c + 1) rep.counter) (omega (arith, p.size, room))
              p.payloads,
        ))

  push_prio-Follows :
      (node priority : ℕ)
      → enters node s ≡ true
      → Returns
          (Follows (spec_step (push_prio_of node priority) s))
          (kqueue_step (push_prio_of node priority) n q)
  unfolding kqueue_step spec_step
  push_prio-Follows node priority may =
      let (ne, (y, here), out, room) = entering node may in
      let p = kqueue_push_prio-insert n q node priority y ne here room s.items out rep.queue in
      let key = priorities s node priority in
      let n1 = prioritised n node priority y in
      let prio1 : (a : ℕ) → prio_of (n1 a) ≡ key a =
        λ a. prioritised-prio_of n node priority y a s.prio rep.prio in
      let alloc1 : (a : ℕ) → is_some (n1 a) ≡ s.allocated a =
        λ a. prioritised-is_some n node priority y a here ∙ rep.allocated a in
      let own : key node ≡ priority = rw (==_refl node) refl in
      rw p.runs (
        returns (
          refl,
          same_payloads n1 p.nodes p.queue (record s { prio = key }) (push_prio key node s.items)
              (s.counter + 1) alloc1 prio1
              (subst (IsQueue p.nodes p.queue)
                (insert_prio-push_prio n1 key priority node s.items own prio1) p.holds)
              (p.size ∙ ap (λ c. c + 1) rep.counter) (omega (arith, p.size, room)) p.payloads,
        ))

  pop-Follows : Returns (Follows (spec_step pop s)) (kqueue_step pop n q)
  unfolding kqueue_step spec_step
  pop-Follows = elim (pop_last-cases s.items) [
    | inl (nil, e) ↦
        rw (pop_empty n q (subst (IsQueue n q) nil rep.queue), spec_step, e) (returns (refl, rep))
    | inr (rest, x, parts, e) ↦
        let p = kqueue_pop-snoc n q x rep.word rest (subst (IsQueue n q) parts rep.queue) in
        rw (p.runs, spec_step, e)
          (returns (
            refl,
            same_payloads n p.nodes p.queue s rest (s.counter - 1) rep.allocated rep.prio p.holds
                (omega (arith, p.size, rep.counter)) (omega (arith, p.size, rep.word)) p.payloads,
          ))
  ]

  remove-Follows :
      (node : ℕ)
      → mem node s.items ≡ true
      → Returns (Follows (spec_step (remove node) s)) (kqueue_step (remove node) n q)
  unfolding kqueue_step spec_step
  remove-Follows node m =
      let (us, vs, whole, left) = split_at_node node s.items m in
      let p = kqueue_remove-erase n q us node vs true (subst (IsQueue n q) whole rep.queue) in
      rw p.runs (
        returns (
          refl,
          same_payloads n p.nodes p.queue s (erase node s.items) s.counter rep.allocated rep.prio
              (subst (IsQueue p.nodes p.queue) (sym left) p.holds) (p.size ∙ rep.counter)
              (omega (arith, p.size, rep.word)) p.payloads,
        ))

  pub step-Follows :
      (op : Op) → allowed op s ≡ true → Returns (Follows (spec_step op s)) (kqueue_step op n q)
  step-Follows (push node) may = push-Follows node may
  step-Follows (push_prio_of node priority) may = push_prio-Follows node priority may
  step-Follows pop may = pop-Follows
  step-Follows (remove node) may = remove-Follows node may

-- A run of calls: the nodes that were popped, and what is left.
unfoldable pub kqueue_run : List Op → Nodes → Queue → Run (List ℕ × Queue × Nodes)
kqueue_run [] n q = ok ([], q, n)
kqueue_run (op ∷ ops) n q = kqueue_step op n q >>= λ (out, q', n').
    kqueue_run ops n' q' >>= λ (outs, q'', n''). ok (out ∷ outs, q'', n'')

unfoldable pub spec_run : List Op → Spec → List ℕ × Spec
spec_run [] s = ([], s)
spec_run (op ∷ ops) s =
    let (out, s') = spec_step op s in let (outs, s'') = spec_run ops s' in (out ∷ outs, s'')

-- Every call keeps the rules in its turn.
unfoldable pub all_allowed : List Op → Spec → Bool
all_allowed [] s = true
all_allowed (op ∷ ops) s = allowed op s && all_allowed ops (spec_step op s).1

abbrev pub Implements : List ℕ × Spec → List ℕ × Queue × Nodes → Type 0
Implements (outs, s) (outs', q, n) = (outs' ≡ outs) × Represents n q s

-- Any sequence of kqueue_push, kqueue_push_prio, kqueue_pop and kqueue_remove that keeps the
-- rules never faults, panics or loops for ever: the nodes that it pops and the list, the
-- priorities and the counter that it leaves are those that the operations on the sequence of
-- nodes give. The rules are that a pushed node is allocated and not in the queue, that a removed
-- one is in it, and that the counter is below 2^32 - 1 before a push.
pub kqueue_run-Implements :
    (ops : List Op) (n : Nodes) (q : Queue) (s : Spec)
    → Represents n q s
    → all_allowed ops s ≡ true
    → Returns (Implements (spec_run ops s)) (kqueue_run ops n q)
unfolding kqueue_run spec_run all_allowed
kqueue_run-Implements [] n q s rep may = returns (refl, rep)
kqueue_run-Implements (op ∷ ops) n q s rep may =
    bind _ (step-Follows n q s rep op (ground (arith, may))) (λ (out, q', n') (same, rep').
      bind _ (kqueue_run-Implements ops n' q' (spec_step op s).1 rep' (ground (arith, may)))
        (λ (outs, q'', n'') (sames, rep''). returns (ap₂ (λ x xs. x ∷ xs) same sames, rep'')))
