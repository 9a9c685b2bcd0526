-- ===== src/Queue/Agreement.antt =====
-- queue.c does what kqueue.c does, and returns an error where that halts the kernel.
use utk.Prelude.{
  Bool, Bool-cases, Error, Option, Run, ap, arith, endless, false, fault, if◌then◌else◌, inl, inr,
  is_no_err, ltb, no_err, none, not, ok, panicked, refl, some, suc, true, zero, ℕ, ◌&&◌, ◌+◌, ◌==◌,
  ◌>>=◌, ◌||◌, ◌≡◌, ◌≢◌,
}
use utk.KQueue.{
  unlist, kqueue_remove, insert_at, seek_loop, kqueue_push_prio, prio_loop, kqueue_pop, unlink, put,
  push_first, kqueue_push, node_at, update, enlisted_in, Node, Queue, Nodes,
}
use utk.Queue.{push_prio_into, queue_insert, remove_in, pop_from, queue_first, marked_in, push_into}

-- The outcome of a call of kqueue.c and of the same call of queue.c.
pub data Agree {ℓ} {A : Type ℓ} : Run A → Run (Error × A) → Type ℓ where
  returned : {a : A} → Agree (ok a) (ok (no_err, a))
  refused : {e e' : Error} {a : A} → is_no_err e' ≡ false → Agree (panicked e) (ok (e', a))
  faulted : Agree fault fault
  never : Agree endless endless

-- The same step in front of both.
both {ℓ κ} :
    {A : Type ℓ} {B : Type κ} (r : Run A) (f : A → Run B) (g : A → Run (Error × B))
    → ((a : A) → Agree (f a) (g a))
    → ((e : Error) → r ≢ panicked e)
    → Agree (r >>= f) (r >>= g)
both (ok a) f g agree quiet = agree a
both fault f g agree quiet = faulted
both (panicked e) f g agree quiet = absurd (quiet e refl)
both endless f g agree quiet = never

node_at_quiet : (n : Nodes) (p : ℕ) (e : Error) → node_at n p ≢ panicked e
unfolding node_at
node_at_quiet n p e = elim (Bool-cases (p == 0)) [
  | inl null ↦ rw null (λ same. absurd (cc same))
  | inr valid ↦ rw valid (go (n p))
]
  where
    go : (o : Option Node) → (elim o [ none ↦ fault | some y ↦ ok y ]) ≢ panicked e
    go none same = absurd (cc same)
    go (some y) same = absurd (cc same)

update_quiet : (n : Nodes) (p : ℕ) (f : Node → Node) (e : Error) → update n p f ≢ panicked e
unfolding update
update_quiet n p f e = go (node_at n p) (node_at_quiet n p e)
  where
    go : (r : Run Node) → r ≢ panicked e → (r >>= λ y. ok (put n p (some (f y)))) ≢ panicked e
    go (ok y) quiet same = absurd (cc same)
    go fault quiet same = absurd (cc same)
    go (panicked e') quiet same = quiet (ap panicked (cc same))
    go endless quiet same = absurd (cc same)

checked {ℓ} :
    {A : Type ℓ} (fine cyclic : Bool) (e e' : Error) (a : A)
    → cyclic ≡ not fine
    → is_no_err e' ≡ false
    → Agree (if fine then ok a else panicked e) (if cyclic then ok (e', a) else ok (no_err, a))
checked true cyclic e e' a opposite err = rw opposite returned
checked false cyclic e e' a opposite err = rw opposite (refused err)

marked_in-Agree :
    (node : ℕ) (q : Queue) (n : Nodes) → Agree (enlisted_in node q n) (marked_in node q n)
unfolding enlisted_in marked_in
marked_in-Agree node q n =
    both _ _ _
      (λ n'.
        both _ _ _
          (λ y.
            checked (not (y.next == y.prev) || y.next == 0 || y.prev == 0)
              (not (y.next == 0) && not (y.prev == 0) && y.next == y.prev) _ _ _ (ground arith)
              refl)
          (node_at_quiet n' node))
      (update_quiet n node _)

first-Agree :
    (node : ℕ) (q : Queue) (n : Nodes) → Agree (push_first node q n) (queue_first node q n)
unfolding push_first queue_first
first-Agree node q n = both _ _ _ (λ n'. marked_in-Agree node _ n') (update_quiet n node _)

-- A run that does not halt the kernel.
abbrev Quiet {ℓ} : {A : Type ℓ} → Run A → Type ℓ
Quiet r = (e : Error) → r ≢ panicked e

Quiet-bind {ℓ κ} :
    {A : Type ℓ} {B : Type κ} (r : Run A) (f : A → Run B)
    → Quiet r
    → ((a : A) → Quiet (f a))
    → Quiet (r >>= f)
Quiet-bind (ok a) f quiet next e same = next a e same
Quiet-bind fault f quiet next e same = absurd (cc same)
Quiet-bind (panicked e') f quiet next e same = absurd (quiet e' refl)
Quiet-bind endless f quiet next e same = absurd (cc same)

Quiet-if {ℓ} :
    {A : Type ℓ} (b : Bool) (r s : Run A) → Quiet r → Quiet s → Quiet (if b then r else s)
Quiet-if true r s quiet other = quiet
Quiet-if false r s quiet other = other

Quiet-ok {ℓ} : {A : Type ℓ} (a : A) → Quiet (ok a)
Quiet-ok a e same = absurd (cc same)

Quiet-endless {ℓ} : {A : Type ℓ} → Quiet {A = A} endless
Quiet-endless e same = absurd (cc same)

prio_loop-Quiet :
    (left priority : ℕ) (n : Nodes) (cursor : ℕ) → Quiet (prio_loop left priority n cursor)
unfolding prio_loop
prio_loop-Quiet zero priority n cursor = Quiet-endless
prio_loop-Quiet (suc left) priority n cursor = Quiet-if (cursor == 0) _ _ (Quiet-ok 0) (
    Quiet-bind _ _ (node_at_quiet n cursor) (λ y.
      Quiet-if (ltb priority y.priority) _ _ (prio_loop-Quiet left priority n y.next)
        (Quiet-ok cursor)))

seek_loop-Quiet : (left node : ℕ) (n : Nodes) (cursor : ℕ) → Quiet (seek_loop left node n cursor)
unfolding seek_loop
seek_loop-Quiet zero node n cursor = Quiet-endless
seek_loop-Quiet (suc left) node n cursor = Quiet-if (cursor == 0) _ _ (Quiet-ok 0) (
    Quiet-if (cursor == node) _ _ (Quiet-ok cursor)
      (Quiet-bind _ _ (node_at_quiet n cursor) (λ y. seek_loop-Quiet left node n y.next)))

unlink-Quiet : (q : Queue) (n : Nodes) (cursor : ℕ) → Quiet (unlink q n cursor)
unfolding unlink
unlink-Quiet q n cursor = Quiet-bind _ _ (node_at_quiet n cursor) (λ c.
    Quiet-if (not (c.prev == 0) && not (c.next == 0)) _ _
      (Quiet-bind _ _ (update_quiet n c.prev _) (λ n1.
        Quiet-bind _ _ (node_at_quiet n1 cursor)
          (λ d. Quiet-bind _ _ (update_quiet n1 d.next _) (λ n2. Quiet-ok (q, n2)))))
      (Quiet-if ((c.prev == 0) && not (c.next == 0)) _ _
        (Quiet-bind _ _ (update_quiet n c.next _) (λ n1. Quiet-ok _))
        (Quiet-if (not (c.prev == 0) && (c.next == 0)) _ _
          (Quiet-bind _ _ (update_quiet n c.prev _) (λ n1. Quiet-ok _)) (Quiet-ok _))))

-- push_into
pub push_into-Agree :
    (n : Nodes) (node : ℕ) (q : Queue) → Agree (kqueue_push n node (some q)) (push_into n node q)
unfolding kqueue_push push_into
push_into-Agree n node q = elim (Bool-cases (node == 0)) [
  | inl null ↦ rw null (refused refl)
  | inr valid ↦ elim (Bool-cases (q.head == 0)) [
    | inl empty ↦ rw (valid, empty) (first-Agree node q n)
    | inr more ↦
        rw (valid, more)
          (both _ _ _
            (λ n'. both _ _ _ (λ n''. marked_in-Agree node _ n'') (update_quiet n' q.head _))
            (update_quiet n node _))
  ]
]

Agree-if {ℓ} :
    {A : Type ℓ} (b : Bool) (r r' : Run A) (s s' : Run (Error × A))
    → Agree r s
    → Agree r' s'
    → Agree (if b then r else r') (if b then s else s')
Agree-if true r r' s s' agree other = agree
Agree-if false r r' s s' agree other = other

insert-Agree :
    (node : ℕ) (q : Queue) (n : Nodes) (cursor : ℕ)
    → Agree (insert_at node q n cursor) (queue_insert node q n cursor)
unfolding insert_at queue_insert
insert-Agree node q n cursor =
    Agree-if (not (cursor == 0)) _ _ _ _
      (both _ _ _
        (λ c.
          both _ _ _
            (λ n1.
              both _ _ _
                (λ n2.
                  both _ _ _
                    (λ y.
                      Agree-if (not (y.prev == 0)) _ _ _ _
                        (both _ _ _ (λ n3. marked_in-Agree node q n3) (update_quiet n2 y.prev _))
                        (marked_in-Agree node _ n2))
                    (node_at_quiet n2 node))
                (update_quiet n1 cursor _))
            (update_quiet n node _))
        (node_at_quiet n cursor))
      (both _ _ _ (λ n1. both _ _ _ (λ n2. marked_in-Agree node _ n2) (update_quiet n1 q.tail _))
        (update_quiet n node _))

-- push_prio_into
pub push_prio_into-Agree :
    (n : Nodes) (node : ℕ) (q : Queue) (priority : ℕ)
    → Agree (kqueue_push_prio n node (some q) priority) (push_prio_into n node q priority)
unfolding kqueue_push_prio push_prio_into
push_prio_into-Agree n node q priority = Agree-if (node == 0) _ _ _ _ (refused refl) (
    both _ _ _
      (λ n1. Agree-if (q.head == 0) _ _ _ _ (first-Agree node q n1) (
        both _ _ _ (λ cursor. insert-Agree node q n1 cursor)
          (prio_loop-Quiet (q.size + 1) priority n1 q.head)))
      (update_quiet n node _))

-- pop_from
pub pop_from-Agree : (n : Nodes) (q : Queue) → Agree (kqueue_pop n (some q)) (pop_from n q)
unfolding kqueue_pop pop_from
pop_from-Agree n q = Agree-if (q.head == 0) _ _ _ _ returned (
    both _ _ _
      (λ y.
        both _ _ _ (λ (q', n'). both _ _ _ (λ n''. returned) (update_quiet n' q.tail unlist))
          (Quiet-if (not (y.prev == 0)) _ _
            (Quiet-bind _ _ (update_quiet n y.prev _) (λ n'. Quiet-ok _)) (Quiet-ok _)))
      (node_at_quiet n q.tail))

-- remove_in and kqueue_remove, asked to halt on a node that is not there.
pub remove_in-Agree :
    (n : Nodes) (q : Queue) (node : ℕ)
    → Agree (kqueue_remove n (some q) node true) (remove_in n q node)
unfolding kqueue_remove remove_in
remove_in-Agree n q node = Agree-if (node == 0) _ _ _ _ (refused refl) (
    both _ _ _
      (λ cursor. elim (Bool-cases (cursor == 0)) [
        | inl missing ↦ rw missing (refused refl)
        | inr found ↦ rw found (
            both _ _ _ (λ (q', n'). both _ _ _ (λ n''. returned) (update_quiet n' node unlist))
              (unlink-Quiet q n cursor))
      ])
      (seek_loop-Quiet (q.size + 1) node n q.head))
