-- ===== src/KQueue.antt =====
-- The kernel's doubly linked queue, Kernel/Sources/core/src/kqueue.c, over a store of nodes. The
-- functions take the store and the queue and return them as they are afterwards; a `kqueue_t*` that
-- may be NULL is an `Option`. A failed KQUEUE_ASSERT halts the kernel: `panicked`.
pub mod Members
pub mod Segment
pub mod Valid
pub mod Push
pub mod Pop
pub mod Unlink
pub mod Remove
pub mod Insert
pub mod Priority
pub mod Find
use utk.Prelude.{
  Bool, Option, Run, endless, false, fault, if◌then◌else◌, ltb, malloc_failed, no_such_id, none,
  not, null_pointer, ok, panicked, some, suc, true, unauthorized_action, zero, ℕ, ◌%◌, ◌&&◌, ◌+◌,
  ◌-◌, ◌==◌, ◌>>=◌, ◌^◌, ◌||◌,
}

-- `kqueue_node_t`; the pointers are addresses, 0 is NULL.
pub record Node : Type 0 where
  pub next : ℕ
  pub prev : ℕ
  pub enlisted : Bool
  pub priority : ℕ
  pub value : ℕ

-- `kqueue_t`
pub record Queue : Type 0 where
  pub head : ℕ
  pub tail : ℕ
  pub size : ℕ

-- The nodes in memory; none where no node is allocated.
abbrev pub Nodes : Type 0
Nodes = ℕ → Option Node

unfoldable pub put : Nodes → ℕ → Option Node → Nodes
put n p y a = if a == p then y else n a

-- A read through a pointer.
unfoldable pub node_at : Nodes → ℕ → Run Node
node_at n p = if p == 0 then fault else (elim (n p) [ none ↦ fault | some y ↦ ok y ])

-- A write of some fields through a pointer.
unfoldable pub update : Nodes → ℕ → (Node → Node) → Run Nodes
update n p f = node_at n p >>= λ y. ok (put n p (some (f y)))

abbrev pub link : ℕ → ℕ → Node → Node
link next prev y = record y { next = next; prev = prev }

abbrev pub set_next : ℕ → Node → Node
set_next next y = record y { next = next }

abbrev pub set_prev : ℕ → Node → Node
set_prev prev y = record y { prev = prev }

abbrev pub enlist : Node → Node
enlist y = record y { enlisted = true }

abbrev pub unlist : Node → Node
unlist y = record y { next = 0; prev = 0; enlisted = false }

-- `fresh` is what kmalloc returned.
pub kqueue_create_node : Nodes → (fresh value : ℕ) → Run (ℕ × Nodes)
kqueue_create_node n fresh value =
    if fresh == 0
    then panicked malloc_failed
    else ok (
      fresh,
      put n fresh
          (some (record { next = 0; prev = 0; enlisted = false; priority = 0; value = value })),
    )

-- `*node`; the caller's pointer becomes NULL.
pub kqueue_delete_node : Nodes → ℕ → Run Nodes
kqueue_delete_node n node =
    if node == 0
    then panicked null_pointer
    else (node_at n node >>= λ y.
        if y.enlisted then panicked unauthorized_action else ok (put n node none))

pub kqueue_create_queue : (fresh : ℕ) → Run Queue
kqueue_create_queue fresh =
    if fresh == 0 then panicked malloc_failed else ok (record { head = 0; tail = 0; size = 0 })

pub kqueue_delete_queue : Option Queue → Run (Unit {0})
kqueue_delete_queue none = panicked null_pointer
kqueue_delete_queue (some q) =
    if q.head == 0 && q.tail == 0 then ok tt else panicked unauthorized_action

-- The last steps of both pushes: the counter, the mark and the check for a cycle.
unfoldable pub enlisted_in : ℕ → Queue → Nodes → Run (Queue × Nodes)
enlisted_in node q n = update n node enlist >>= λ n'. node_at n' node >>= λ y.
    if not (y.next == y.prev) || y.next == 0 || y.prev == 0
    then ok (record q { size = (q.size + 1) % 2 ^ 32 }, n')
    else panicked null_pointer

-- The branch for an empty queue, the same in both pushes.
unfoldable pub push_first : ℕ → Queue → Nodes → Run (Queue × Nodes)
unfolding enlisted_in
push_first node q n =
    update n node (link 0 0) >>= λ n'. enlisted_in node (record q { head = node; tail = node }) n'

unfoldable pub kqueue_push : Nodes → ℕ → Option Queue → Run (Queue × Nodes)
unfolding push_first
kqueue_push n node none = panicked null_pointer
kqueue_push n node (some q) =
    if node == 0
    then panicked null_pointer
    else if q.head == 0
    then push_first node q n
    else (update n node (link q.head 0) >>= λ n'.
        update n' q.head (set_prev node) >>= λ n''. enlisted_in node (record q { head = node }) n'')

-- `while(cursor != NULL && cursor->priority > priority) cursor = cursor->next`
unfoldable pub prio_loop : ℕ → ℕ → Nodes → ℕ → Run ℕ
prio_loop zero priority n cursor = endless
prio_loop (suc left) priority n cursor =
    let round = node_at n cursor >>= λ y.
    if ltb priority y.priority then prio_loop left priority n y.next else ok cursor in
    if cursor == 0 then ok 0 else round

-- Behind the loop: in front of `cursor`, or at the end of the queue.
unfoldable pub insert_at : ℕ → Queue → Nodes → ℕ → Run (Queue × Nodes)
unfolding enlisted_in
insert_at node q n cursor =
    if not (cursor == 0)
    then (node_at n cursor >>= λ c. update n node (link cursor c.prev) >>= λ n1.
        update n1 cursor (set_prev node) >>= λ n2. node_at n2 node >>= λ y.
        if not (y.prev == 0)
        then (update n2 y.prev (set_next node) >>= λ n3. enlisted_in node q n3)
        else enlisted_in node (record q { head = node }) n2)
    else (update n node (link 0 q.tail) >>= λ n1.
        update n1 q.tail (set_next node) >>= λ n2. enlisted_in node (record q { tail = node }) n2)

-- A queue that is well formed has at most `size` nodes, so its loops take `size + 1` rounds.
unfoldable pub kqueue_push_prio : Nodes → ℕ → Option Queue → ℕ → Run (Queue × Nodes)
unfolding push_first insert_at prio_loop
kqueue_push_prio n node none priority = panicked null_pointer
kqueue_push_prio n node (some q) priority =
    if node == 0
    then panicked null_pointer
    else (update n node (λ y. record y { priority = priority }) >>= λ n1.
        if q.head == 0
        then push_first node q n1
        else (prio_loop (q.size + 1) priority n1 q.head >>= insert_at node q n1))

-- The popped node, 0 if there is none.
unfoldable pub kqueue_pop : Nodes → Option Queue → Run (ℕ × Queue × Nodes)
kqueue_pop n none = panicked null_pointer
kqueue_pop n (some q) =
    if q.head == 0
    then ok (0, q, n)
    else (node_at n q.tail >>= λ y.
        (if not (y.prev == 0)
          then (update n y.prev (set_next 0) >>= λ n'. ok (record q { tail = y.prev }, n'))
          else ok (record q { head = 0; tail = 0 }, n))
        >>= λ (q', n'). update n' q.tail unlist >>= λ n''.
            ok (q.tail, record q' { size = (q.size + 2 ^ 32 - 1) % 2 ^ 32 }, n''))

unfoldable pub find_loop : ℕ → ℕ → Nodes → ℕ → Run ℕ
find_loop zero value n node = endless
find_loop (suc left) value n node =
    let round =
      node_at n node >>= λ y. if y.value == value then ok node else find_loop left value n y.next in
    if node == 0 then ok 0 else round

unfoldable pub kqueue_find : Nodes → Option Queue → ℕ → Run ℕ
unfolding find_loop
kqueue_find n none value = panicked null_pointer
kqueue_find n (some q) value = find_loop (q.size + 1) value n q.head

-- `while(cursor != NULL && cursor != node) cursor = cursor->next`
unfoldable pub seek_loop : ℕ → ℕ → Nodes → ℕ → Run ℕ
seek_loop zero node n cursor = endless
seek_loop (suc left) node n cursor =
    let round = node_at n cursor >>= λ y. seek_loop left node n y.next in
    if cursor == 0 then ok 0 else if cursor == node then ok cursor else round

-- The four cases of unlinking; a cursor that is NULL faults.
unfoldable pub unlink : Queue → Nodes → ℕ → Run (Queue × Nodes)
unlink q n cursor = node_at n cursor >>= λ c.
    if not (c.prev == 0) && not (c.next == 0)
    then (update n c.prev (set_next c.next) >>= λ n1.
        node_at n1 cursor >>= λ d. update n1 d.next (set_prev d.prev) >>= λ n2. ok (q, n2))
    else if (c.prev == 0) && not (c.next == 0)
    then (update n c.next (set_prev 0) >>= λ n1. ok (record q { head = c.next }, n1))
    else if not (c.prev == 0) && (c.next == 0)
    then (update n c.prev (set_next 0) >>= λ n1. ok (record q { tail = c.prev }, n1))
    else ok (record q { head = 0; tail = 0 }, n)

-- The size is not touched.
unfoldable pub kqueue_remove : Nodes → Option Queue → ℕ → (panic : Bool) → Run (Queue × Nodes)
unfolding seek_loop unlink
kqueue_remove n none node panic = panicked null_pointer
kqueue_remove n (some q) node panic =
    if node == 0
    then panicked null_pointer
    else (seek_loop (q.size + 1) node n q.head >>= λ cursor.
        if cursor == 0 && panic
        then panicked no_such_id
        else (unlink q n cursor >>= λ (q', n'). update n' node unlist >>= λ n''. ok (q', n'')))
