-- ===== src/Queue.antt =====
-- The queue that libstruct gives to its users, Kernel/Sources/lib/libstruct/src/queue.c. It is laid out
-- as the kernel's queue is, but returns an error where kqueue.c halts the kernel; its loops and its
-- unlinking are those of kqueue.c, word for word, and have their names from there. `fresh` is what the
-- allocator returned.
pub mod Agreement
pub mod Refinement
use utk.Prelude.{
  Error, Option, Run, false, if◌then◌else◌, malloc_failed, no_err, no_such_id, none, not,
  null_pointer, ok, some, unauthorized_action, ℕ, ◌%◌, ◌&&◌, ◌+◌, ◌-◌, ◌==◌, ◌>>=◌, ◌^◌,
}
use utk.KQueue.{
  set_prev, find_loop, link, set_next, unlist, enlist, Node, Queue, Nodes, put, node_at, update,
  prio_loop, seek_loop, unlink,
}

pub queue_create_node : Nodes → (fresh value : ℕ) → Error × ℕ × Nodes
queue_create_node n fresh value = if fresh == 0 then (malloc_failed, 0, n) else (
  no_err,
  fresh,
  put n fresh (some (record { next = 0; prev = 0; enlisted = false; priority = 0; value = value })),
)

-- `*node`; the caller's pointer becomes NULL when the node is freed.
pub queue_delete_node : Nodes → ℕ → Run (Error × Nodes)
queue_delete_node n node =
    if node == 0
    then ok (null_pointer, n)
    else (node_at n node >>= λ y.
        if y.enlisted then ok (unauthorized_action, n) else ok (no_err, put n node none))

pub queue_create_queue : (fresh : ℕ) → Error × Option Queue
queue_create_queue fresh =
    if fresh == 0
    then (malloc_failed, none)
    else (no_err, some (record { head = 0; tail = 0; size = 0 }))

pub queue_delete_queue : Option Queue → Error × Option Queue
queue_delete_queue none = (null_pointer, none)
queue_delete_queue (some q) =
    if q.head == 0 && q.tail == 0 then (no_err, none) else (unauthorized_action, some q)

-- The last steps of both pushes: the counter, the mark and the check for a cycle.
pub marked_in : ℕ → Queue → Nodes → Run (Error × (Queue × Nodes))
marked_in node q n = update n node enlist >>= λ n'. node_at n' node >>= λ y.
    let q' = record q { size = (q.size + 1) % 2 ^ 32 } in
    if not (y.next == 0) && not (y.prev == 0) && y.next == y.prev
    then ok (unauthorized_action, (q', n'))
    else ok (no_err, (q', n'))

-- The branch for an empty queue, the same in both pushes.
pub queue_first : ℕ → Queue → Nodes → Run (Error × (Queue × Nodes))
queue_first node q n =
    update n node (link 0 0) >>= λ n'. marked_in node (record q { head = node; tail = node }) n'

pub push_into : Nodes → ℕ → Queue → Run (Error × (Queue × Nodes))
push_into n node q =
    if node == 0
    then ok (null_pointer, (q, n))
    else if q.head == 0
    then queue_first node q n
    else (update n node (link q.head 0) >>= λ n'.
        update n' q.head (set_prev node) >>= λ n''. marked_in node (record q { head = node }) n'')

-- Behind the loop: in front of `cursor`, or at the end of the queue.
pub queue_insert : ℕ → Queue → Nodes → ℕ → Run (Error × (Queue × Nodes))
queue_insert node q n cursor =
    if not (cursor == 0)
    then (node_at n cursor >>= λ c. update n node (link cursor c.prev) >>= λ n1.
        update n1 cursor (set_prev node) >>= λ n2. node_at n2 node >>= λ y.
        if not (y.prev == 0)
        then (update n2 y.prev (set_next node) >>= λ n3. marked_in node q n3)
        else marked_in node (record q { head = node }) n2)
    else (update n node (link 0 q.tail) >>= λ n1.
        update n1 q.tail (set_next node) >>= λ n2. marked_in node (record q { tail = node }) n2)

pub push_prio_into : Nodes → ℕ → Queue → ℕ → Run (Error × (Queue × Nodes))
push_prio_into n node q priority =
    if node == 0
    then ok (null_pointer, (q, n))
    else (update n node (λ y. record y { priority = priority }) >>= λ n1.
        if q.head == 0
        then queue_first node q n1
        else (prio_loop (q.size + 1) priority n1 q.head >>= queue_insert node q n1))

-- The error and the popped node, 0 if there is none.
pub pop_from : Nodes → Queue → Run (Error × (ℕ × Queue × Nodes))
pop_from n q =
    if q.head == 0
    then ok (no_err, (0, q, n))
    else (node_at n q.tail >>= λ y.
        (if not (y.prev == 0)
          then (update n y.prev (set_next 0) >>= λ n'. ok (record q { tail = y.prev }, n'))
          else ok (record q { head = 0; tail = 0 }, n))
        >>= λ (q', n'). update n' q.tail unlist >>= λ n''.
            ok (no_err, (q.tail, record q' { size = (q.size + 2 ^ 32 - 1) % 2 ^ 32 }, n'')))

pub find_in : Nodes → Queue → ℕ → Run (Error × ℕ)
find_in n q value = find_loop (q.size + 1) value n q.head >>= λ node.
    if node == 0 then ok (no_such_id, 0) else ok (no_err, node)

-- The size is not touched.
pub remove_in : Nodes → Queue → ℕ → Run (Error × (Queue × Nodes))
remove_in n q node =
    if node == 0
    then ok (null_pointer, (q, n))
    else (seek_loop (q.size + 1) node n q.head >>= λ cursor.
        if cursor == 0
        then ok (no_such_id, (q, n))
        else (unlink q n cursor >>= λ (q', n').
            update n' node unlist >>= λ n''. ok (no_err, (q', n''))))

-- The five functions on a queue, which may be NULL.
abbrev pub with_queue {ℓ} : {A : Type ℓ} → Error × (Queue × A) → Run (Error × (Option Queue × A))
with_queue (e, (q, a)) = ok (e, (some q, a))

unfoldable pub queue_push : Nodes → ℕ → Option Queue → Run (Error × (Option Queue × Nodes))
queue_push n node none = ok (null_pointer, (none, n))
queue_push n node (some q) = push_into n node q >>= with_queue

unfoldable pub queue_push_prio : Nodes → ℕ → Option Queue → ℕ → Run (Error × (Option Queue × Nodes))
queue_push_prio n node none priority = ok (null_pointer, (none, n))
queue_push_prio n node (some q) priority = push_prio_into n node q priority >>= with_queue

unfoldable pub queue_pop : Nodes → Option Queue → Run (Error × (ℕ × Option Queue × Nodes))
queue_pop n none = ok (null_pointer, (0, none, n))
queue_pop n (some q) = pop_from n q >>= λ (e, (node, q', n')). ok (e, (node, some q', n'))

pub queue_find : Nodes → Option Queue → ℕ → Run (Error × ℕ)
queue_find n none value = ok (null_pointer, 0)
queue_find n (some q) value = find_in n q value

unfoldable pub queue_remove : Nodes → Option Queue → ℕ → Run (Error × (Option Queue × Nodes))
queue_remove n none node = ok (null_pointer, (none, n))
queue_remove n (some q) node = remove_in n q node >>= with_queue
