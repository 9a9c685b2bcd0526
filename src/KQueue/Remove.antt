-- ===== src/KQueue/Remove.antt =====
-- kqueue_remove of kqueue.c unlinks a node wherever it stands.
use utk.KQueue.Members.{mem-append_out, around, Distinct-join, mem}
use utk.Prelude.{
  Bool, List, Run, arith, false, fault, if◌then◌else◌, length-append, ne→==, no_such_id, ok,
  panicked, refl, some, ℕ, ◌++◌, ◌+◌, ◌∷◌, ◌≡◌, ◌≢◌,
}
use utk.KQueue.{unlist, node_at, kqueue_remove, Queue, Nodes, put, unlink}
use utk.KQueue.Segment.{put_self, inner, frame-put, update-some}
use utk.KQueue.Pop.{IsFree}
use utk.KQueue.Valid.{SamePayload-trans, IsQueue, SamePayload, SamePayload-put}
use utk.KQueue.Unlink.{seek_loop-finds, seek_loop-misses, unlink-Unlinked}

-- The outcome of a removal that leaves the list `xs`.
pub record Removed (n : Nodes) (q : Queue) (xs : List ℕ) (x : ℕ) (run : Run (Queue × Nodes))
    : Type 0 where
  pub queue : Queue
  pub nodes : Nodes
  pub runs : run ≡ ok (queue, nodes)
  pub holds : IsQueue nodes queue xs
  pub size : queue.size ≡ q.size
  pub free : IsFree nodes x
  pub payloads : SamePayload n nodes

module _ (n : Nodes) (q : Queue) where
  -- kqueue_remove of a node of the queue, wherever it stands, never faults or panics: the queue
  -- holds the other nodes in order, the node is in no queue and no node's value or priority
  -- changes. The size counter stays as it was.
  pub kqueue_remove-erase :
      (us : List ℕ) (x : ℕ) (vs : List ℕ) (panic : Bool)
      → IsQueue n q (us ++ x ∷ vs)
      → Removed n q (us ++ vs) x (kqueue_remove n (some q) x panic)
  unfolding kqueue_remove
  kqueue_remove-erase us x vs panic is =
      let d = around us x vs is.distinct in
      let (c, y, front, ne, here, back, on, rest) = inner n 0 q.head us x vs 0 q.tail is.chain in
      let total = length-append us (x ∷ vs) in
      let u = unlink-Unlinked n q x y ne here us vs c d back front rest in
      let n' = put u.nodes x (some (unlist y)) in
      record {
        queue = u.queue;
        nodes = n';
        runs = simp (
          ne→== x 0 ne,
          seek_loop-finds n (q.size + 1) x 0 q.head us vs 0 q.tail d.out_front
              (omega (arith, is.counted)) is.chain,
          u.runs,
          update-some u.nodes x unlist y ne u.same,
        );
        holds = record {
          chain =
              frame-put u.nodes x (some (unlist y)) 0 u.queue.head (us ++ vs) 0 u.queue.tail
                (mem-append_out x us vs d.out_front d.out_back) u.chain;
          distinct = Distinct-join us vs d.front d.back d.apart;
          counted = omega (arith, is.counted, u.size, length-append us vs);
        };
        size = u.size;
        free = record {
          node = unlist y;
          here = put_self u.nodes x (some (unlist y));
          next = refl;
          prev = refl;
          off = refl;
        };
        payloads =
            SamePayload-trans n u.nodes n' u.payloads
              (SamePayload-put u.nodes x y (unlist y) u.same refl);
      }

  -- kqueue_remove of a node that the queue does not hold panics if it was asked to, and otherwise
  -- goes on to read through the NULL cursor.
  pub kqueue_remove_missing :
      (xs : List ℕ) (x : ℕ) (panic : Bool)
      → x ≢ 0
      → mem x xs ≡ false
      → IsQueue n q xs
      → kqueue_remove n (some q) x panic ≡ (if panic then panicked no_such_id else fault)
  unfolding kqueue_remove unlink node_at
  kqueue_remove_missing xs x panic ne out is = simp (
    ne→== x 0 ne,
    seek_loop-misses n (q.size + 1) x 0 q.head xs q.tail out (omega (arith, is.counted)) is.chain,
  )
