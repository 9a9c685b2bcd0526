-- ===== src/KQueue/Find.antt =====
-- kqueue_find of kqueue.c returns the first node that carries a value.
use utk.Prelude.{
  Bool, Bool-cases, List, Option, [], ap, arith, false, if◌then◌else◌, inl, inr, length, ne→==,
  none, ok, some, suc, zero, ℕ, ◌+◌, ◌<◌, ◌==◌, ◌∷◌, ◌≡◌,
}
use utk.KQueue.{Node, Queue, Nodes, find_loop, kqueue_find}
use utk.KQueue.Segment.{Seg, node_at-some}
use utk.KQueue.Valid.{IsQueue}

abbrev pub carries : ℕ → Option Node → Bool
carries value none = false
carries value (some y) = y.value == value

-- The first node of a list that carries the value, NULL if there is none.
pub find_first : Nodes → ℕ → List ℕ → ℕ
find_first n value [] = 0
find_first n value (x ∷ xs) = if carries value (n x) then x else find_first n value xs

find_loop-first :
    (n : Nodes) (value left before p : ℕ) (xs : List ℕ) (last : ℕ)
    → length xs < left
    → Seg n before p xs 0 last
    → find_loop left value n p ≡ ok (find_first n value xs)
unfolding find_loop find_first
find_loop-first n value zero before p xs last fuel s = absurd (omega arith)
find_loop-first n value (suc left) before p [] last fuel (at, e) = simp at
find_loop-first n value (suc left) before p (x ∷ xs) last fuel (at, ne, (y, here, back, on, rest)) =
    let same : carries value (n x) ≡ (y.value == value) = ap (carries value) here in
    elim (Bool-cases (y.value == value)) [
      | inl it ↦ simp (at, ne→== x 0 ne, node_at-some n x y ne here, same, it)
      | inr other ↦
          simp (at, ne→== x 0 ne, node_at-some n x y ne here, same, other)
            (find_loop-first n value left x y.next xs last (omega arith) rest)
    ]

-- kqueue_find on a queue that holds a list always ends, at the first node of the list that carries
-- the value, or with NULL if none does.
pub kqueue_find-first :
    (n : Nodes) (q : Queue) (value : ℕ) (xs : List ℕ)
    → IsQueue n q xs
    → kqueue_find n (some q) value ≡ ok (find_first n value xs)
unfolding kqueue_find
kqueue_find-first n q value xs is =
    find_loop-first n value (q.size + 1) 0 q.head xs q.tail (omega (arith, is.counted)) is.chain
