-- ===== src/Sequence.antt =====
-- What a queue of Kernel/Sources/core/src/kqueue.c is to its clients: the sequence of its nodes, from
-- the head to the tail. scheduler.c and memmgt.c keep their threads and memory ranges in such queues.
pub mod Laws
pub mod Refinement
use utk.Prelude.{List, Option, [], if◌then◌else◌, ltb, none, some, ℕ, ◌∷◌}

-- kqueue_pop: the nodes before the last, and the last.
unfoldable pub pop_last {ℓ} : {A : Type ℓ} → List A → Option (List A × A)
pop_last [] = none
pop_last (x ∷ xs) = elim (pop_last xs) [ none ↦ some ([], x) | some (ys, y) ↦ some (x ∷ ys, y) ]

-- kqueue_push_prio: in front of the first node whose priority is at most that of the new one.
unfoldable pub push_prio {ℓ} : {A : Type ℓ} → (A → ℕ) → A → List A → List A
push_prio key a [] = a ∷ []
push_prio key a (x ∷ xs) =
    let rest = push_prio key a xs in if ltb (key a) (key x) then x ∷ rest else a ∷ x ∷ xs
