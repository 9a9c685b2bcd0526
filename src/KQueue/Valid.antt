-- ===== src/KQueue/Valid.antt =====
-- When a queue of kqueue.c holds a list of nodes, and what every operation leaves alone.
use utk.KQueue.Members.{Distinct}
use utk.Prelude.{
  ==→eq, ==→ne, Bool-cases, List, Option, ap, inl, inr, length, none, not, ok, some, sym, true, ℕ,
  ◌%◌, ◌+◌, ◌==◌, ◌^◌, ◌||◌, ◌∙◌, ◌≡◌, ◌≢◌, ◌≤◌,
}
use utk.KQueue.{Node, Queue, Nodes, put, enlist, enlisted_in}
use utk.KQueue.Segment.{Seg, put_self, put_other, node_at-some, update-some}

-- The queue holds the nodes `xs`, from its head to its tail. The counter is at least their number.
pub record IsQueue (n : Nodes) (q : Queue) (xs : List ℕ) : Type 0 where
  pub chain : Seg n 0 q.head xs 0 q.tail
  pub distinct : Distinct xs
  pub counted : length xs ≤ q.size

-- What a node carries.
abbrev pub payload : Option Node → Option (ℕ × ℕ)
payload none = none
payload (some y) = some (y.value, y.priority)

-- No node is allocated, freed or given another value or priority.
abbrev pub SamePayload : Nodes → Nodes → Type 0
SamePayload n n' = (a : ℕ) → payload (n' a) ≡ payload (n a)

pub SamePayload-put :
    (n : Nodes) (p : ℕ) (y z : Node)
    → n p ≡ some y
    → payload (some z) ≡ payload (some y)
    → SamePayload n (put n p (some z))
SamePayload-put n p y z e same a = elim (Bool-cases (a == p)) [
  | inl it ↦
      let at : a ≡ p = ==→eq a p it in
      ap (λ b. payload (put n p (some z) b)) at
      ∙ ap payload (put_self n p (some z))
      ∙ same
      ∙ sym (ap payload (ap n at ∙ e))
  | inr other ↦ ap payload (put_other n p a (some z) (==→ne a p other))
]

pub SamePayload-trans : (n n1 n2 : Nodes) → SamePayload n n1 → SamePayload n1 n2 → SamePayload n n2
SamePayload-trans n n1 n2 s t a = t a ∙ s a

-- The last steps of a push, at a node whose neighbours differ or of which one is NULL.
pub enlisted_in-ok :
    (node : ℕ) (q : Queue) (n : Nodes) (y : Node)
    → node ≢ 0
    → n node ≡ some y
    → (not (y.next == y.prev) || y.next == 0 || y.prev == 0) ≡ true
    → enlisted_in node q n
      ≡ ok (record q { size = (q.size + 1) % 2 ^ 32 }, put n node (some (enlist y)))
unfolding enlisted_in
enlisted_in-ok node q n y ne e acyclic = rw (
  update-some n node enlist y ne e,
  node_at-some (put n node (some (enlist y))) node (enlist y) ne
      (put_self n node (some (enlist y))),
  acyclic,
)
