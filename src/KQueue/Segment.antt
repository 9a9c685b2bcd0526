-- ===== src/KQueue/Segment.antt =====
-- Segments of a doubly linked list of kqueue.c, and the writes that change or spare them.
use utk.Prelude.{
  ==_refl, List, Option, [], ap, false, ne→==, ok, refl, some, subst, sym, true, ℕ, ◌++◌, ◌∙◌, ◌∷◌,
  ◌≡◌, ◌≢◌,
}
use utk.KQueue.{Node, Nodes, put, node_at, update, set_next, set_prev}
use utk.KQueue.Members.{mem, Distinct, mem-append_false, mem_head, mem_tail, mem_ne, ne_of_mem}

-- From `p` the `next` pointers lead through the enlisted nodes `xs` to `after`, and the `prev`
-- pointers back from `last` to `before`.
abbrev pub Seg : Nodes → ℕ → ℕ → List ℕ → ℕ → ℕ → Type 0
Seg n before p [] after last = (p ≡ after) × (before ≡ last)
Seg n before p (x ∷ xs) after last =
    (p ≡ x)
    × (x ≢ 0)
    × ((y : Node) × (n x ≡ some y)
        × (y.prev ≡ before)
        × (y.enlisted ≡ true)
        × Seg n x y.next xs after last)

pub node_at-some : (n : Nodes) (p : ℕ) (y : Node) → p ≢ 0 → n p ≡ some y → node_at n p ≡ ok y
unfolding node_at
node_at-some n p y ne e = rw (ne→== p 0 ne, e)

pub update-some :
    (n : Nodes) (p : ℕ) (f : Node → Node) (y : Node)
    → p ≢ 0
    → n p ≡ some y
    → update n p f ≡ ok (put n p (some (f y)))
unfolding update
update-some n p f y ne e = rw (node_at-some n p y ne e)

pub put_self : (n : Nodes) (p : ℕ) (y : Option Node) → put n p y p ≡ y
unfolding put
put_self n p y = rw (==_refl p)

pub put_other : (n : Nodes) (p a : ℕ) (y : Option Node) → a ≢ p → put n p y a ≡ n a
unfolding put
put_other n p a y ne = rw (ne→== a p ne)

-- A segment survives every change elsewhere.
pub frame :
    (n n' : Nodes) (before p : ℕ) (xs : List ℕ) (after last : ℕ)
    → ((a : ℕ) → mem a xs ≡ true → n' a ≡ n a)
    → Seg n before p xs after last
    → Seg n' before p xs after last
frame n n' before p [] after last same s = s
frame n n' before p (x ∷ xs) after last same (at, ne, (y, here, back, on, rest)) = (
  at,
  ne,
  (
    y,
    same x (mem_head x xs) ∙ here,
    back,
    on,
    frame n n' x y.next xs after last (λ a m. same a (mem_tail a x xs m)) rest,
  ),
)

pub frame-put :
    (n : Nodes) (b : ℕ) (y : Option Node) (before p : ℕ) (xs : List ℕ) (after last : ℕ)
    → mem b xs ≡ false
    → Seg n before p xs after last
    → Seg (put n b y) before p xs after last
frame-put n b y before p xs after last out =
    frame n (put n b y) before p xs after last (λ a m. put_other n b a y (ne_of_mem b a xs out m))

-- A segment of two parts, from the address and the predecessor where the second starts.
pub split :
    (n : Nodes) (before p : ℕ) (us vs : List ℕ) (after last : ℕ)
    → Seg n before p (us ++ vs) after last
    → (r m : ℕ) × Seg n before p us r m × Seg n m r vs after last
split n before p [] vs after last s = (p, before, (refl, refl), s)
split n before p (u ∷ us) vs after last (at, ne, (y, here, back, on, rest)) =
    let (r, m, front, behind) = split n u y.next us vs after last rest in
    (r, m, (at, ne, (y, here, back, on, front)), behind)

pub join :
    (n : Nodes) (before p : ℕ) (us vs : List ℕ) (r m after last : ℕ)
    → Seg n before p us r m
    → Seg n m r vs after last
    → Seg n before p (us ++ vs) after last
join n before p [] vs r m after last (e, e') t =
    subst (λ c. Seg n before c vs after last) (sym e)
      (subst (λ c. Seg n c r vs after last) (sym e') t)
join n before p (u ∷ us) vs r m after last (at, ne, (y, here, back, on, rest)) t =
    (at, ne, (y, here, back, on, join n u y.next us vs r m after last rest t))

-- The first node gets another predecessor.
pub set_prev-Seg :
    (n : Nodes) (before b p x : ℕ) (xs : List ℕ) (after last : ℕ) (y : Node)
    → mem x xs ≡ false
    → n x ≡ some y
    → Seg n before p (x ∷ xs) after last
    → Seg (put n x (some (set_prev b y))) b p (x ∷ xs) after last
set_prev-Seg n before b p x xs after last y out e (at, ne, (z, here, back, on, rest)) =
    let same : z ≡ y = cc in
    (
      at,
      ne,
      (
        set_prev b y,
        put_self n x (some (set_prev b y)),
        refl,
        ap (λ w. w.enlisted) (sym same) ∙ on,
        frame-put n x _ x y.next xs after last out
            (subst (λ w. Seg n x w.next xs after last) same rest),
      ),
    )

-- The last node gets another successor.
pub set_next-Seg :
    (n : Nodes) (before p : ℕ) (us : List ℕ) (m r' r last : ℕ) (y : Node)
    → Distinct (us ++ m ∷ [])
    → n m ≡ some y
    → Seg n before p (us ++ m ∷ []) r last
    → Seg (put n m (some (set_next r' y))) before p (us ++ m ∷ []) r' m
set_next-Seg n before p [] m r' r last y d e (at, ne, (z, here, back, on, rest)) =
    let same : z ≡ y = cc in
    (
      at,
      ne,
      (
        set_next r' y,
        put_self n m (some (set_next r' y)),
        ap (λ w. w.prev) (sym same) ∙ back,
        ap (λ w. w.enlisted) (sym same) ∙ on,
        (refl, refl),
      ),
    )
set_next-Seg n before p (u ∷ us) m r' r last y d e (at, ne, (z, here, back, on, rest)) =
    let apart : u ≢ m = (mem_ne u m [] (mem-append_false u us (m ∷ []) d.0).1).0 in
    (
      at,
      ne,
      (
        z,
        put_other n m u _ apart ∙ here,
        back,
        on,
        set_next-Seg n u z.next us m r' r last y d.1 e rest,
      ),
    )

-- A segment that ends in a node ends there.
pub last_of :
    (n : Nodes) (before p : ℕ) (us : List ℕ) (m r last : ℕ)
    → Seg n before p (us ++ m ∷ []) r last
    → last ≡ m
last_of n before p [] m r last (at, ne, (z, here, back, on, (e, e'))) = sym e'
last_of n before p (u ∷ us) m r last (at, ne, (z, here, back, on, rest)) =
    last_of n u z.next us m r last rest

-- A node inside a segment, between the address that leads to it and its predecessor.
pub inner :
    (n : Nodes) (before p : ℕ) (us : List ℕ) (x : ℕ) (vs : List ℕ) (after last : ℕ)
    → Seg n before p (us ++ x ∷ vs) after last
    → (m : ℕ) × (y : Node) × Seg n before p us x m
      × (x ≢ 0)
      × (n x ≡ some y)
      × (y.prev ≡ m)
      × (y.enlisted ≡ true)
      × Seg n x y.next vs after last
inner n before p us x vs after last s =
    let (r, m, front, (at, ne, (y, here, back, on, rest))) =
      split n before p us (x ∷ vs) after last s in
    (m, y, subst (λ c. Seg n before p us c m) at front, ne, here, back, on, rest)
