-- ===== src/Sequence/Laws.antt =====
-- The operations on the nodes of a queue, and what they do to the order of the priorities.
use utk.Prelude.{
  ==_refl, ==→eq, Bool-cases, List, Option, [], ap, arith, false, inl, inr, ltb, ltb→le, ltb→lt,
  none, refl, some, true, ℕ, ◌++◌, ◌==◌, ◌||◌, ◌∷◌, ◌≡◌, ◌≤◌, ◌⊎◌,
}
use utk.KQueue.Members.{
  mem, Distinct, mem-append, mem_head, mem_tail, mem_of_inner, Distinct-append,
}
use utk.Sequence.{pop_last, push_prio}

-- What kqueue_pop finds.
pub data Popped {ℓ} {A : Type ℓ} (xs : List A) : Option (List A × A) → Type ℓ where
  empty : xs ≡ [] → Popped xs none
  popped : (ys : List A) (y : A) → xs ≡ ys ++ y ∷ [] → Popped xs (some (ys, y))

pub pop_last-Popped {ℓ} : {A : Type ℓ} (xs : List A) → Popped xs (pop_last xs)
unfolding pop_last
pop_last-Popped [] = empty refl
pop_last-Popped (x ∷ xs) = go (pop_last xs) (pop_last-Popped xs)
  where
    go :
        (o : Option (List _ × _))
        → Popped xs o
        → Popped (x ∷ xs) (elim o [ none ↦ some ([], x) | some (ys, y) ↦ some (x ∷ ys, y) ])
    go _ (empty e) = popped [] x (ap (λ t. x ∷ t) e)
    go _ (popped ys y e) = popped (x ∷ ys) y (ap (λ t. x ∷ t) e)

-- The two cases of a pop.
pub pop_last-cases {ℓ} :
    {A : Type ℓ} (xs : List A)
    → ((xs ≡ []) × (pop_last xs ≡ none))
      ⊎ ((ys : List A) × (y : A) × (xs ≡ ys ++ y ∷ []) × (pop_last xs ≡ some (ys, y)))
pop_last-cases xs = go (pop_last xs) refl (pop_last-Popped xs)
  where
    go :
        (o : Option (List _ × _))
        → pop_last xs ≡ o
        → Popped xs o
        → ((xs ≡ []) × (pop_last xs ≡ none))
          ⊎ ((ys : List _) × (y : _) × (xs ≡ ys ++ y ∷ []) × (pop_last xs ≡ some (ys, y)))
    go _ e (empty nil) = inl (nil, e)
    go _ e (popped ys y parts) = inr (ys, y, parts, e)

-- The priorities do not rise from the head to the tail.
abbrev pub Sorted : (ℕ → ℕ) → List ℕ → Type 0
Sorted key [] = Unit {0}
Sorted key (x ∷ xs) = ((y : ℕ) → mem y xs ≡ true → key y ≤ key x) × Sorted key xs

module _ (key : ℕ → ℕ) where
  pub mem-push_prio : (b a : ℕ) (xs : List ℕ) → mem b (push_prio key a xs) ≡ (b == a || mem b xs)
  unfolding push_prio
  mem-push_prio b a [] = refl
  mem-push_prio b a (x ∷ xs) = ground (arith, mem-push_prio b a xs)

  pub Distinct-push_prio :
      (a : ℕ) (xs : List ℕ) → mem a xs ≡ false → Distinct xs → Distinct (push_prio key a xs)
  unfolding push_prio
  Distinct-push_prio a [] out d = (refl, tt)
  Distinct-push_prio a (x ∷ xs) out d = elim (Bool-cases (ltb (key a) (key x))) [
    | inl lower ↦ rw lower (
      ground (arith, mem-push_prio x a xs, d.0, out),
      Distinct-push_prio a xs (ground (arith, out)) d.1,
    )
    | inr found ↦ rw found (out, d)
  ]

  pub Sorted-push_prio : (a : ℕ) (xs : List ℕ) → Sorted key xs → Sorted key (push_prio key a xs)
  unfolding push_prio
  Sorted-push_prio a [] s = (λ y m. cc m, tt)
  Sorted-push_prio a (x ∷ xs) (low, s) = elim (Bool-cases (ltb (key a) (key x))) [
    | inl lower ↦ rw lower (below lower, Sorted-push_prio a xs s)
    | inr found ↦ rw found (above found, (low, s))
  ]
    where
      below :
          ltb (key a) (key x) ≡ true → (y : ℕ) → mem y (push_prio key a xs) ≡ true → key y ≤ key x
      below lower y m = elim (Bool-cases (y == a)) [
        | inl it ↦ omega (arith, ltb→lt (key a) (key x) lower, ap key (==→eq y a it))
        | inr other ↦ low y (ground (arith, m, mem-push_prio y a xs, other))
      ]

      above : ltb (key a) (key x) ≡ false → (y : ℕ) → mem y (x ∷ xs) ≡ true → key y ≤ key a
      above found y m = elim (Bool-cases (y == x)) [
        | inl it ↦ omega (arith, ltb→le (key a) (key x) found, ap key (==→eq y x it))
        | inr other ↦
            let m' : mem y xs ≡ true = ground (arith, m, other) in
            omega (arith, low y m', ltb→le (key a) (key x) found)
      ]

  -- Every priority is at least the last one.
  pub Sorted-last :
      (xs : List ℕ) (x y : ℕ) → Sorted key (xs ++ x ∷ []) → mem y xs ≡ true → key x ≤ key y
  Sorted-last [] x y s m = absurd cc
  Sorted-last (z ∷ xs) x y (low, s) m = elim (Bool-cases (y == z)) [
    | inl it ↦ omega (arith, low x (mem_of_inner x xs []), ap key (==→eq y z it))
    | inr other ↦ Sorted-last xs x y s (ground (arith, m, other))
  ]

  pub Sorted-front : (xs ys : List ℕ) → Sorted key (xs ++ ys) → Sorted key xs
  Sorted-front [] ys s = tt
  Sorted-front (x ∷ xs) ys (low, s) =
      (λ y m. low y (rw (mem-append y xs ys, m) refl), Sorted-front xs ys s)

pub Sorted-congr :
    (key key' : ℕ → ℕ) (xs : List ℕ)
    → ((y : ℕ) → mem y xs ≡ true → key' y ≡ key y)
    → Sorted key xs
    → Sorted key' xs
Sorted-congr key key' [] same s = tt
Sorted-congr key key' (x ∷ xs) same (low, s) = (
  λ y m.
      let a = same y (mem_tail y x xs m) in
      let b = same x (mem_head x xs) in let c = low y m in omega (arith, a, b, c),
  Sorted-congr key key' xs (λ y m. same y (mem_tail y x xs m)) s,
)

-- The last of a sequence without duplicates stands nowhere before it.
pub Distinct-last :
    (xs : List ℕ) (a : ℕ) → Distinct (xs ++ a ∷ []) → Distinct xs × (mem a xs ≡ false)
Distinct-last xs a d =
    let (front, back, apart) = Distinct-append xs (a ∷ []) d in
    (
      front,
      elim (Bool-cases (mem a xs)) [
        | inl it ↦ absurd (cc (apart a it, ==_refl a))
        | inr other ↦ other
      ],
    )
