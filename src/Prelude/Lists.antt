-- ===== src/Prelude/Lists.antt =====
-- Lists measured and indexed by native numbers, under the library's names.
use Prim.Native.Nat.{ℕ, zero, suc, ◌+◌, ◌-◌, ◌≤◌, ◌<◌, min}
use mathlib.Core.Path.{◌≡◌, refl, sym, ap, ◌∙◌}
use mathlib.Core.Logic.{◌≢◌}
use mathlib.Core.List.{List, [], ◌∷◌, ◌++◌, reverse, reverse_aux, append_assoc, reverse-reverse}
use mathlib.Core.Option.{Option, none, some}
use native.Mathlib.Omega.{arith}

module _ {ℓ} {A : Type ℓ} where
  abbrev pub length : List A → ℕ
  length [] = 0
  length (x ∷ xs) = suc (length xs)

  abbrev pub get_elem? : List A → ℕ → Option A
  get_elem? [] i = none
  get_elem? (x ∷ xs) zero = some x
  get_elem? (x ∷ xs) (suc i) = get_elem? xs i

  -- A write out of bounds changes nothing.
  abbrev pub set : List A → ℕ → A → List A
  set [] i v = []
  set (x ∷ xs) zero v = v ∷ xs
  set (x ∷ xs) (suc i) v = x ∷ set xs i v

  abbrev pub take : ℕ → List A → List A
  take zero xs = []
  take (suc n) [] = []
  take (suc n) (x ∷ xs) = x ∷ take n xs

  abbrev pub drop : ℕ → List A → List A
  drop zero xs = xs
  drop (suc n) [] = []
  drop (suc n) (x ∷ xs) = drop n xs

  abbrev pub replicate : ℕ → A → List A
  replicate zero a = []
  replicate (suc n) a = a ∷ replicate n a

  pub length-append : (xs ys : List A) → length (xs ++ ys) ≡ length xs + length ys
  length-append [] ys = omega arith
  length-append (x ∷ xs) ys = omega (arith, length-append xs ys)

  pub length-set : (xs : List A) (i : ℕ) (v : A) → length (set xs i v) ≡ length xs
  length-set [] i v = refl
  length-set (x ∷ xs) zero v = refl
  length-set (x ∷ xs) (suc i) v = ap suc (length-set xs i v)

  pub length-take : (n : ℕ) (xs : List A) → length (take n xs) ≡ min n (length xs)
  length-take zero xs = omega arith
  length-take (suc n) [] = omega arith
  length-take (suc n) (x ∷ xs) = omega (arith, length-take n xs)

  pub length-drop : (n : ℕ) (xs : List A) → length (drop n xs) ≡ length xs - n
  length-drop zero xs = omega arith
  length-drop (suc n) [] = omega arith
  length-drop (suc n) (x ∷ xs) = omega (arith, length-drop n xs)

  pub length-replicate : (n : ℕ) (a : A) → length (replicate n a) ≡ n
  length-replicate zero a = refl
  length-replicate (suc n) a = ap suc (length-replicate n a)

  pub length-reverse_aux : (xs ys : List A) → length (reverse_aux xs ys) ≡ length xs + length ys
  length-reverse_aux [] ys = omega arith
  length-reverse_aux (x ∷ xs) ys = omega (arith, length-reverse_aux xs (x ∷ ys))

  pub take-append-drop : (n : ℕ) (xs : List A) → take n xs ++ drop n xs ≡ xs
  take-append-drop zero xs = refl
  take-append-drop (suc n) [] = refl
  take-append-drop (suc n) (x ∷ xs) = rw (take-append-drop n xs)

  pub get_elem?-set_self :
      (xs : List A) (i : ℕ) (v : A) → i < length xs → get_elem? (set xs i v) i ≡ some v
  get_elem?-set_self [] i v h = elim h [ ]
  get_elem?-set_self (x ∷ xs) zero v h = refl
  get_elem?-set_self (x ∷ xs) (suc i) v h = get_elem?-set_self xs i v (omega arith)

  pub get_elem?-set_ne :
      (xs : List A) {i j : ℕ} (v : A) → i ≢ j → get_elem? (set xs i v) j ≡ get_elem? xs j
  get_elem?-set_ne [] v h = refl
  get_elem?-set_ne (x ∷ xs) {i = zero} {j = zero} v h = absurd (h refl)
  get_elem?-set_ne (x ∷ xs) {i = zero} {j = suc j} v h = refl
  get_elem?-set_ne (x ∷ xs) {i = suc i} {j = zero} v h = refl
  get_elem?-set_ne (x ∷ xs) {i = suc i} {j = suc j} v h = get_elem?-set_ne xs v (λ e. h (ap suc e))

  -- Within the bounds an element is there.
  pub get_elem?-of_lt : (xs : List A) (i : ℕ) → i < length xs → (a : A) × (get_elem? xs i ≡ some a)
  get_elem?-of_lt [] i h = elim h [ ]
  get_elem?-of_lt (x ∷ xs) zero h = (x, refl)
  get_elem?-of_lt (x ∷ xs) (suc i) h = get_elem?-of_lt xs i (omega arith)

  -- A list is cut behind its first `n` elements.
  pub split_at :
      (n : ℕ) (xs : List A)
      → n ≤ length xs
      → (us : List A) × (bs : List A) × (xs ≡ us ++ bs) × (length us ≡ n)
  split_at zero xs h = ([], xs, refl, refl)
  split_at (suc n) [] h = elim h [ ]
  split_at (suc n) (x ∷ xs) h =
      let (us, bs, e, l) = split_at n xs (omega arith) in (x ∷ us, bs, ap (◌∷◌ x) e, ap suc l)

  pub take-append : (us bs : List A) (n : ℕ) → n ≡ length us → take n (us ++ bs) ≡ us
  take-append [] bs zero e = refl
  take-append [] bs (suc n) e = absurd (omega arith)
  take-append (a ∷ us) bs zero e = absurd (omega arith)
  take-append (a ∷ us) bs (suc n) e = ap (◌∷◌ a) (take-append us bs n (omega arith))

  pub drop-append : (us bs : List A) (n : ℕ) → n ≡ length us → drop n (us ++ bs) ≡ bs
  drop-append [] bs zero e = refl
  drop-append [] bs (suc n) e = absurd (omega arith)
  drop-append (a ∷ us) bs zero e = absurd (omega arith)
  drop-append (a ∷ us) bs (suc n) e = drop-append us bs n (omega arith)

  pub get_elem?-append :
      (us bs : List A) (x : A) (n : ℕ) → n ≡ length us → get_elem? (us ++ x ∷ bs) n ≡ some x
  get_elem?-append [] bs x zero e = refl
  get_elem?-append [] bs x (suc n) e = absurd (omega arith)
  get_elem?-append (a ∷ us) bs x zero e = absurd (omega arith)
  get_elem?-append (a ∷ us) bs x (suc n) e = get_elem?-append us bs x n (omega arith)

  pub set-append :
      (us bs : List A) (x v : A) (n : ℕ) → n ≡ length us → set (us ++ x ∷ bs) n v ≡ us ++ v ∷ bs
  set-append [] bs x v zero e = refl
  set-append [] bs x v (suc n) e = absurd (omega arith)
  set-append (a ∷ us) bs x v zero e = absurd (omega arith)
  set-append (a ∷ us) bs x v (suc n) e = ap (◌∷◌ a) (set-append us bs x v n (omega arith))

  pub reverse_aux_append : (xs ys : List A) → reverse_aux xs ys ≡ reverse_aux xs [] ++ ys
  reverse_aux_append [] ys = refl
  reverse_aux_append (x ∷ xs) ys =
      reverse_aux_append xs (x ∷ ys)
      ∙ sym (append_assoc (reverse_aux xs []) (x ∷ []) ys)
      ∙ ap (λ zs. zs ++ ys) (sym (reverse_aux_append xs (x ∷ [])))

  -- Every list is the reverse of one.
  pub unreverse : (xs : List A) → (ys : List A) × (reverse_aux ys [] ≡ xs)
  unreverse xs = (reverse xs, reverse-reverse xs)

  pub get_elem?-of_le : (xs : List A) (i : ℕ) → length xs ≤ i → get_elem? xs i ≡ none
  get_elem?-of_le [] i h = refl
  get_elem?-of_le (x ∷ xs) zero h = elim h [ ]
  get_elem?-of_le (x ∷ xs) (suc i) h = get_elem?-of_le xs i (omega arith)

  -- A list around its element `i`.
  pub split_elem :
      (xs : List A) (i : ℕ)
      → i < length xs
      → (us : List A) × (x : A) × (vs : List A) × (xs ≡ us ++ x ∷ vs) × (length us ≡ i)
  split_elem [] i h = elim h [ ]
  split_elem (x ∷ xs) zero h = ([], x, xs, refl, refl)
  split_elem (x ∷ xs) (suc i) h =
      let (us, y, vs, e, l) = split_elem xs i (omega arith) in
      (x ∷ us, y, vs, ap (◌∷◌ x) e, ap suc l)
