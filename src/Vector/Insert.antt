-- ===== src/Vector/Insert.antt =====
-- vector_insert of vector.c: the loop that moves the elements up, and its effect on the contents.
use utk.Prelude.{
  Error, List, Returns, [], ap, append_assoc, arith, bind, drop, length, length-append, length-drop,
  length-reverse_aux, length-take, le→ltb, ltb, lt→ltb, ok, out_of_bound, refl, returns,
  reverse_aux, reverse_aux_append, some, subst, suc, sym, take, take-append-drop, true, unreverse,
  zero, ℕ, ◌++◌, ◌+◌, ◌<◌, ◌^◌, ◌∙◌, ◌∷◌, ◌≡◌, ◌≤◌,
}
use utk.Memory.{Allocator, load, store}
use utk.Memory.Laws.{load-append, store-append}
use utk.Vector.{Vector, words, shift_loop, insert_at, vector_insert}
use utk.Vector.Contents.{contents, IsVector, split_free}
use utk.Vector.Grow.{Grown, room, full, grow-Grown}
use utk.Vector.Push.{next_size, Added, added, refused, extended}

-- The loop moves the words of `vs`, given in reverse, up by one place, into the word `y`. What it
-- leaves at the position itself is overwritten next.
pub shift_loop_moves :
    (us vs rest : List ℕ) (y n : ℕ)
    → n ≡ length vs + length us
    → (z : ℕ) × (shift_loop n (length us) (us ++ reverse_aux vs (y ∷ rest))
        ≡ ok (us ++ z ∷ reverse_aux vs rest))
unfolding shift_loop
shift_loop_moves us [] rest y zero e = (y, refl)
shift_loop_moves us [] rest y (suc n) e = (y, ground arith)
shift_loop_moves us (v ∷ vs) rest y zero e = absurd (omega arith)
shift_loop_moves us (v ∷ vs) rest y (suc n) e =
    let (z, run) = shift_loop_moves us vs (v ∷ rest) v n (omega arith) in
    let zs : List ℕ = us ++ reverse_aux vs [] in
    let l : n ≡ length zs =
      omega (arith, length-append us (reverse_aux vs []), length-reverse_aux vs []) in
    let split = λ (ws : List ℕ).
      ap (λ t. us ++ t) (reverse_aux_append vs ws) ∙ sym (append_assoc us (reverse_aux vs []) ws) in
    let loaded : load (us ++ reverse_aux vs (v ∷ y ∷ rest)) n ≡ ok v =
      ap (λ ws. load ws n) (split (v ∷ y ∷ rest)) ∙ load-append zs (y ∷ rest) v n l in
    let stored : store (us ++ reverse_aux vs (v ∷ y ∷ rest)) (suc n) v
        ≡ ok (us ++ reverse_aux vs (v ∷ v ∷ rest)) =
      ap (λ ws. store ws (suc n) v)
        (split (v ∷ y ∷ rest) ∙ sym (append_assoc zs (v ∷ []) (y ∷ rest)))
      ∙ store-append (zs ++ v ∷ []) rest y v (suc n) (omega (arith, length-append zs (v ∷ [])))
      ∙ ap ok (append_assoc zs (v ∷ []) (v ∷ rest) ∙ sym (split (v ∷ v ∷ rest))) in
    let below : ltb (length us) (suc n) ≡ true = lt→ltb (length us) (suc n) (omega arith) in
    (z, rw (below, loaded, stored) run)

module _ (a : Allocator) where
  open a use {Heap}

  insert_at-Added :
      (v : Vector) (h : Heap) (x position : ℕ) (r : Error × Vector × Heap)
      → position ≤ v.size
      → Grown a v h r
      → Returns
          (Added a v h (take position (contents v) ++ x ∷ drop position (contents v)))
          (insert_at a x position r)
  unfolding insert_at
  insert_at-Added v h x position r p (full e none_left) = returns (refused e none_left)
  insert_at-Added v h x position r p (room {w} {g} is size more same) =
      let (y, rest, parts, l) = split_free w is more in
      let us = take position (contents w) in
      let vs = drop position (contents w) in
      let at : position ≡ length us = omega (arith, length-take position (contents w)) in
      let (rs, back) = unreverse vs in
      let whole : words w ≡ us ++ reverse_aux rs (y ∷ rest) =
        parts
        ∙ ap (λ zs. zs ++ y ∷ rest) (sym (take-append-drop position (contents w)))
        ∙ append_assoc us vs (y ∷ rest)
        ∙ ap (λ zs. us ++ zs)
            (ap (λ zs. zs ++ y ∷ rest) (sym back) ∙ sym (reverse_aux_append rs (y ∷ rest))) in
      let count : w.size ≡ length rs + length us =
        omega
          (arith, ap length back, length-reverse_aux rs [], length-drop position (contents w)) in
      let (z, run) = shift_loop_moves us rs rest y w.size count in
      let moved : shift_loop w.size position (words w) ≡ ok (us ++ z ∷ reverse_aux rs rest) =
        subst (λ n. shift_loop w.size n (words w) ≡ ok (us ++ z ∷ reverse_aux rs rest)) (sym at)
          (ap (shift_loop w.size (length us)) whole ∙ run) in
      let stored : store (us ++ z ∷ reverse_aux rs rest) position x ≡ ok ((us ++ x ∷ vs) ++ rest) =
        store-append us (reverse_aux rs rest) z x position at
        ∙ ap ok (
            ap (λ t. us ++ x ∷ t) (reverse_aux_append rs rest ∙ ap (λ t. t ++ rest) back)
            ∙ sym (append_assoc us (x ∷ vs) rest)) in
      let long : length (us ++ x ∷ vs) ≡ w.size + 1 =
        omega (arith, length-append us (x ∷ vs), length-drop position (contents w)) in
      let (is', got) = extended a w (us ++ x ∷ vs) rest is long (
        omega (
          arith,
          ap length parts,
          length-append (us ++ x ∷ vs) rest,
          length-append (contents w) (y ∷ rest),
        )) in
      rw (moved, stored, next_size a w is more)
        (returns (
          added is' (ap (λ n. n + 1) size)
            (got ∙ ap (λ zs. take position zs ++ x ∷ drop position zs) same)))

  -- vector_insert at a position up to the size, on a well-formed vector whose capacity is below
  -- 2^29, never faults: the element stands at the position with those before and after it in
  -- order, or the array is full, the allocation failed, and the vector is unchanged.
  pub vector_insert-contents :
      (v : Vector) (x position : ℕ) (h : Heap)
      → IsVector v
      → v.capacity < 2 ^ 29
      → position ≤ v.size
      → Returns
          (Added a v h (take position (contents v) ++ x ∷ drop position (contents v)))
          (vector_insert a (some v) x position h)
  unfolding vector_insert
  vector_insert-contents v x position h is small p = rw (le→ltb v.size position p) (
      bind (insert_at a x position) (grow-Grown a v h is small)
        λ r g. insert_at-Added v h x position r p g)

  -- Behind the last element it reports the bound and changes nothing.
  pub vector_insert_out_of_bound :
      (v : Vector) (x position : ℕ) (h : Heap)
      → v.size < position
      → vector_insert a (some v) x position h ≡ ok (out_of_bound, some v, h)
  unfolding vector_insert
  vector_insert_out_of_bound v x position h p = rw (lt→ltb v.size position p)
