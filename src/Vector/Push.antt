-- ===== src/Vector/Push.antt =====
-- vector_push and vector_pop of vector.c.
use utk.Prelude.{
  Error, List, Option, Returns, [], ap, append_assoc, arith, bind, drop, false, length,
  length-append, malloc_failed, no_err, none, ok, returns, some, subst, sym, take, take-append,
  true, ℕ, ◌%◌, ◌++◌, ◌+◌, ◌-◌, ◌<◌, ◌==◌, ◌^◌, ◌∙◌, ◌∷◌, ◌≡◌,
}
use utk.Memory.{Allocator, pointer_bytes, words_of, allocate, load, store}
use utk.Memory.Laws.{load-append, store-append}
use utk.Vector.{Vector, words, set_words, next_capacity, push_at, vector_push, vector_pop}
use utk.Vector.Contents.{
  contents, IsVector, split_free, length-contents, words-set_words, split_last,
}
use utk.Vector.Grow.{Grown, room, full, grow-Grown}

module _ (a : Allocator) where
  open a use {Heap}

  -- The outcomes of an insertion of `x` that makes the contents `xs`.
  pub data Added (v : Vector) (h : Heap) (xs : List ℕ) : Error × Option Vector × Heap → Type 0 where
    added :
        {w : Vector} {g : Heap}
        → IsVector w
        → w.size ≡ v.size + 1
        → contents w ≡ xs
        → Added v h xs (no_err, some w, g)
    refused :
        {g : Heap}
        → v.size ≡ v.capacity
        → (allocate a h (pointer_bytes (next_capacity v.capacity))).0 ≡ none
        → Added v h xs (malloc_failed, some v, g)

  -- `++size` does not wrap in a vector that is not full.
  pub next_size :
      (w : Vector) → IsVector w → w.size < w.capacity → (w.size + 1) % 2 ^ 32 ≡ w.size + 1
  next_size w is more = omega (arith, is.small)

  -- The vector with its array replaced by `zs ++ rest`, where `zs` are one more than its elements.
  pub extended :
      (w : Vector) (zs rest : List ℕ)
      → IsVector w
      → length zs ≡ w.size + 1
      → length (zs ++ rest) ≡ length (words w)
      → let u : Vector = record w { array = set_words w.array (zs ++ rest); size = w.size + 1 } in
        IsVector u × (contents u ≡ zs)
  extended w zs rest is l same =
      let e : words_of (set_words w.array (zs ++ rest)) ≡ zs ++ rest =
        words-set_words w.array (zs ++ rest) (omega (arith, length-append zs rest)) (sym same) in
      (
        record {
          fits = ap length e ∙ same ∙ is.fits;
          within = omega (arith, length-append zs rest, is.fits);
          small = is.small;
        },
        rw e (take-append zs rest (w.size + 1) (sym l)),
      )

  push_at-Added :
      (v : Vector) (h : Heap) (x : ℕ) (r : Error × Vector × Heap)
      → Grown a v h r
      → Returns (Added v h (contents v ++ x ∷ [])) (push_at a x r)
  unfolding push_at
  push_at-Added v h x r (room {w} {g} is size more same) =
      let (y, rest, parts, l) = split_free w is more in
      let stored : store (words w) w.size x ≡ ok (contents w ++ x ∷ rest) =
        ap (λ ws. store ws w.size x) parts ∙ store-append (contents w) rest y x w.size (sym l) in
      let (is', got) =
        extended w (contents w ++ x ∷ []) rest is
          (omega (arith, length-append (contents w) (x ∷ [])))
          (omega (
            arith,
            ap length parts,
            length-append (contents w ++ x ∷ []) rest,
            length-append (contents w) (x ∷ []),
            length-append (contents w) (y ∷ rest),
          )) in
      let assoc : (contents w ++ x ∷ []) ++ rest ≡ contents w ++ x ∷ rest =
        append_assoc (contents w) (x ∷ []) rest in
      rw (stored, next_size w is more)
        (returns (
          added
            (subst (λ ws. IsVector (record w { array = set_words w.array ws; size = w.size + 1 }))
              assoc is')
            (ap (λ n. n + 1) size)
            (subst
                (λ ws.
                  contents (record w { array = set_words w.array ws; size = w.size + 1 })
                  ≡ contents w ++ x ∷ [])
                assoc got
              ∙ ap (λ zs. zs ++ x ∷ []) same)))
  push_at-Added v h x r (full e none_left) = returns (refused e none_left)

  -- vector_push on a well-formed vector of fewer than 2^29 elements of capacity never faults: the
  -- contents gain the element at their end and the vector stays well formed, or the array is full,
  -- the allocation failed, and the error is reported with the vector unchanged.
  pub vector_push-append :
      (v : Vector) (x : ℕ) (h : Heap)
      → IsVector v
      → v.capacity < 2 ^ 29
      → Returns (Added v h (contents v ++ x ∷ [])) (vector_push a (some v) x h)
  unfolding vector_push
  vector_push-append v x h is small =
      bind (push_at a x) (grow-Grown a v h is small) (push_at-Added v h x)

  -- vector_pop on a well-formed vector returns its last element and drops it from the contents.
  pub vector_pop-snoc :
      (v : Vector) (xs : List ℕ) (x : ℕ)
      → IsVector v
      → contents v ≡ xs ++ x ∷ []
      → (w : Vector) × (vector_pop a (some v) true ≡ ok (no_err, some w, some x))
        × IsVector w
        × (contents w ≡ xs)
  unfolding vector_pop
  vector_pop-snoc v xs x is e =
      let l : v.size ≡ length xs + 1 =
        omega (arith, length-contents v is, ap length e, length-append xs (x ∷ [])) in
      let parts = split_last v xs x e in
      let nonzero : (v.size == 0) ≡ false = ground arith in
      let got : load (words v) (v.size - 1) ≡ ok x =
        ap (λ ws. load ws (v.size - 1)) parts
        ∙ load-append xs (drop v.size (words v)) x (v.size - 1) (omega arith) in
      (
        record v { size = v.size - 1 },
        rw (nonzero, got),
        record { fits = is.fits; within = omega (arith, is.within); small = is.small },
        ap (take (v.size - 1)) parts
            ∙ take-append xs (x ∷ drop v.size (words v)) (v.size - 1) (omega arith),
      )
