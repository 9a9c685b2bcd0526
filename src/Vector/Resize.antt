-- ===== src/Vector/Resize.antt =====
-- vector_resize and vector_shrink_to_fit of vector.c.
use utk.Prelude.{
  ==→eq, Bool-cases, Error, List, Option, Returns, [], ap, arith, bind, false, fault, inl, inr,
  length, le→ltb, ltb, lt→ltb, malloc_failed, max, no_err, none, ok, refl, returns, some, suc, sym,
  take, true, zero, ℕ, ◌*◌, ◌<◌, ◌==◌, ◌>>=◌, ◌^◌, ◌∙◌, ◌∷◌, ◌≡◌, ◌≤◌,
}
use utk.Memory.{Block, Allocator, pointer_bytes, allocate}
use utk.Memory.Laws.{allocate_size, memcpy-fault}
use utk.Vector.{
  Vector, words, move_array, resized, some_vector, vector_resize, vector_shrink_to_fit,
}
use utk.Vector.Contents.{contents, IsVector}
use utk.Vector.Grow.{Moved, moved, refused, move_array-Moved}

take-nil : (n : ℕ) → take {A = ℕ} n [] ≡ []
take-nil zero = refl
take-nil (suc n) = refl

take-take : (n m : ℕ) (xs : List ℕ) → n ≤ m → take n (take m xs) ≡ take n xs
take-take zero m xs h = refl
take-take (suc n) zero xs h = elim h [ ]
take-take (suc n) (suc m) [] h = refl
take-take (suc n) (suc m) (x ∷ xs) h = ap (◌∷◌ x) (take-take n m xs (omega arith))

module _ (a : Allocator) where
  open a use {Heap}

  -- Within the size, vector_resize cuts the contents and allocates nothing.
  pub vector_resize_cut :
      (v : Vector) (size : ℕ) (h : Heap)
      → IsVector v
      → size ≤ v.size
      → (w : Vector) × (vector_resize a (some v) size h ≡ ok (no_err, some w, h))
        × IsVector w
        × (contents w ≡ take size (contents v))
  unfolding vector_resize
  vector_resize_cut v size h is p = (
    record v { size = size },
    rw (le→ltb v.capacity size (omega (arith, is.within))),
    record { fits = is.fits; within = omega (arith, is.within); small = is.small },
    sym (take-take size v.size (words v) p),
  )

  move_array_fault :
      (v : Vector) (count size : ℕ) (r : Option Block × Heap) (b : Block)
      → r.0 ≡ some b
      → count * 4 < 2 ^ 32
      → length (words v) < count
      → move_array a v count size r ≡ fault
  unfolding move_array
  move_array_fault v count size (none, h) b e low p = cc
  move_array_fault v count size (some c, h) b e low p =
      rw (memcpy-fault c.words (words v) count low p)

  -- vector_resize of a well-formed vector to more than its capacity, and less than 2^30, with
  -- its allocation granted, always reads past the end of the old array.
  pub vector_resize_overrun :
      (v : Vector) (size : ℕ) (h : Heap)
      → IsVector v
      → v.capacity < size
      → size * 4 < 2 ^ 32
      → (b : Block) → (allocate a h (pointer_bytes size)).0 ≡ some b
      → vector_resize a (some v) size h ≡ fault
  unfolding vector_resize
  vector_resize_overrun v size h is p low b e =
      let more : ltb v.capacity size ≡ true = lt→ltb v.capacity size p in
      let positive : (size == 0) ≡ false = ground arith in
      rw (more, positive)
        (ap (λ r. r >>= resized a size)
          (move_array_fault v (max v.size size) size (allocate a h (pointer_bytes size)) b e
            (omega (arith, is.within)) (omega (arith, is.fits))))

  pub data Shrunk (v : Vector) (h : Heap) : Error × Option Vector × Heap → Type 0 where
    shrunk :
        {w : Vector} {g : Heap}
        → IsVector w
        → w.capacity ≡ w.size
        → contents w ≡ contents v
        → Shrunk v h (no_err, some w, g)
    kept :
        {g : Heap}
        → (allocate a h (pointer_bytes v.size)).0 ≡ none
        → Shrunk v h (malloc_failed, some v, g)

  -- vector_shrink_to_fit never faults on a well-formed vector: it keeps the contents and makes the
  -- capacity the size, or the allocation failed and it leaves the vector as it was.
  pub vector_shrink_to_fit-contents :
      (v : Vector) (h : Heap)
      → IsVector v
      → Returns (Shrunk v h) (vector_shrink_to_fit a (some v) h)
  unfolding vector_shrink_to_fit some_vector
  vector_shrink_to_fit-contents v h is =
      let new = allocate a h (pointer_bytes v.size) in
      elim (Bool-cases (ltb v.size v.capacity)) [
        | inr tight ↦ rw tight (returns (shrunk is (ground (arith, is.within)) refl))
        | inl loose ↦ rw loose (elim (Bool-cases (v.size == 0)) [
          | inl empty ↦
              let e : v.size ≡ 0 = ==→eq v.size 0 empty in
              rw empty (
                returns (
                  shrunk (record { fits = refl; within = omega arith; small = omega arith }) (sym e)
                    (rw (take-nil v.size, e))))
          | inr filled ↦ rw filled (
              bind (some_vector a)
                (move_array-Moved a v v.size v.size new.0 new.1 (omega (arith, is.fits, is.within))
                  (omega arith) (omega (arith, is.small, is.within))
                  (λ c fresh.
                    omega
                      (arith, allocate_size a h (pointer_bytes v.size) fresh, is.within, is.small)))
                (done is))
        ])
      ]
    where
      done :
          IsVector v
          → (r : Error × Vector × Heap)
          → Moved a v v.size v.size (allocate a h (pointer_bytes v.size)).0 r
          → Returns (Shrunk v h) (some_vector a r)
      done is r (moved {w} size cap addr fits same) = returns (
          shrunk
            (record {
              fits = fits ∙ sym cap;
              within = omega arith;
              small = omega (arith, is.within, is.small);
            })
            (cap ∙ sym size) (rw size same))
      done is r (refused none_left) = returns (kept none_left)
