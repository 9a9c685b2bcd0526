-- ===== src/Vector/Create.antt =====
-- vector_create and vector_copy of vector.c.
use utk.Prelude.{
  ==→eq, Bool-cases, Error, List, Option, Returns, [], ap, append_assoc, arith, bind, drop, inl,
  inr, length, length-append, length-replicate, malloc_failed, no_err, none, ok, refl, replicate,
  returns, some, subst, suc, sym, take, true, zero, ℕ, ◌*◌, ◌++◌, ◌+◌, ◌<◌, ◌==◌, ◌^◌, ◌∙◌, ◌∷◌,
  ◌≡◌, ◌≤◌,
}
use utk.Memory.{Block, Allocator, pointer_bytes, allocate}
use utk.Memory.Laws.{memcpy-ok, length-memcpy, take-memcpy, allocate_size, store-append}
use utk.Vector.{
  Vector, words, init_loop, create_array, create_struct, vector_create, copy_into, vector_copy,
}
use utk.Vector.Contents.{contents, IsVector, words_back}

-- The loop turns the words from `i` on into copies of the initial value.
pub init_loop-replicate :
    (us vs : List ℕ) (x i : ℕ)
    → i ≡ length us
    → init_loop (length vs) i x (us ++ vs) ≡ ok (us ++ replicate (length vs) x)
unfolding init_loop
init_loop-replicate us [] x i e = refl
init_loop-replicate us (v ∷ vs) x i e = rw (store-append us vs v x i e) (
    ap (init_loop (length vs) (i + 1) x) (sym (append_assoc us (x ∷ []) vs))
    ∙ init_loop-replicate (us ++ x ∷ []) vs x (i + 1) (omega (arith, length-append us (x ∷ [])))
    ∙ ap ok (append_assoc us (x ∷ []) (replicate (length vs) x)))

pub take-length : (xs : List ℕ) (n : ℕ) → n ≡ length xs → take n xs ≡ xs
take-length [] zero e = refl
take-length [] (suc n) e = refl
take-length (x ∷ xs) zero e = absurd (omega arith)
take-length (x ∷ xs) (suc n) e = ap (◌∷◌ x) (take-length xs n (omega arith))

module _ (a : Allocator) where
  open a use {Heap, malloc}

  -- The outcomes of a creation that is to hold `size` words, the first of them `xs`.
  pub data Made (size : ℕ) (xs : List ℕ) : Option Vector × Option Error × Heap → Type 0 where
    made :
        {w : Vector} {g : Heap}
        → IsVector w
        → w.capacity ≡ size
        → contents w ≡ xs
        → Made size xs (some w, some no_err, g)
    failed : {g : Heap} → Made size xs (none, some malloc_failed, g)

  create_array-Made :
      (x size p : ℕ) (b : Option Block) (h : Heap)
      → size * 4 < 2 ^ 32
      → ((c : Block) → b ≡ some c → length c.words ≡ size)
      → Returns (Made size (replicate size x)) (create_array a x size true p (b, h))
  unfolding create_array
  create_array-Made x size p none h small new = returns failed
  create_array-Made x size p (some b) h small new =
      let l : length b.words ≡ size = new b refl in
      let run : init_loop size 0 x b.words ≡ ok (replicate size x) =
        subst (λ n. init_loop n 0 x b.words ≡ ok (replicate n x)) l
          (init_loop-replicate [] b.words x 0 refl) in
      rw run (
        returns (
          made (record { fits = length-replicate size x; within = omega arith; small = small }) refl
            (take-length (replicate size x) size (sym (length-replicate size x)))))

  create_struct-Made :
      (x size : ℕ) (r : Option ℕ × Heap)
      → size * 4 < 2 ^ 32
      → Returns (Made size (replicate size x)) (create_struct a x size true r)
  unfolding create_struct
  create_struct-Made x size (none, h) small = returns failed
  create_struct-Made x size (some p, h) small = elim (Bool-cases (size == 0)) [
    | inl empty ↦
        let e : size ≡ 0 = ==→eq size 0 empty in
        rw e (
          returns
            (made (record { fits = refl; within = omega arith; small = omega arith }) refl refl))
    | inr filled ↦
        let new = allocate a h (pointer_bytes size) in
        rw filled (
          create_array-Made x size p new.0 new.1 small
            (λ c fresh. omega (arith, allocate_size a h (pointer_bytes size) fresh)))
  ]

  -- vector_create never faults: it makes a well-formed vector of `size` copies of the initial
  -- value, or an allocation failed and it reports so.
  vector_create-replicate :
      (x size : ℕ) (h : Heap)
      → size * 4 < 2 ^ 32
      → Returns (Made size (replicate size x)) (vector_create a true x size true h)
  unfolding vector_create
  vector_create-replicate x size h small = create_struct-Made x size (malloc h 20) small

  copy_into-Made :
      (v : Vector) (r : Option Vector × Option Error × Heap)
      → IsVector v
      → Made v.capacity (replicate v.capacity 0) r
      → Returns (Made v.capacity (contents v)) (copy_into a v r)
  unfolding copy_into
  copy_into-Made v r is (made {w} is' cap same) =
      let p : v.size ≤ length (words v) = omega (arith, is.fits, is.within) in
      let q : v.size ≤ length (words w) = omega (arith, is'.fits, is.within) in
      let ws = take v.size (words v) ++ drop v.size (words w) in
      let l : length ws ≡ length (words w) = length-memcpy (words w) (words v) v.size p q in
      let back = words_back w.array ws l in
      rw (memcpy-ok (words w) (words v) v.size (omega (arith, is.within, is.small)) p q) (
        returns (
          made
            (record {
              fits = ap length back ∙ l ∙ is'.fits;
              within = omega (arith, is.within);
              small = is'.small;
            })
            cap (ap (take v.size) back ∙ take-memcpy (words w) (words v) v.size p)))
  copy_into-Made v r is failed = returns failed

  -- vector_copy never faults on a well-formed vector when `error` is given: the copy is well formed
  -- with the same contents and capacity, or an allocation failed and it reports so.
  pub vector_copy-contents :
      (v : Vector) (h : Heap)
      → IsVector v
      → Returns (Made v.capacity (contents v)) (vector_copy a (some v) true h)
  unfolding vector_copy
  vector_copy-contents v h is =
      bind (copy_into a v) (vector_create-replicate 0 v.capacity h is.small)
        λ r m. copy_into-Made v r is m
