-- ===== src/Vector/Access.antt =====
-- vector_get and vector_set of vector.c against the contents.
use utk.Prelude.{
  Bool-cases, List, [], ap, arith, false, get_elem?, get_elem?-of_le, get_elem?-of_lt, inl, inr,
  leb, length, length-set, length-take, no_err, none, ok, out_of_bound, refl, set, some, suc, sym,
  take, true, zero, ℕ, ◌<◌, ◌∙◌, ◌∷◌, ◌≡◌, ◌≤◌,
}
use utk.Memory.{Allocator, words_of}
use utk.Memory.Laws.{store-set, load-some}
use utk.Vector.{Vector, words, set_words, vector_get, vector_set}
use utk.Vector.Contents.{contents, IsVector, words-set_words}

pub get_elem?-take : (n i : ℕ) (xs : List ℕ) → i < n → get_elem? (take n xs) i ≡ get_elem? xs i
get_elem?-take zero i xs h = elim h [ ]
get_elem?-take (suc n) i [] h = refl
get_elem?-take (suc n) zero (x ∷ xs) h = refl
get_elem?-take (suc n) (suc i) (x ∷ xs) h = get_elem?-take n i xs (omega arith)

pub take-set : (n i x : ℕ) (xs : List ℕ) → i < n → take n (set xs i x) ≡ set (take n xs) i x
take-set zero i x xs h = elim h [ ]
take-set (suc n) i x [] h = refl
take-set (suc n) zero x (y ∷ ys) h = refl
take-set (suc n) (suc i) x (y ∷ ys) h = ap (◌∷◌ y) (take-set n i x ys (omega arith))

module _ (a : Allocator) (v : Vector) (is : IsVector v) where
  -- vector_get reads the element of the contents at a position below the size, and reports the
  -- bound at any other.
  vector_get-contents :
      (position : ℕ)
      → vector_get a (some v) position true ≡ (elim (get_elem? (contents v) position) [
        | none ↦ ok (out_of_bound, none)
        | some x ↦ ok (no_err, some x)
      ])
  unfolding vector_get
  vector_get-contents position = elim (Bool-cases (leb v.size position)) [
    | inl beyond ↦
        let l : length (contents v) ≤ position = ground (arith, length-take v.size (words v)) in
        rw (beyond, get_elem?-of_le (contents v) position l)
    | inr below ↦
        let lt : position < v.size = ground arith in
        let (x, e) = get_elem?-of_lt (words v) position (omega (arith, is.fits, is.within)) in
        rw
          (below, load-some (words v) position x e, get_elem?-take v.size position (words v) lt ∙ e)
  ]

  -- vector_set at a position below the size replaces that element and no other, and keeps the
  -- vector well formed; at any other position it reports the bound and changes nothing.
  pub vector_set-contents :
      (position x : ℕ)
      → position < v.size
      → (w : Vector) × (vector_set a (some v) position x ≡ ok (no_err, some w))
        × IsVector w
        × (contents w ≡ set (contents v) position x)
  unfolding vector_set
  vector_set-contents position x p =
      let in_array : position < length (words v) = omega (arith, is.fits, is.within) in
      let ws = set (words v) position x in
      let same : length (words v) ≡ length ws = sym (length-set (words v) position x) in
      let back : words_of (set_words v.array ws) ≡ ws =
        words-set_words v.array ws (omega arith) same in
      let below : leb v.size position ≡ false = ground arith in
      (
        record v { array = set_words v.array ws },
        rw (below, store-set (words v) position x in_array),
        record { fits = ap length back ∙ sym same ∙ is.fits; within = is.within; small = is.small },
        ap (take v.size) back ∙ take-set v.size position x (words v) p,
      )
