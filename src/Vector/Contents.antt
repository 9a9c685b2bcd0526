-- ===== src/Vector/Contents.antt =====
-- What a vector of vector.c stands for, and the invariant that ties its counters to its array.
use utk.Prelude.{
  List, Option, [], ap, append_assoc, arith, drop, length, length-append, length-take, none, refl,
  some, split_at, sym, take, take-append, take-append-drop, ℕ, ◌*◌, ◌++◌, ◌<◌, ◌^◌, ◌∙◌, ◌∷◌, ◌≡◌,
  ◌≢◌, ◌≤◌,
}
use utk.Memory.{Block, words_of}
use utk.Vector.{Vector, words, set_words}

-- The elements, in order.
abbrev pub contents : Vector → List ℕ
contents v = take v.size (words v)

-- The array holds `capacity` words, its size in bytes does not wrap, and the first `size` of them
-- are in use.
pub record IsVector (v : Vector) : Type 0 where
  pub fits : length (words v) ≡ v.capacity
  pub within : v.size ≤ v.capacity
  pub small : v.capacity * 4 < 2 ^ 32

-- The array in three parts: the elements, one free word, and what follows.
pub split_free :
    (v : Vector)
    → IsVector v
    → v.size < v.capacity
    → (y : ℕ) × (rest : List ℕ) × (words v ≡ contents v ++ y ∷ rest)
      × (length (contents v) ≡ v.size)
split_free v is room =
    let h : v.size ≤ length (words v) = omega (arith, is.fits, is.within) in
    go (split_at v.size (words v) h)
  where
    go :
        (us : List ℕ) × (vs : List ℕ) × (words v ≡ us ++ vs) × (length us ≡ v.size)
        → (y : ℕ) × (rest : List ℕ) × (words v ≡ contents v ++ y ∷ rest)
          × (length (contents v) ≡ v.size)
    go (us, [], e, l) = absurd (omega (arith, is.fits, ap length e, length-append us []))
    go (us, y ∷ rest, e, l) =
        let same : contents v ≡ us = rw e (take-append us (y ∷ rest) v.size (sym l)) in
        (y, rest, rw same e, rw same l)

pub length-contents : (v : Vector) → IsVector v → length (contents v) ≡ v.size
length-contents v is = omega (arith, length-take v.size (words v), is.fits, is.within)

pub words-set_words :
    (b : Option Block) (ws : List ℕ)
    → length ws ≢ 0
    → length (words_of b) ≡ length ws
    → words_of (set_words b ws) ≡ ws
words-set_words none ws n e = absurd (omega arith)
words-set_words (some b) ws n e = refl

-- The array of a vector whose contents end in `x`.
pub split_last :
    (v : Vector) (xs : List ℕ) (x : ℕ)
    → contents v ≡ xs ++ x ∷ []
    → words v ≡ xs ++ x ∷ drop v.size (words v)
split_last v xs x e =
    sym (take-append-drop v.size (words v))
    ∙ ap (λ zs. zs ++ drop v.size (words v)) e
    ∙ append_assoc xs (x ∷ []) (drop v.size (words v))

-- An array keeps its words when they are replaced by as many others, NULL included.
pub words_back :
    (b : Option Block) (ws : List ℕ)
    → length ws ≡ length (words_of b)
    → words_of (set_words b ws) ≡ ws
words_back none [] e = refl
words_back none (x ∷ xs) e = absurd (omega arith)
words_back (some b) ws e = refl
