-- ===== src/Vector/Grow.antt =====
-- GROW_VECTOR_SIZE of vector.c makes room for one more element, or leaves the vector alone.
use utk.Prelude.{
  ==→eq, ==→ne, Bool-cases, Error, Option, Returns, arith, false, inl, inr, leb, length,
  malloc_failed, mono, no_err, none, refl, returns, some, sym, take, ℕ, ◌*◌, ◌+◌, ◌<◌, ◌==◌, ◌^◌,
  ◌∙◌, ◌≡◌, ◌≤◌,
}
use utk.Memory.{Block, Allocator, pointer_bytes, allocate}
use utk.Memory.Laws.{memcpy-ok, length-memcpy, take-memcpy, allocate_size}
use utk.Vector.{Vector, words, next_capacity, move_array, grow}
use utk.Vector.Contents.{contents, IsVector}

-- Below 2^29 elements the capacity doubles, or becomes two, and its size in bytes does not wrap.
pub next_capacity_grows :
    (c : ℕ)
    → c < 2 ^ 29
    → (c < next_capacity c) × (next_capacity c ≤ 2 * c + 2) × (next_capacity c * 4 < 2 ^ 32)
unfolding next_capacity
next_capacity_grows c h = ground arith

module _ (a : Allocator) where
  open a use {Heap}

  -- The outcomes of a move to a larger array.
  pub data Moved (v : Vector) (count size : ℕ) (b : Option Block)
      : Error × Vector × Heap → Type 0 where
    moved :
        {w : Vector} {h : Heap}
        → w.size ≡ v.size
        → w.capacity ≡ size
        → w.address ≡ v.address
        → length (words w) ≡ size
        → take count (words w) ≡ take count (words v)
        → Moved v count size b (no_err, w, h)
    refused : {h : Heap} → b ≡ none → Moved v count size b (malloc_failed, v, h)

  pub move_array-Moved :
      (v : Vector) (count size : ℕ) (b : Option Block) (h : Heap)
      → count ≤ length (words v)
      → count ≤ size
      → count * 4 < 2 ^ 32
      → ((c : Block) → b ≡ some c → length c.words ≡ size)
      → Returns (Moved v count size b) (move_array a v count size (b, h))
  unfolding move_array
  move_array-Moved v count size none h p q low new = returns (refused refl)
  move_array-Moved v count size (some b) h p q low new =
      let l : length b.words ≡ size = new b refl in
      rw (memcpy-ok b.words (words v) count low p (omega arith)) (
        returns (
          moved refl refl refl (length-memcpy b.words (words v) count p (omega arith) ∙ l)
            (take-memcpy b.words (words v) count p)))

  -- The outcomes of the macro: room for one more element with the contents kept, or a full array
  -- that could not be replaced.
  pub data Grown (v : Vector) (h : Heap) : Error × Vector × Heap → Type 0 where
    room :
        {w : Vector} {g : Heap}
        → IsVector w
        → w.size ≡ v.size
        → w.size < w.capacity
        → contents w ≡ contents v
        → Grown v h (no_err, w, g)
    full :
        {g : Heap}
        → v.size ≡ v.capacity
        → (allocate a h (pointer_bytes (next_capacity v.capacity))).0 ≡ none
        → Grown v h (malloc_failed, v, g)

  pub grow-Grown :
      (v : Vector) (h : Heap) → IsVector v → v.capacity < 2 ^ 29 → Returns (Grown v h) (grow a v h)
  unfolding grow
  grow-Grown v h is small =
      let (more, bound, bytes) = next_capacity_grows v.capacity small in
      let size = next_capacity v.capacity in
      let new = allocate a h (pointer_bytes size) in
      elim (Bool-cases (v.capacity == v.size)) [
        | inr free ↦
            rw free
              (returns (room is refl (omega (arith, ==→ne v.capacity v.size free, is.within)) refl))
        | inl filled ↦
            let e : v.capacity ≡ v.size = ==→eq v.capacity v.size filled in
            let larger : leb size v.capacity ≡ false = ground arith in
            rw (filled, larger)
              (mono
                (move_array-Moved v v.size size new.0 new.1 (omega (arith, is.fits)) (omega arith)
                  (omega (arith, is.small, is.within))
                  (λ c fresh. omega (arith, allocate_size a h (pointer_bytes size) fresh)))
                (grown is e more bytes))
      ]
    where
      grown :
          IsVector v
          → v.capacity ≡ v.size
          → v.capacity < next_capacity v.capacity
          → next_capacity v.capacity * 4 < 2 ^ 32
          → (r : Error × Vector × Heap)
          → Moved v v.size
              (next_capacity v.capacity)
              (allocate a h (pointer_bytes (next_capacity v.capacity))).0
              r
          → Grown v h r
      grown is e more bytes r (moved {w} size cap addr fits same) =
          room (record { fits = fits ∙ sym cap; within = omega arith; small = omega arith }) size
            (omega arith) (rw size same)
      grown is e more bytes r (refused none_left) = full (sym e) none_left
