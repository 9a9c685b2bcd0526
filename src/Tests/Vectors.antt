-- ===== src/Tests/Vectors.antt =====
-- vector.c on an array of three words, over an allocator that grants a given number of requests.
use utk.Prelude.{
  Option, Returns, [], arith, drop, fault, no_err, none, ok, refl, some, suc, take, true, zero, ℕ,
  ◌++◌, ◌∷◌, ◌≡◌,
}
use utk.Memory.{Block, Allocator, pointer_bytes, tabulate, allocate}
use utk.Vector.{
  Vector, vector_copy, vector_insert, vector_push, vector_pop, vector_resize, vector_shrink_to_fit,
}
use utk.Vector.Contents.{contents, IsVector}
use utk.Vector.Push.{Added, vector_push-append, vector_pop-snoc}
use utk.Vector.Insert.{vector_insert-contents}
use utk.Vector.Resize.{Shrunk, vector_resize_overrun, vector_shrink_to_fit-contents}
use utk.Vector.Create.{Made, vector_copy-contents}

abbrev pub grant : ℕ → Option ℕ × ℕ
grant zero = (none, zero)
grant (suc left) = (some 4096, left)

abbrev pub granting : Allocator
granting = record { Heap = ℕ; malloc = λ h bytes. grant h; rest = λ h i. 7; free = λ h p. h }

abbrev pub three : Vector
three = record {
  address = 64;
  array = some (record { address = 128; words = 5 ∷ 6 ∷ 9 ∷ [] });
  size = 3;
  capacity = 3;
}

three-IsVector : IsVector three
three-IsVector = record { fits = refl; within = omega arith; small = omega arith }

abbrev loose : Vector
loose = record three { size = 2 }

loose-IsVector : IsVector loose
loose-IsVector = record { fits = refl; within = omega arith; small = omega arith }

vector_push-append_example :
    Returns
      (Added granting three 1 (contents three ++ 8 ∷ []))
      (vector_push granting (some three) 8 1)
vector_push-append_example = vector_push-append granting three 8 1 three-IsVector (omega arith)

vector_insert-contents_example :
    Returns
      (Added granting three 1 (take 1 (contents three) ++ 8 ∷ drop 1 (contents three)))
      (vector_insert granting (some three) 8 1 1)
vector_insert-contents_example =
    vector_insert-contents granting three 8 1 1 three-IsVector (omega arith) (omega arith)

vector_pop-snoc_example :
    (w : Vector) × (vector_pop granting (some three) true ≡ ok (no_err, some w, some 9))
    × IsVector w
    × (contents w ≡ 5 ∷ 6 ∷ [])
vector_pop-snoc_example = vector_pop-snoc granting three (5 ∷ 6 ∷ []) 9 three-IsVector refl

vector_resize_overrun_example : vector_resize granting (some three) 4 1 ≡ fault
unfolding allocate tabulate
vector_resize_overrun_example =
    vector_resize_overrun granting three 4 1 three-IsVector (omega arith) (omega arith) fresh
      granted
  where
    fresh : Block
    fresh = record { address = 4096; words = 7 ∷ 7 ∷ 7 ∷ 7 ∷ [] }

    granted : (allocate granting 1 (pointer_bytes 4)).0 ≡ some fresh
    granted = refl

vector_shrink_to_fit-contents_example :
    Returns (Shrunk granting loose 1) (vector_shrink_to_fit granting (some loose) 1)
vector_shrink_to_fit-contents_example =
    vector_shrink_to_fit-contents granting loose 1 loose-IsVector

vector_copy-contents_example :
    Returns (Made granting 3 (contents loose)) (vector_copy granting (some loose) true 2)
vector_copy-contents_example = vector_copy-contents granting loose 2 loose-IsVector
