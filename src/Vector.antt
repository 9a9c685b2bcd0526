-- ===== src/Vector.antt =====
-- The growable array of Kernel/Sources/lib/libstruct/src/vector.c. A `vector_t*` argument that may
-- be NULL is an `Option`, and each function returns its error, the vector and the allocator's heap.
pub mod Contents
pub mod Grow
pub mod Push
pub mod Insert
pub mod Access
pub mod Resize
pub mod Create
use utk.Prelude.{
  Bool, Error, List, Option, Run, fault, if◌then◌else◌, is_no_err, leb, ltb, malloc_failed, max,
  no_err, none, not, null_pointer, ok, out_of_bound, some, suc, true, zero, ℕ, ◌%◌, ◌*◌, ◌+◌, ◌-◌,
  ◌==◌, ◌>>=◌, ◌^◌,
}
use utk.Memory.{
  Block, Allocator, pointer_bytes, load, store, memcpy, words_of, address_of, allocate,
}

-- `vector_t`: the allocator is a parameter below, `address` is the structure's own.
pub record Vector : Type 0 where
  pub address : ℕ
  pub array : Option Block
  pub size : ℕ
  pub capacity : ℕ

-- The words of the vector's array; NULL has none.
abbrev pub words : Vector → List ℕ
words v = words_of v.array

abbrev pub set_words : Option Block → List ℕ → Option Block
set_words none ws = none
set_words (some b) ws = some (record b { words = ws })

-- The capacity that GROW_VECTOR_SIZE asks for.
pub next_capacity : ℕ → ℕ
next_capacity c = let n = (c * 2) % 2 ^ 32 in if n == 0 then 2 else n

-- `for(i = 0; i < size; ++i) array[i] = init_data`, with the rounds left.
pub init_loop : ℕ → ℕ → ℕ → List ℕ → Run (List ℕ)
init_loop zero i x ws = ok ws
init_loop (suc left) i x ws = store ws i x >>= λ ws'. init_loop left (i + 1) x ws'

-- `for(i = size; i > position; --i) array[i] = array[i - 1]`
pub shift_loop : ℕ → ℕ → List ℕ → Run (List ℕ)
shift_loop zero position ws = ok ws
shift_loop (suc i) position ws =
    let round = load ws i >>= λ x. store ws (suc i) x >>= λ ws'. shift_loop i position ws' in
    if ltb position (suc i) then round else ok ws

module _ (a : Allocator) where
  open a use {Heap, free}

  abbrev pub Result : Type 0 → Type 0
  Result V = Run (Error × V × Heap)

  -- The allocation, copy and release that several functions share: the new array takes the first
  -- `count` words of the old one.
  pub move_array : Vector → (count new_size : ℕ) → Option Block × Heap → Result Vector
  move_array v count new_size (none, h) = ok (malloc_failed, v, h)
  move_array v count new_size (some b, h) = memcpy b.words (words v) count >>= λ ws. ok (
    no_err,
    record v { array = some (record b { words = ws }); capacity = new_size },
    free h (address_of v.array),
  )

  -- The macro GROW_VECTOR_SIZE; its early returns are the results with an error.
  pub grow : Vector → Heap → Result Vector
  unfolding move_array next_capacity
  grow v h =
      if v.capacity == v.size
      then (if leb (next_capacity v.capacity) v.capacity
          then ok (out_of_bound, v, h)
          else move_array v v.size (next_capacity v.capacity)
              (allocate a h (pointer_bytes (next_capacity v.capacity))))
      else ok (no_err, v, h)

  insert_at : ℕ → ℕ → Error × Vector × Heap → Result (Option Vector)
  insert_at x position (err, v, h) =
      if is_no_err err
      then (shift_loop v.size position (words v) >>= λ ws. store ws position x >>= λ ws'. ok (
        no_err,
        some (record v { array = set_words v.array ws'; size = (v.size + 1) % 2 ^ 32 }),
        h,
      ))
      else ok (err, some v, h)

  pub vector_insert : Option Vector → ℕ → ℕ → Heap → Result (Option Vector)
  unfolding insert_at shift_loop
  vector_insert none x position h = ok (null_pointer, none, h)
  vector_insert (some v) x position h =
      if ltb v.size position
      then ok (out_of_bound, some v, h)
      else grow v h >>= insert_at x position

  push_at : ℕ → Error × Vector × Heap → Result (Option Vector)
  push_at x (err, v, h) =
      if is_no_err err
      then (store (words v) v.size x >>= λ ws. ok (
        no_err,
        some (record v { array = set_words v.array ws; size = (v.size + 1) % 2 ^ 32 }),
        h,
      ))
      else ok (err, some v, h)

  pub vector_push : Option Vector → ℕ → Heap → Result (Option Vector)
  unfolding push_at
  vector_push none x h = ok (null_pointer, none, h)
  vector_push (some v) x h = grow v h >>= push_at x

  -- `*data` is the last component; none where the code does not write it.
  pub vector_pop : Option Vector → Bool → Run (Error × Option Vector × Option ℕ)
  vector_pop none data_given = ok (null_pointer, none, none)
  vector_pop (some v) data_given =
      if not data_given
      then ok (null_pointer, some v, none)
      else if v.size == 0
      then ok (out_of_bound, some v, none)
      else (load (words v) (v.size - 1) >>= λ x.
          ok (no_err, some (record v { size = v.size - 1 }), some x))

  pub vector_get : Option Vector → ℕ → Bool → Run (Error × Option ℕ)
  vector_get none position data_given = ok (null_pointer, none)
  vector_get (some v) position data_given =
      if not data_given
      then ok (null_pointer, none)
      else if leb v.size position
      then ok (out_of_bound, none)
      else (load (words v) position >>= λ x. ok (no_err, some x))

  pub vector_set : Option Vector → ℕ → ℕ → Run (Error × Option Vector)
  vector_set none position x = ok (null_pointer, none)
  vector_set (some v) position x =
      if leb v.size position
      then ok (out_of_bound, some v)
      else (store (words v) position x >>= λ ws.
          ok (no_err, some (record v { array = set_words v.array ws })))

  pub vector_clear : Option Vector → Error × Option Vector
  vector_clear none = (null_pointer, none)
  vector_clear (some v) = (no_err, some (record v { size = 0 }))

  pub vector_destroy : Option Vector → Heap → Error × Heap
  vector_destroy none h = (null_pointer, h)
  vector_destroy (some v) h =
      (no_err, free (elim v.array [ none ↦ h | some b ↦ free h (some b.address) ]) (some v.address))

  some_vector : Error × Vector × Heap → Result (Option Vector)
  some_vector (err, v, h) = ok (err, some v, h)

  pub vector_shrink_to_fit : Option Vector → Heap → Result (Option Vector)
  unfolding some_vector move_array
  vector_shrink_to_fit none h = ok (null_pointer, none, h)
  vector_shrink_to_fit (some v) h =
      if ltb v.size v.capacity
      then if not (v.size == 0)
        then move_array v v.size v.size (allocate a h (pointer_bytes v.size)) >>= some_vector
        else ok
            (no_err, some (record v { array = none; capacity = 0 }), free h (address_of v.array))
      else ok (no_err, some v, h)

  resized : ℕ → Error × Vector × Heap → Result (Option Vector)
  resized size (err, v, h) =
      ok (err, some (if is_no_err err then record v { size = size } else v), h)

  pub vector_resize : Option Vector → ℕ → Heap → Result (Option Vector)
  unfolding resized move_array
  vector_resize none size h = ok (null_pointer, none, h)
  vector_resize (some v) size h =
      if ltb v.capacity size
      then if not (size == 0)
        then move_array v (max v.size size) size (allocate a h (pointer_bytes size))
          >>= resized size
        else ok (
          no_err,
          some (record v { array = none; capacity = 0; size = 0 }),
          free h (address_of v.array),
        )
      else ok (no_err, some (record v { size = size }), h)

  -- What `*error` holds after the call, if `error` is given.
  abbrev report : Bool → Error → Option Error
  report given e = if given then some e else none

  abbrev pub Created : Type 0
  Created = Run (Option Vector × Option Error × Heap)

  create_array : ℕ → ℕ → Bool → ℕ → Option Block × Heap → Created
  create_array init_data size error_given p (none, h) =
      ok (none, report error_given malloc_failed, h)
  create_array init_data size error_given p (some b, h) =
      init_loop size 0 init_data b.words >>= λ ws.
      let v : Vector = record {
        address = p;
        array = some (record b { words = ws });
        size = size;
        capacity = size;
      } in
      ok (some v, report error_given no_err, h)

  -- The structure itself takes 20 bytes.
  create_struct : ℕ → ℕ → Bool → Option ℕ × Heap → Created
  unfolding create_array
  create_struct init_data size error_given (none, h) =
      ok (none, report error_given malloc_failed, h)
  create_struct init_data size error_given (some p, h) =
      if not (size == 0)
      then create_array init_data size error_given p (allocate a h (pointer_bytes size))
      else (let v : Vector = record { address = p; array = none; size = size; capacity = size } in
          ok (some v, report error_given no_err, h))

  -- `functions_given`: neither pointer of the allocator is NULL.
  pub vector_create : Bool → ℕ → ℕ → Bool → Heap → Created
  unfolding create_struct init_loop
  vector_create functions_given init_data size error_given h =
      if not functions_given
      then ok (none, report error_given null_pointer, h)
      else create_struct init_data size error_given (a.malloc h 20)

  -- `*error` is read, so a missing `error` faults once the copy is allocated.
  copy_into : Vector → Option Vector × Option Error × Heap → Created
  copy_into v (none, error, h) = ok (none, error, h)
  copy_into v (some w, none, h) = fault
  copy_into v (some w, some err, h) =
      if not (is_no_err err)
      then ok (none, some err, h)
      else (memcpy (words w) (words v) v.size >>= λ ws.
          ok (some (record w { array = set_words w.array ws; size = v.size }), some no_err, h))

  pub vector_copy : Option Vector → Bool → Heap → Created
  unfolding copy_into
  vector_copy none error_given h = ok (none, report error_given null_pointer, h)
  vector_copy (some v) error_given h = vector_create true 0 v.capacity error_given h >>= copy_into v
