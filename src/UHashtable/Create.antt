-- ===== src/UHashtable/Create.antt =====
-- Making and freeing a table of uhashtable.c.
use utk.Prelude.{
  Bool, Error, List, Option, Run, arith, fault, get_elem?, if◌then◌else◌, malloc_failed, no_err,
  none, not, null_pointer, ok, refl, replicate, some, suc, true, zero, ℕ, ◌+◌, ◌>>=◌, ◌≡◌,
}
use utk.Memory.{Allocator, pointer_bytes}
use utk.UHashtable.{EntryArray, Slot, Table, home}
use utk.UHashtable.View.{nulls, count-rotated, nulls-rotated, Reach-of_absent, seek_absent}
use utk.UHashtable.Valid.{IsTable, view}

module _ (a : Allocator) where
  open a use {Heap, malloc, free}

  -- What `*error` holds after the call, if `error` is given.
  abbrev report : Bool → Error → Option Error
  report given e = if given then some e else none

  create_entries : ℕ → Bool → Option ℕ × Heap → Option Table × Option Error × Heap
  create_entries p error_given (none, h) = (none, report error_given malloc_failed, free h (some p))
  create_entries p error_given (some q, h) =
      let es : EntryArray = record { address = q; slots = replicate 16 none } in
      let t : Table = record {
        address = p;
        entries = some es;
        capacity = 16;
        size = 0;
        graveyard_size = 0;
      } in
      (some t, report error_given no_err, h)

  create_table : Bool → Option ℕ × Heap → Option Table × Option Error × Heap
  unfolding create_entries
  create_table error_given (none, h) = (none, report error_given malloc_failed, h)
  create_table error_given (some p, h) = create_entries p error_given (malloc h (pointer_bytes 16))

  -- `functions_given`: neither pointer of the allocator is NULL.
  unfoldable pub uhashtable_create : Bool → Bool → Heap → Option Table × Option Error × Heap
  unfolding create_table
  uhashtable_create functions_given error_given h =
      if not functions_given
      then (none, report error_given null_pointer, h)
      else create_table error_given (malloc h 24)

  destroy_slot : Slot → Heap → Heap
  destroy_slot none h = h
  destroy_slot (some e) h = free h (some e.address)

  pub destroy_loop : ℕ → ℕ → List Slot → Heap → Run Heap
  unfolding destroy_slot
  destroy_loop zero i slots h = ok h
  destroy_loop (suc left) i slots h = elim (get_elem? slots i) [
    | none ↦ fault
    | some s ↦ destroy_loop left (i + 1) slots (destroy_slot s h)
  ]

  pub uhashtable_destroy : Option Table → Heap → Run (Error × Heap)
  unfolding destroy_loop
  uhashtable_destroy none h = ok (null_pointer, h)
  uhashtable_destroy (some t) h = elim t.entries [
    | none ↦ ok (null_pointer, h)
    | some es ↦ destroy_loop t.capacity 0 es.slots h >>= λ h'.
        ok (no_err, free (free h' (some es.address)) (some t.address))
  ]

-- What a creation ends in: no memory, or an empty table.
pub data Created (H : Type 0) (given : Bool) : Option Table × Option Error × H → Type 0 where
  failed : (h : H) → Created H given (none, (if given then some malloc_failed else none), h)
  made :
      (t : Table) (es : EntryArray) (h : H)
      → IsTable t es
      → nulls es.slots ≡ t.capacity
      → t.size + t.graveyard_size ≡ 0
      → ((k : ℕ) → view t.capacity es.slots k ≡ ok none)
      → Created H given (some t, (if given then some no_err else none), h)

abbrev blank_slots : List Slot
blank_slots = replicate 16 none

abbrev blank_array : ℕ → EntryArray
blank_array q = record { address = q; slots = blank_slots }

abbrev blank_table : ℕ → ℕ → Table
blank_table p q = record {
  address = p;
  entries = some (blank_array q);
  capacity = 16;
  size = 0;
  graveyard_size = 0;
}

blank-IsTable : (p q : ℕ) → IsTable (blank_table p q) (blank_array q)
blank-IsTable p q = record {
  array = refl;
  ring = record {
    fits = refl;
    positive = omega arith;
    small = omega arith;
    free = omega arith;
    reach = λ k. Reach-of_absent k _ (count-rotated k (home k 16) blank_slots);
  };
}

module _ (a : Allocator) where
  open a use {Heap, malloc}

  -- uhashtable_create with both functions of the allocator ends in malloc_failed and NULL, or in
  -- no_err and a valid table in which every cell is NULL and no key is found.
  pub uhashtable_create-Created :
      (given : Bool) (h : Heap) → Created Heap given (uhashtable_create a true given h)
  unfolding uhashtable_create create_table create_entries
  uhashtable_create-Created given h = structure (malloc h 24)
    where
      array : (p : ℕ) (r : Option ℕ × Heap) → Created Heap given (create_entries a p given r)
      array p (none, h') = failed _
      array p (some q, h') = made _ (blank_array q) h' (blank-IsTable p q) refl refl λ k.
          seek_absent k _ (count-rotated k (home k 16) blank_slots)
            (omega (arith, nulls-rotated (home k 16) blank_slots))

      structure : (r : Option ℕ × Heap) → Created Heap given (create_table a given r)
      structure (none, h') = failed h'
      structure (some p, h') = array p (malloc h' (pointer_bytes 16))
