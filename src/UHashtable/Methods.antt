-- ===== src/UHashtable/Methods.antt =====
-- uhashtable_set and uhashtable_remove of uhashtable.c against the searches that a table stands for.
use utk.Prelude.{
  Bool, Bool-cases, Error, Option, Returns, ap, arith, bind, false, if◌then◌else◌, inl, inr,
  length-set, malloc_failed, no_err, no_such_id, none, ok, refl, returns, set, some, true, ℕ, ◌%◌,
  ◌+◌, ◌-◌, ◌==◌, ◌∙◌, ◌∷◌, ◌≡◌, ◌≢◌, ◌≤◌,
}
use utk.Memory.{Allocator}
use utk.UHashtable.{
  uhashtable_set, uhashtable_remove, set_loaded, some_table, is_loaded, Entry, Slot, EntryArray,
  Table, word_mod, home, get_stop, set_stop, is_grave, set_at, new_entry, set_entry, remove_at,
  remove_from, remove_entry,
}
use utk.UHashtable.Ring.{rotated}
use utk.UHashtable.View.{
  holds, seek, nulls, count, one_if, count-append, count-rotated, nulls-rotated, seek_absent,
  seek-Skips, seek_now, seek_null,
}
use utk.UHashtable.Valid.{view, IsTable, view_other, Reach-fresh, nulls-set-some}
use utk.UHashtable.Landing.{Landing, Landing-visits, probe-Landing, Skips-of_Passes}
use utk.UHashtable.Entries.{stored_IsRing, stored_view}

module _ (a : Allocator) (t : Table) (es : EntryArray) where
  open a use {Heap, malloc}

  -- The outcomes of storing `x` under `k`.
  pub data Stored (k x : ℕ) (h : Heap) : Error × Table × Heap → Type 0 where
    stored :
        {u : Table} {fs : EntryArray} {g : Heap}
        → IsTable u fs
        → u.capacity ≡ t.capacity
        → ((q : ℕ)
            → view u.capacity fs.slots q
              ≡ (if q == k then ok (some x) else view t.capacity es.slots q))
        → Stored k x h (no_err, u, g)
    refused : {g : Heap} → (malloc h 12).0 ≡ none → Stored k x h (malloc_failed, t, g)

  -- The outcomes of removing `k`.
  pub data Dropped (k : ℕ) (given : Bool) (h : Heap)
      : Error × Table × Option ℕ × Heap → Type 0 where
    dropped :
        {u : Table} {fs : EntryArray} {x : ℕ}
        → IsTable u fs
        → u.capacity ≡ t.capacity
        → view t.capacity es.slots k ≡ ok (some x)
        → ((q : ℕ) → q ≢ k → view u.capacity fs.slots q ≡ view t.capacity es.slots q)
        → (count k es.slots ≤ 1 → view u.capacity fs.slots k ≡ ok none)
        → Dropped k given h (no_err, u, (if given then some x else none), h)
    absent : view t.capacity es.slots k ≡ ok none → Dropped k given h (no_such_id, t, none, h)

module _ (a : Allocator) (t : Table) (es : EntryArray) (is : IsTable t es) where
  open a use {Heap, malloc}

  -- The table after an entry is written at the cell `i`, whatever its counters.
  abbrev rewritten : ℕ → Entry → ℕ → ℕ → Table
  rewritten i e size grave = record {
    address = t.address;
    entries = some (record es { slots = set es.slots i (some e) });
    capacity = t.capacity;
    size = size;
    graveyard_size = grave;
  }

  module _ (k : ℕ) (h : Heap) (enough : 2 ≤ nulls es.slots) where
    wrote :
        (i : ℕ) (s : Slot) (e : Entry) (size grave : ℕ) (g : Heap)
        → Landing (set_stop k) t.capacity es.slots k (i, s)
        → holds k (some e) ≡ true
        → Stored a t es k e.value h (no_err, rewritten i e size grave, g)
    wrote i s e size grave g land own =
        stored {fs = record es { slots = set es.slots i (some e) }}
          (record {
            array = refl;
            ring = stored_IsRing t.capacity es.slots is.ring k i s e land enough own;
          })
          refl (stored_view t.capacity es.slots is.ring k i s e land enough own)

    set_landed :
        (x : ℕ) (r : ℕ × Slot)
        → Landing (set_stop k) t.capacity es.slots k r
        → Returns (Stored a t es k x h) (set_at a t es k x h r)
    unfolding set_at new_entry
    set_landed x (i, none) land = fresh (malloc h 12) refl
      where
        fresh :
            (m : Option ℕ × Heap)
            → malloc h 12 ≡ m
            → Returns (Stored a t es k x h) (new_entry a t es i k x m)
        fresh (none, g) e = returns (refused (rw e))
        fresh (some p, g) e = returns (
            wrote i none (record { address = p; key = k; value = x; is_used = true })
              ((t.size + 1) % word_mod) t.graveyard_size g land (ground arith))
    set_landed x (i, some old) land = elim (Bool-cases old.is_used) [
      | inl used ↦ rw used (
          returns (
            wrote i (some old) (record old { value = x; is_used = true }) t.size t.graveyard_size h
              land (ground (arith, used, land.ends))))
      | inr grave ↦ rw grave (
          returns (
            wrote i (some old) (record old { key = k; value = x; is_used = true }) t.size
              ((t.graveyard_size + word_mod - 1) % word_mod) h land (ground arith)))
    ]

    -- uhashtable_set_entry on a valid table with two NULL cells always ends: the key's search gives
    -- the value, every other search is as before and the table stays valid, or a new entry could
    -- not be allocated and the table is unchanged.
    pub set_entry-view : (x : ℕ) → Returns (Stored a t es k x h) (set_entry a t es k x h)
    unfolding set_entry
    set_entry-view x =
        bind (set_at a t es k x h) (probe-Landing (set_stop k) t.capacity es.slots is.ring k refl)
          (set_landed x)

  module _ (k : ℕ) (given : Bool) (h : Heap) where
    -- The searches after the entry at `i` goes to the graveyard.
    buried :
        (i : ℕ) (old : Entry) (size grave : ℕ)
        → Landing (get_stop k) t.capacity es.slots k (i, some old)
        → Dropped a t es k given h (
          no_err,
          rewritten i (record old { is_used = false }) size grave,
          (if given then some old.value else none),
          h,
        )
    buried i old size grave land =
        let gone : Entry = record old { is_used = false } in
        let slots = set es.slots i (some gone) in
        let us = land.place.before in
        let vs = land.place.after in
        let here : holds k (some old) ≡ true = land.ends in
        let visits = Landing-visits (get_stop k) land in
        let skips = Skips-of_Passes k us land.passes in
        let none_held : (q : ℕ) → holds q (some gone) ≡ false = λ q. ground arith in
        let left : nulls slots ≡ nulls es.slots =
          nulls-set-some t.capacity es.slots is.ring i (some old) gone land.inside land.here old
            refl in
        let free : 1 ≤ nulls slots = omega (arith, left, is.ring.free) in
        dropped {fs = record es { slots = slots }}
          (record {
            array = refl;
            ring = record {
              fits = length-set es.slots i (some gone) ∙ is.ring.fits;
              positive = is.ring.positive;
              small = is.ring.small;
              free = free;
              reach = λ q.
                  Reach-fresh t.capacity es.slots is.ring i (some old) gone land.inside land.here q
                    (none_held q);
            };
          })
          refl (ap (seek k) visits ∙ seek-Skips k us (some old ∷ vs) skips ∙ seek_now k old vs here)
          (λ q ne.
            (view_other t.capacity es.slots is.ring i (some old) gone land.inside land.here q
              (none_held q) (ground arith) free).0)
          (λ once.
            seek_absent k (rotated (home k t.capacity) slots)
              (omega (
                arith,
                ap (count k) (land.place.writes (some gone)),
                ap (count k) visits,
                count-rotated k (home k t.capacity) es.slots,
                count-append k us (some old ∷ vs),
                count-append k us (some gone ∷ vs),
                ap one_if here,
                ap one_if (none_held k),
              ))
              (omega (arith, nulls-rotated (home k t.capacity) slots)))

    remove_landed :
        (r : ℕ × Slot)
        → Landing (get_stop k) t.capacity es.slots k r
        → Dropped a t es k given h (remove_at a t es given h r)
    unfolding remove_at
    remove_landed (i, none) land = absent (
        ap (seek k) (Landing-visits (get_stop k) land)
        ∙ seek-Skips k land.place.before (none ∷ land.place.after)
            (Skips-of_Passes k land.place.before land.passes)
        ∙ seek_null k land.place.after)
    remove_landed (i, some old) land =
        buried i old ((t.size + word_mod - 1) % word_mod) ((t.graveyard_size + 1) % word_mod) land

    -- uhashtable_remove on a valid table whose graveyard is within its bound always ends: with the
    -- key's value given back, every other search as before, and none for the key if it was there
    -- once, or with no_such_id and the table unchanged.
    pub remove_entry-view :
        is_grave t ≡ false → Returns (Dropped a t es k given h) (remove_entry a t es k given h)
    unfolding remove_entry remove_from
    remove_entry-view low =
        simp (low, is.array)
          (bind (λ r. ok (remove_at a t es given h r))
            (probe-Landing (get_stop k) t.capacity es.slots is.ring k refl)
            λ r l. returns (remove_landed r l))

module _ (a : Allocator) where
  open a use {Heap}

  -- The public functions hand the table back, behind their pointer.
  pub data SetResult (P : Error × Table × Heap → Type 0)
      : Error × Option Table × Heap → Type 0 where
    on_table : {err : Error} {u : Table} {g : Heap} → P (err, u, g) → SetResult P (err, some u, g)

  pub data RemoveResult (P : Error × Table × Option ℕ × Heap → Type 0)
      : Error × Option Table × Option ℕ × Heap → Type 0 where
    from_table :
        {err : Error} {u : Table} {o : Option ℕ} {g : Heap}
        → P (err, u, o, g)
        → RemoveResult P (err, some u, o, g)

  -- uhashtable_set on a valid table with two NULL cells and a load within the bound always ends: the
  -- key's search gives the value, every other search is as before and the table stays valid, or a
  -- new entry could not be allocated and the table is unchanged.
  pub uhashtable_set-view :
      (t : Table) (es : EntryArray) (k x : ℕ) (h : Heap)
      → IsTable t es
      → 2 ≤ nulls es.slots
      → is_loaded t ≡ false
      → Returns (SetResult (Stored a t es k x h)) (uhashtable_set a (some t) k x h)
  unfolding uhashtable_set set_loaded some_table
  uhashtable_set-view t es k x h is enough light =
      simp (is.array, light)
        (bind (some_table a) (set_entry-view a t es is k h enough x) λ r s. returns (on_table s))

  -- uhashtable_remove on a valid table whose graveyard is within its bound always ends: with the
  -- key's value given back, every other search as before, and none for the key if it was there
  -- once, or with no_such_id and the table unchanged.
  pub uhashtable_remove-view :
      (t : Table) (es : EntryArray) (k : ℕ) (given : Bool) (h : Heap)
      → IsTable t es
      → is_grave t ≡ false
      → Returns (RemoveResult (Dropped a t es k given h)) (uhashtable_remove a (some t) k given h)
  unfolding uhashtable_remove
  uhashtable_remove-view t es k given h is low =
      simp (is.array)
        (bind _ (remove_entry-view a t es is k given h low) λ r s. returns (from_table s))
