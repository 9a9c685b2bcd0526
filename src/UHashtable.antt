-- ===== src/UHashtable.antt =====
-- The open-addressing table of Kernel/Sources/lib/libstruct/src/uhashtable.c: FNV-1a hashing, linear
-- probing, removed entries kept in the table (the graveyard), rehashing into a larger array.
-- A `uhashtable_t*` that may be NULL is an `Option`; 32-bit counters wrap.
pub mod Ring
pub mod Probe
pub mod View
pub mod Valid
pub mod Landing
pub mod Entries
pub mod Get
pub mod Methods
pub mod Latest
pub mod Rehash
pub mod Limits
pub mod Create
use Prim.Native.Nat.{bit_and, bit_xor}
use utk.Prelude.{
  Bool, Error, List, Option, Run, endless, false, fault, get_elem?, if◌then◌else◌, is_no_err, leb,
  ltb, malloc_failed, no_err, no_such_id, none, not, null_pointer, ok, out_of_bound, replicate, set,
  some, suc, true, zero, ℕ, ◌%◌, ◌&&◌, ◌*◌, ◌+◌, ◌-◌, ◌/◌, ◌==◌, ◌>>=◌, ◌^◌, ◌||◌,
}
use utk.Memory.{Allocator, pointer_bytes}

-- `uhashtable_entry_t`, at its address.
pub record Entry : Type 0 where
  pub address : ℕ
  pub key : ℕ
  pub value : ℕ
  pub is_used : Bool

-- A cell of the `entries` array; none is NULL.
abbrev pub Slot : Type 0
Slot = Option Entry

pub record EntryArray : Type 0 where
  pub address : ℕ
  pub slots : List Slot

-- `uhashtable_t`, its allocator apart.
pub record Table : Type 0 where
  pub address : ℕ
  pub entries : Option EntryArray
  pub capacity : ℕ
  pub size : ℕ
  pub graveyard_size : ℕ

abbrev pub word_mod : ℕ
word_mod = 2 ^ 32

-- The rounds of `uhash_64`: one byte of the key each.
unfoldable pub hash_loop : ℕ → ℕ → ℕ → ℕ → ℕ
hash_loop zero i key hash = hash
hash_loop (suc left) i key hash =
    hash_loop left (i + 1) key ((bit_xor hash ((key / 2 ^ (i * 8)) % 256) * 1099511628211) % 2 ^ 64)

unfoldable pub uhash_64 : ℕ → ℕ
unfolding hash_loop
uhash_64 key = hash_loop 4 0 key 14695981039346656037

-- `(size_t)(hash & (uint64_t)(capacity - 1))`
unfoldable pub home : ℕ → ℕ → ℕ
home key capacity = bit_and (uhash_64 key) ((capacity + word_mod - 1) % word_mod)

-- Where the loop of uhashtable_get and uhashtable_remove ends: at NULL or at the key in use.
abbrev pub get_stop : ℕ → Slot → Bool
get_stop key none = true
get_stop key (some e) = e.key == key && e.is_used

-- Where the loop of uhashtable_set_entry and uhashtable_rehash_entry ends: at NULL, at an entry of
-- the graveyard, or at the key in use.
abbrev pub set_stop : ℕ → Slot → Bool
set_stop key none = true
set_stop key (some e) = not e.is_used || e.key == key

-- The probing loop: the first cell from `i` on at which it ends. The array does not change on the
-- way, so a loop that has looked at every cell goes round for ever.
unfoldable pub probe : (Slot → Bool) → ℕ → ℕ → ℕ → List Slot → Run (ℕ × Slot)
probe stop zero capacity i slots = endless
probe stop (suc left) capacity i slots = elim (get_elem? slots i) [
  | none ↦ fault
  | some s ↦
      let rest = probe stop left capacity ((i + 1) % capacity) slots in
      if stop s then ok (i, s) else rest
]

-- `(float)capacity * 0.7f < size + graveyard_size`, with 0.7f as 11744051 / 2^24: exact for a
-- capacity that is a power of two, and a sum below 2^24.
unfoldable pub is_loaded : Table → Bool
is_loaded t = ltb (t.capacity * 11744051) (((t.size + t.graveyard_size) % word_mod) * 2 ^ 24)

-- `(float)capacity * 0.3f < graveyard_size`, with 0.3f as 10066330 / 2^25.
unfoldable pub is_grave : Table → Bool
is_grave t = ltb (t.capacity * 10066330) (t.graveyard_size * 2 ^ 25)

-- The table with its array's cells replaced.
abbrev pub with_slots : Table → EntryArray → List Slot → Table
with_slots t es slots = record t { entries = some (record es { slots = slots }) }

module _ (a : Allocator) where
  open a use {Heap, malloc, free}

  abbrev pub Result : Type 0
  Result = Run (Error × Table × Heap)

  -- What uhashtable_set_entry does with a NULL cell, once an entry is allocated or not.
  new_entry : Table → EntryArray → ℕ → ℕ → ℕ → Option ℕ × Heap → Result
  new_entry t es i key value (none, h) = ok (malloc_failed, t, h)
  new_entry t es i key value (some p, h) = ok (
    no_err,
    record (with_slots t es (
        set es.slots i (some (record { address = p; key = key; value = value; is_used = true })))) {
          size = (t.size + 1) % word_mod;
        },
    h,
  )

  set_at : Table → EntryArray → ℕ → ℕ → Heap → ℕ × Slot → Result
  set_at t es key value h (i, none) = new_entry t es i key value (malloc h 12)
  set_at t es key value h (i, some e) =
      if e.is_used
      then ok (no_err, with_slots t es (set es.slots i (some (record e { value = value }))), h)
      else ok (
        no_err,
        record (with_slots t es
            (set es.slots i (some (record e { key = key; value = value; is_used = true })))) {
              graveyard_size = (t.graveyard_size + word_mod - 1) % word_mod;
            },
        h,
      )

  -- `uhashtable_set_entry`, on a table whose array is `es`.
  unfoldable pub set_entry : Table → EntryArray → ℕ → ℕ → Heap → Result
  unfolding set_at new_entry
  set_entry t es key value h =
      probe (set_stop key) t.capacity t.capacity (home key t.capacity) es.slots
      >>= set_at t es key value h

  -- `uhashtable_rehash_entry`: the entry itself goes into the cell, or its value into the entry of
  -- the same key.
  rehash_at : Entry → List Slot → ℕ × Slot → List Slot
  rehash_at e slots (i, none) = set slots i (some e)
  rehash_at e slots (i, some old) =
      if old.is_used
      then set slots i (some (record old { value = e.value }))
      else set slots i (some e)

  pub rehash_entry : ℕ → Entry → List Slot → Run (List Slot)
  unfolding rehash_at
  rehash_entry capacity e slots =
      probe (set_stop e.key) capacity capacity (home e.key capacity) slots >>= λ r.
      ok (rehash_at e slots r)

  -- One round of the loop over the old cells: a used entry moves, one of the graveyard is freed.
  rehash_slot : ℕ → Slot → List Slot → Heap → Run (List Slot × Heap)
  rehash_slot capacity none slots h = ok (slots, h)
  rehash_slot capacity (some e) slots h =
      if e.is_used
      then (rehash_entry capacity e slots >>= λ slots'. ok (slots', h))
      else ok (slots, free h (some e.address))

  pub rehash_loop : ℕ → ℕ → ℕ → List Slot → List Slot × Heap → Run (List Slot × Heap)
  unfolding rehash_slot
  rehash_loop zero i capacity old (slots, h) = ok (slots, h)
  rehash_loop (suc left) i capacity old (slots, h) = elim (get_elem? old i) [
    | none ↦ fault
    | some s ↦ rehash_slot capacity s slots h >>= rehash_loop left (i + 1) capacity old
  ]

  rehash_into : Table → EntryArray → ℕ → Option ℕ × Heap → Result
  unfolding rehash_loop
  rehash_into t es new_capacity (none, h) = ok (malloc_failed, t, h)
  rehash_into t es new_capacity (some p, h) =
      rehash_loop t.capacity 0 new_capacity es.slots
        (replicate (pointer_bytes new_capacity / 4) none, h)
      >>= λ (slots, h'). ok (
        no_err,
        record t {
          entries = some (record { address = p; slots = slots });
          capacity = new_capacity;
          graveyard_size = 0;
        },
        free h' (some es.address),
      )

  -- `uhashtable_rehash`; the product with the growth factor, 1 or 2, is exact in a float.
  pub rehash : Table → EntryArray → ℕ → Heap → Result
  unfolding rehash_into
  rehash t es growth h =
      let new_capacity = (t.capacity * growth) % word_mod in
      if leb new_capacity t.capacity
      then ok (out_of_bound, t, h)
      else rehash_into t es new_capacity (malloc h (pointer_bytes new_capacity))

  got : ℕ × Slot → Error × Option ℕ
  got (i, none) = (no_such_id, none)
  got (i, some e) = (no_err, some e.value)

  -- `*data` is the second component; none where the code does not write it.
  unfoldable pub uhashtable_get : Option Table → ℕ → Bool → Run (Error × Option ℕ)
  unfolding got
  uhashtable_get none key data_given = ok (null_pointer, none)
  uhashtable_get (some t) key data_given =
      if not data_given then ok (null_pointer, none) else (elim t.entries [
        | none ↦ ok (null_pointer, none)
        | some es ↦
            probe (get_stop key) t.capacity t.capacity (home key t.capacity) es.slots >>= λ r.
            ok (got r)
      ])

  set_loaded : ℕ → ℕ → Error × Table × Heap → Result
  set_loaded key value (err, t, h) = elim t.entries [
    | none ↦ fault
    | some es ↦ if is_no_err err then set_entry t es key value h else ok (err, t, h)
  ]

  abbrev pub TableResult : Type 0
  TableResult = Run (Error × Option Table × Heap)

  some_table : Error × Table × Heap → TableResult
  some_table (err, t, h) = ok (err, some t, h)

  unfoldable pub uhashtable_set : Option Table → ℕ → ℕ → Heap → TableResult
  unfolding set_loaded some_table
  uhashtable_set none key value h = ok (null_pointer, none, h)
  uhashtable_set (some t) key value h = elim t.entries [
    | none ↦ ok (null_pointer, some t, h)
    | some es ↦
        let loaded = rehash t es 2 h in
        (if is_loaded t then loaded else ok (no_err, t, h)) >>= set_loaded key value >>= some_table
  ]

  abbrev pub Removed : Type 0
  Removed = Run (Error × Table × Option ℕ × Heap)

  -- The found entry goes to the graveyard. `*data` is the third component.
  remove_at : Table → EntryArray → Bool → Heap → ℕ × Slot → Error × Table × Option ℕ × Heap
  remove_at t es data_given h (i, none) = (no_such_id, t, none, h)
  remove_at t es data_given h (i, some e) = (
    no_err,
    record (with_slots t es (set es.slots i (some (record e { is_used = false })))) {
      graveyard_size = (t.graveyard_size + 1) % word_mod;
      size = (t.size + word_mod - 1) % word_mod;
    },
    (if data_given then some e.value else none),
    h,
  )

  -- `start` is the index computed before the rehash.
  remove_from : ℕ → ℕ → Bool → Error × Table × Heap → Removed
  unfolding remove_at
  remove_from key start data_given (err, t, h) = elim t.entries [
    | none ↦ fault
    | some es ↦
        if is_no_err err
        then (probe (get_stop key) t.capacity t.capacity start es.slots >>= λ r.
            ok (remove_at t es data_given h r))
        else ok (err, t, none, h)
  ]

  -- uhashtable_remove on a table that is not NULL, with its array `es`.
  pub remove_entry : Table → EntryArray → ℕ → Bool → Heap → Removed
  unfolding remove_from
  remove_entry t es key data_given h =
      let swept = rehash t es 1 h in
      (if is_grave t then swept else ok (no_err, t, h))
      >>= remove_from key (home key t.capacity) data_given

  unfoldable pub uhashtable_remove :
      Option Table → ℕ → Bool → Heap → Run (Error × Option Table × Option ℕ × Heap)
  unfolding remove_entry
  uhashtable_remove none key data_given h = ok (null_pointer, none, none, h)
  uhashtable_remove (some t) key data_given h = elim t.entries [
    | none ↦ ok (null_pointer, some t, none, h)
    | some es ↦
        remove_entry t es key data_given h >>= λ (err, t', value, h'). ok (err, some t', value, h')
  ]
