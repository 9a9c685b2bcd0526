-- ===== src/UHashtable/Rehash.antt =====
-- uhashtable_rehash of uhashtable.c into a larger array.
use utk.Prelude.{
  ==_refl, Bool, Bool-cases, Error, List, Option, Returns, [], ap, append_assoc, arith, bind, false,
  get_elem?, if◌then◌else◌, inl, inr, leb, length, length-append, length-replicate, malloc_failed,
  mono, no_err, none, ok, refl, replicate, returns, set, some, subst, subst₂, suc, sym, true, zero,
  ℕ, ◌%◌, ◌*◌, ◌++◌, ◌+◌, ◌/◌, ◌<◌, ◌==◌, ◌^◌, ◌∙◌, ◌∷◌, ◌≡◌, ◌≤◌,
}
use utk.Memory.{Allocator, pointer_bytes}
use utk.UHashtable.{
  Entry, Slot, EntryArray, Table, word_mod, home, set_stop, rehash_at, rehash_entry, rehash_slot,
  rehash_loop, rehash_into, rehash,
}
use utk.UHashtable.View.{
  holds, nulls, count, Reach-of_absent, count-rotated, nulls-rotated, seek_absent,
}
use utk.UHashtable.Valid.{view, IsRing, IsTable, nulls-set}
use utk.UHashtable.Landing.{Landing, probe-Landing}
use utk.UHashtable.Entries.{stored_IsRing, stored_view}
use utk.UHashtable.Latest.{latest, after_slot, view-latest}

-- The new array once an entry with the key and the value has moved into it.
record Moved (capacity : ℕ) (slots : List Slot) (k x : ℕ) (slots' : List Slot) : Type 0 where
  ring : IsRing capacity slots'
  finds : (q : ℕ) → view capacity slots' q ≡ (if q == k then ok (some x) else view capacity slots q)
  space : nulls slots ≤ nulls slots' + 1

Moved-if :
    {capacity k x : ℕ} {slots us vs : List Slot} (b : Bool)
    → (b ≡ true → Moved capacity slots k x us)
    → (b ≡ false → Moved capacity slots k x vs)
    → Moved capacity slots k x (if b then us else vs)
Moved-if true f g = f refl
Moved-if false f g = g refl

module _ (a : Allocator) (capacity : ℕ) where
  open a use {Heap, malloc}

  module _ (slots : List Slot) (is : IsRing capacity slots) (enough : 2 ≤ nulls slots) where
    put_entry :
        (k i : ℕ) (s : Slot) (f : Entry)
        → Landing (set_stop k) capacity slots k (i, s)
        → holds k (some f) ≡ true
        → Moved capacity slots k f.value (set slots i (some f))
    put_entry k i s f land own = record {
      ring = stored_IsRing capacity slots is k i s f land enough own;
      finds = stored_view capacity slots is k i s f land enough own;
      space = nulls-set capacity slots is i s f land.inside land.here;
    }

    rehash_at-Moved :
        (e : Entry) (r : ℕ × Slot)
        → e.is_used ≡ true
        → Landing (set_stop e.key) capacity slots e.key r
        → Moved capacity slots e.key e.value (rehash_at a e slots r)
    unfolding rehash_at
    rehash_at-Moved e (i, none) used land =
        put_entry e.key i none e land (rw (used, ==_refl e.key) refl)
    rehash_at-Moved e (i, some old) used land =
        Moved-if old.is_used
          (λ it.
            put_entry e.key i (some old) (record old { value = e.value }) land
              (ground (arith, land.ends, it)))
          (λ gone. put_entry e.key i (some old) e land (rw (used, ==_refl e.key) refl))

    rehash_entry-Moved :
        (e : Entry)
        → e.is_used ≡ true
        → Returns (Moved capacity slots e.key e.value) (rehash_entry a capacity e slots)
    unfolding rehash_entry
    rehash_entry-Moved e used =
        bind _ (probe-Landing (set_stop e.key) capacity slots is e.key refl)
          λ r land. returns (rehash_at-Moved e r used land)

  -- The new array once the cells `zs` of the old one are through.
  record Rehashed (slots zs : List Slot) (r : List Slot × Heap) : Type 0 where
    ring : IsRing capacity r.0
    finds : (q : ℕ) → view capacity r.0 q ≡ latest q zs (view capacity slots q)

  same_test : (e : Entry) (q : ℕ) → e.is_used ≡ true → (q == e.key) ≡ holds q (some e)
  same_test e q used = ground arith

  unused_test : (e : Entry) (q : ℕ) → e.is_used ≡ false → holds q (some e) ≡ false
  unused_test e q gone = ground arith

  -- One cell of the old array.
  record Round (slots : List Slot) (s : Slot) (r : List Slot × Heap) : Type 0 where
    ring : IsRing capacity r.0
    finds : (q : ℕ) → view capacity r.0 q ≡ after_slot q s (view capacity slots q)
    space : nulls slots ≤ nulls r.0 + 1

  rehash_slot-Round :
      (slots : List Slot) (s : Slot) (h : Heap)
      → IsRing capacity slots
      → 2 ≤ nulls slots
      → Returns (Round slots s) (rehash_slot a capacity s slots h)
  unfolding rehash_slot
  rehash_slot-Round slots none h is enough =
      returns (record { ring = is; finds = λ q. refl; space = omega arith })
  rehash_slot-Round slots (some e) h is enough = elim (Bool-cases e.is_used) [
    | inl used ↦ simp used (
        bind _ (rehash_entry-Moved slots is enough e used) λ us m. returns (record {
          ring = m.ring;
          finds = λ q.
              m.finds q
              ∙ ap (λ b. if b then ok (some e.value) else view capacity slots q)
                  (same_test e q used);
          space = m.space;
        }))
    | inr gone ↦ simp gone (
        returns (record {
          ring = is;
          finds = λ q.
              ap (λ b. if b then ok (some e.value) else view capacity slots q)
                (sym (unused_test e q gone));
          space = omega arith;
        }))
  ]

  get_elem?-middle :
      (us : List Slot) (s : Slot) (vs : List Slot) → get_elem? (us ++ s ∷ vs) (length us) ≡ some s
  get_elem?-middle [] s vs = refl
  get_elem?-middle (u ∷ us) s vs = get_elem?-middle us s vs

  rehash_loop-Rehashed :
      (us zs slots : List Slot) (h : Heap)
      → IsRing capacity slots
      → length zs + 1 ≤ nulls slots
      → Returns
          (Rehashed slots zs)
          (rehash_loop a (length zs) (length us) capacity (us ++ zs) (slots, h))
  unfolding rehash_loop
  rehash_loop-Rehashed us [] slots h is room = returns (record { ring = is; finds = λ q. refl })
  rehash_loop-Rehashed us (z ∷ zs) slots h is room =
      rw (rehash_loop, get_elem?-middle us z zs)
        (bind _ (rehash_slot-Round slots z h is (omega arith)) λ r round.
          mono
            (subst₂
              (λ n ws. Returns (Rehashed (r.0) zs) (rehash_loop a (length zs) n capacity ws r))
              (length-append us (z ∷ [])) (append_assoc us (z ∷ []) zs)
              (rehash_loop-Rehashed (us ++ z ∷ []) zs (r.0) (r.1) round.ring
                (omega (arith, round.space))))
            λ r' done. record {
              ring = done.ring;
              finds = λ q. done.finds q ∙ ap (latest q zs) (round.finds q);
            })

nulls-replicate : (n : ℕ) → nulls (replicate n none) ≡ n
nulls-replicate zero = refl
nulls-replicate (suc n) = ap suc (nulls-replicate n)

count-replicate : (q n : ℕ) → count q (replicate n none) ≡ 0
count-replicate q zero = refl
count-replicate q (suc n) = omega (arith, count-replicate q n)

-- An array of NULL cells is a valid ring, in which no key is found.
blank-IsRing : (n : ℕ) → 0 < n → n < word_mod → IsRing n (replicate n none)
blank-IsRing n positive small = record {
  fits = length-replicate n none;
  positive = positive;
  small = small;
  free = omega (arith, nulls-replicate n);
  reach = λ q.
      Reach-of_absent q _ (count-rotated q (home q n) (replicate n none) ∙ count-replicate q n);
}

blank-view : (n q : ℕ) → 0 < n → view n (replicate n none) q ≡ ok none
blank-view n q positive =
    seek_absent q _ (count-rotated q (home q n) (replicate n none) ∙ count-replicate q n)
      (omega (arith, nulls-rotated (home q n) (replicate n none), nulls-replicate n))

module _ (a : Allocator) (t : Table) (es : EntryArray) where
  open a use {Heap, malloc}

  -- The outcomes of a rehash into an array twice as large.
  pub data Doubled (h : Heap) : Error × Table × Heap → Type 0 where
    doubled :
        {u : Table} {fs : EntryArray} {g : Heap}
        → IsTable u fs
        → u.capacity ≡ t.capacity * 2
        → u.size ≡ t.size
        → u.graveyard_size ≡ 0
        → ((q : ℕ) → view u.capacity fs.slots q ≡ view t.capacity es.slots q)
        → Doubled h (no_err, u, g)
    refused :
        {g : Heap}
        → (malloc h (pointer_bytes (t.capacity * 2))).0 ≡ none
        → Doubled h (malloc_failed, t, g)

  module _ (is : IsTable t es) (single : (q : ℕ) → count q es.slots ≤ 1)
      (small : t.capacity < 2 ^ 29) (h : Heap) where
    rehash_into-Doubled :
        (m : Option ℕ × Heap)
        → malloc h (pointer_bytes (t.capacity * 2)) ≡ m
        → Returns (Doubled h) (rehash_into a t es (t.capacity * 2) m)
    unfolding rehash_into
    rehash_into-Doubled (none, g) e = returns (refused (ap (λ m. m.0) e))
    rehash_into-Doubled (some p, g) e =
        let n = t.capacity * 2 in
        let positive : 0 < n = omega (arith, is.ring.positive) in
        let blank : List Slot = replicate n none in
        let cells : pointer_bytes n / 4 ≡ n = omega arith in
        let moved =
          subst
            (λ c. Returns (Rehashed a n blank es.slots) (rehash_loop a c 0 n es.slots (blank, g)))
            (is.ring.fits)
            (rehash_loop-Rehashed a n [] es.slots blank g (blank-IsRing n positive (omega arith))
              (omega (arith, nulls-replicate n, is.ring.fits, is.ring.positive))) in
        rw cells (
          bind _ moved λ r done. returns (
            doubled {fs = record { address = p; slots = r.0 }}
              (record { array = refl; ring = done.ring }) refl refl refl
              λ q.
                done.finds q
                ∙ ap (latest q es.slots) (blank-view n q positive)
                ∙ sym (view-latest t.capacity es.slots q is.ring (single q))))

    -- uhashtable_rehash with growth factor 2, on a valid table of capacity below 2^29 in which no key
    -- is in use twice, always ends: in a valid table of twice the capacity with an empty graveyard, in
    -- which every search ends as before, or in malloc_failed with the table unchanged.
    pub rehash-Doubled : Returns (Doubled h) (rehash a t es 2 h)
    unfolding rehash
    rehash-Doubled =
        let wide : (t.capacity * 2) % word_mod ≡ t.capacity * 2 = omega arith in
        let larger : leb (t.capacity * 2) t.capacity ≡ false = ground (arith, is.ring.positive) in
        rw (wide, larger) (rehash_into-Doubled (malloc h (pointer_bytes (t.capacity * 2))) refl)
