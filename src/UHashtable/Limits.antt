-- ===== src/UHashtable/Limits.antt =====
-- Where uhashtable.c stops working: the sweep of the graveyard, and a full table.
use utk.Prelude.{
  Bool, Bool-cases, List, [], ap, arith, endless, inl, inr, length, none, ok, out_of_bound, refl,
  some, sym, true, ℕ, ◌<◌, ◌∙◌, ◌∷◌, ◌≡◌,
}
use utk.Memory.{Allocator}
use utk.UHashtable.{
  Slot, EntryArray, Table, word_mod, home, probe, get_stop, is_grave, rehash, remove_from,
  remove_entry, uhashtable_get,
}
use utk.UHashtable.Ring.{rotated}
use utk.UHashtable.Probe.{first, turn, probe-first, home-lt}
use utk.UHashtable.View.{holds, nulls, count, one_if, nulls-rotated, count-rotated}

-- Nothing stops a search of a key among cells that hold other keys or are in the graveyard.
first-none : (k : ℕ) (zs : List Slot) → nulls zs ≡ 0 → count k zs ≡ 0 → first (get_stop k) zs ≡ none
unfolding first
first-none k [] n c = refl
first-none k (none ∷ zs) n c = absurd (omega arith)
first-none k (some e ∷ zs) n c = elim (Bool-cases (holds k (some e))) [
  | inl it ↦ absurd (omega (arith, ap one_if it))
  | inr other ↦ rw (other, first-none k zs n (omega arith))
]

module _ (a : Allocator) (t : Table) (es : EntryArray) where
  open a use {Heap}

  -- A rehash with growth factor 1 is always refused as an overflow.
  pub rehash_same : (h : Heap) → t.capacity < word_mod → rehash a t es 1 h ≡ ok (out_of_bound, t, h)
  unfolding rehash
  rehash_same h small = ground arith

  -- Once the graveyard passes its bound, uhashtable_remove fails with out_of_bound for every key,
  -- present or not, and the table stays as it is, so that it goes on failing.
  pub remove_entry_stuck :
      (k : ℕ) (given : Bool) (h : Heap)
      → t.entries ≡ some es
      → t.capacity < word_mod
      → is_grave t ≡ true
      → remove_entry a t es k given h ≡ ok (out_of_bound, t, none, h)
  unfolding remove_entry remove_from
  remove_entry_stuck k given h array small full = rw (full, rehash_same h small) (simp array)

  -- In a table with no NULL cell, uhashtable_get of a key that is not there never ends.
  pub uhashtable_get_endless :
      (k : ℕ)
      → t.entries ≡ some es
      → length es.slots ≡ t.capacity
      → 0 < t.capacity
      → t.capacity < word_mod
      → nulls es.slots ≡ 0
      → count k es.slots ≡ 0
      → uhashtable_get a (some t) k true ≡ endless
  unfolding uhashtable_get
  uhashtable_get_endless k array fits positive small full absent =
      let slots = es.slots in
      let h = home k t.capacity in
      let inside : h < length slots = omega (arith, home-lt k t.capacity positive small, fits) in
      let search : probe (get_stop k) t.capacity t.capacity h slots ≡ endless =
        ap (λ n. probe (get_stop k) n n h slots) (sym fits)
        ∙ probe-first (get_stop k) slots h inside
        ∙ ap (turn (length slots) h) (
            first-none k (rotated h slots) (nulls-rotated h slots ∙ full)
              (count-rotated k h slots ∙ absent)) in
      rw (array, search)
