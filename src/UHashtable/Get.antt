-- ===== src/UHashtable/Get.antt =====
-- uhashtable_get of uhashtable.c against the searches that a table stands for.
use utk.Prelude.{
  Error, List, Option, Returns, Run, ap, no_err, no_such_id, none, ok, refl, returns, some, true, ℕ,
  ◌++◌, ◌>>=◌, ◌∙◌, ◌∷◌, ◌≡◌,
}
use utk.Memory.{Allocator}
use utk.UHashtable.{Slot, EntryArray, Table, home, get_stop, got, uhashtable_get}
use utk.UHashtable.Ring.{rotated}
use utk.UHashtable.View.{seek, Skips, seek-Skips}
use utk.UHashtable.Valid.{view, IsTable}
use utk.UHashtable.Landing.{Landing, Landing-visits, probe-Landing, Skips-of_Passes}

-- What uhashtable_get answers for the outcome of a search.
abbrev pub reply : Option ℕ → Error × Option ℕ
reply none = (no_such_id, none)
reply (some x) = (no_err, some x)

module _ (a : Allocator) (t : Table) (es : EntryArray) (is : IsTable t es) where
  get_at :
      (k i : ℕ) (s : Slot) (us vs : List Slot)
      → Skips k us
      → get_stop k s ≡ true
      → rotated (home k t.capacity) es.slots ≡ us ++ s ∷ vs
      → (o : Option ℕ) × (view t.capacity es.slots k ≡ ok o) × (got a (i, s) ≡ reply o)
  unfolding got seek
  get_at k i none us vs skips ends visits =
      (none, ap (seek k) visits ∙ seek-Skips k us (none ∷ vs) skips, refl)
  get_at k i (some x) us vs skips ends visits =
      (some x.value, ap (seek k) visits ∙ seek-Skips k us (some x ∷ vs) skips ∙ rw ends, refl)

  -- uhashtable_get on a valid table always ends: it answers the outcome of the search for the key,
  -- with no_such_id and nothing written for a key that is not there.
  pub uhashtable_get-view :
      (k : ℕ)
      → (o : Option ℕ) × (view t.capacity es.slots k ≡ ok o)
        × (uhashtable_get a (some t) k true ≡ ok (reply o))
  unfolding uhashtable_get
  uhashtable_get-view k =
      rw (is.array) (go (probe-Landing (get_stop k) t.capacity es.slots is.ring k refl))
    where
      go :
          {run : Run (ℕ × Slot)}
          → Returns (Landing (get_stop k) t.capacity es.slots k) run
          → (o : Option ℕ) × (view t.capacity es.slots k ≡ ok o)
            × ((run >>= λ r. ok (got a r)) ≡ ok (reply o))
      go (returns {a = r} l) =
          let (o, v, e) =
            get_at k r.0 r.1 l.place.before l.place.after
              (Skips-of_Passes k l.place.before l.passes) l.ends (Landing-visits (get_stop k) l) in
          (o, v, ap ok e)
