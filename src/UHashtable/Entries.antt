-- ===== src/UHashtable/Entries.antt =====
-- uhashtable_get, uhashtable_set_entry and uhashtable_remove of uhashtable.c against the searches
-- that a table stands for.
use utk.Prelude.{
  ==→eq, ==→ne, Bool-cases, Error, List, Option, ap, arith, false, if◌then◌else◌, inl, inr,
  length-set, no_err, no_such_id, none, ok, refl, set, some, subst, sym, true, ℕ, ◌==◌, ◌∙◌, ◌≡◌,
  ◌≢◌, ◌≤◌,
}
use utk.UHashtable.{Entry, Slot, home, set_stop}
use utk.UHashtable.Ring.{rotated}
use utk.UHashtable.View.{holds, seek, nulls, Reach, seek_own, Reach-own}
use utk.UHashtable.Valid.{view, IsRing, view_other, nulls-set}
use utk.UHashtable.Landing.{Landing, Clear-of_Passes}

-- What uhashtable_get answers for the outcome of a search.
abbrev pub reply : Option ℕ → Error × Option ℕ
reply none = (no_such_id, none)
reply (some x) = (no_err, some x)

-- The array after the write of an entry under `k` at the cell where the loop stopped.
module _ (capacity : ℕ) (slots : List Slot) (is : IsRing capacity slots) (k i : ℕ) (s : Slot)
    (e : Entry) (land : Landing (set_stop k) capacity slots k (i, s)) (enough : 2 ≤ nulls slots)
    (own : holds k (some e) ≡ true) where
  abbrev written : List Slot
  written = set slots i (some e)

  key_of : e.key ≡ k
  key_of = ground arith

  some_left : 1 ≤ nulls written
  some_left = omega (arith, nulls-set capacity slots is i s e land.inside land.here)

  foreign : (q : ℕ) → q ≢ k → (holds q (some e) ≡ false) × (holds q s ≡ false)
  foreign q ne = go s land.ends
    where
      go : (s : Slot) → set_stop k s ≡ true → (holds q (some e) ≡ false) × (holds q s ≡ false)
      go none ends = (ground (arith, key_of), refl)
      go (some x) ends = (ground (arith, key_of), ground arith)

  stored_own :
      (view capacity written k ≡ ok (some e.value)) × Reach k (rotated (home k capacity) written)
  stored_own =
      let c = land.place in
      let clear = Clear-of_Passes k c.before land.passes in
      (
        ap (seek k) (c.writes (some e)) ∙ seek_own k e c.before c.after clear own,
        subst (λ zs. Reach k zs) (sym (c.writes (some e)))
            (Reach-own k e c.before c.after c.slot clear
              (subst (λ zs. Reach k zs) c.visits (is.reach k))),
      )

  pub stored_IsRing : IsRing capacity written
  stored_IsRing = record {
    fits = length-set slots i (some e) ∙ is.fits;
    positive = is.positive;
    small = is.small;
    free = some_left;
    reach = λ q. elim (Bool-cases (q == k)) [
      | inl same ↦
          subst (λ n. Reach n (rotated (home n capacity) written)) (sym (==→eq q k same))
            stored_own.1
      | inr other ↦
          let f = foreign q (==→ne q k other) in
          (view_other capacity slots is i s e land.inside land.here q f.0 f.1 some_left).1
    ];
  }

  pub stored_view :
      (q : ℕ)
      → view capacity written q ≡ (if q == k then ok (some e.value) else view capacity slots q)
  stored_view q = elim (Bool-cases (q == k)) [
    | inl same ↦ rw (same, ==→eq q k same) stored_own.0
    | inr other ↦
        let f = foreign q (==→ne q k other) in
        rw other (view_other capacity slots is i s e land.inside land.here q f.0 f.1 some_left).0
  ]
