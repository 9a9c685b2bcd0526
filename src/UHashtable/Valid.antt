-- ===== src/UHashtable/Valid.antt =====
-- The invariant of a table of uhashtable.c, and what the overwriting of one cell of it does to the
-- searches for every other key.
use native.Mathlib.Nat.{mod-eq_of_lt}
use utk.Prelude.{
  Bool-cases, List, Option, Run, ap, arith, false, get_elem?, inl, inr, length, ltb, ltb→le, ltb→lt,
  none, set, some, subst, sym, ℕ, ◌%◌, ◌++◌, ◌+◌, ◌<◌, ◌∙◌, ◌∷◌, ◌≡◌, ◌≤◌,
}
use utk.UHashtable.{Entry, Slot, EntryArray, Table, word_mod, home}
use utk.UHashtable.Ring.{rotated, mod_wrap, Place, place}
use utk.UHashtable.Probe.{home-lt}
use utk.UHashtable.View.{
  holds, seek, nulls, Reach, nulls-append, nulls-rotated, seek_other, Reach-other,
}

-- The search for a key from its home cell.
abbrev pub view : ℕ → List Slot → ℕ → Run (Option ℕ)
view capacity slots q = seek q (rotated (home q capacity) slots)

-- The array `slots` has `capacity` cells, one of them at least is NULL, and no key in use is cut off
-- from its home cell by a NULL.
pub record IsRing (capacity : ℕ) (slots : List Slot) : Type 0 where
  pub fits : length slots ≡ capacity
  pub positive : 0 < capacity
  pub small : capacity < word_mod
  pub free : 1 ≤ nulls slots
  pub reach : (q : ℕ) → Reach q (rotated (home q capacity) slots)

pub record IsTable (t : Table) (es : EntryArray) : Type 0 where
  pub array : t.entries ≡ some es
  pub ring : IsRing t.capacity es.slots

-- A cell of an array is not reached from the same home cell in two ways.
pub mod_injective : (n h p q : ℕ) → h < n → p < n → q < n → (h + p) % n ≡ (h + q) % n → p ≡ q
mod_injective n h p q hn pn qn e = elim (Bool-cases (ltb (h + p) n)) [
  | inl a ↦
      let a' = ltb→lt (h + p) n a in
      elim (Bool-cases (ltb (h + q) n)) [
        | inl b ↦ omega (arith, mod-eq_of_lt a', mod-eq_of_lt (ltb→lt (h + q) n b))
        | inr b ↦ omega (
          arith,
          mod-eq_of_lt a',
          mod_wrap n (h + q) (ltb→le (h + q) n b) (omega arith),
          ltb→le (h + q) n b,
        )
      ]
  | inr a ↦
      let a' = mod_wrap n (h + p) (ltb→le (h + p) n a) (omega arith) in
      elim (Bool-cases (ltb (h + q) n)) [
        | inl b ↦ omega (arith, a', mod-eq_of_lt (ltb→lt (h + q) n b), ltb→le (h + p) n a)
        | inr b ↦ omega (
          arith,
          a',
          mod_wrap n (h + q) (ltb→le (h + q) n b) (omega arith),
          ltb→le (h + p) n a,
          ltb→le (h + q) n b,
        )
      ]
]

one_null : (s : Slot) (zs : List Slot) → nulls (s ∷ zs) ≤ nulls zs + 1
one_null none zs = omega arith
one_null (some e) zs = omega arith

module _ (capacity : ℕ) (slots : List Slot) (is : IsRing capacity slots) where
  -- The home cell of every key lies in the array.
  pub home_in : (q : ℕ) → home q capacity < length slots
  home_in q = omega (arith, home-lt q capacity is.positive is.small, is.fits)

  pub place_of : (q i : ℕ) → i < length slots → Place (home q capacity) i slots
  place_of q i lt = place (home q capacity) i slots (home_in q) lt

  module _ (i : ℕ) (s : Slot) (e : Entry) (lt : i < length slots)
      (here : get_elem? slots i ≡ some s) where
    same_slot : (q : ℕ) → (place_of q i lt).slot ≡ s
    same_slot q = cc ((place_of q i lt).here)

    -- One cell fewer may be NULL.
    pub nulls-set : nulls slots ≤ nulls (set slots i (some e)) + 1
    nulls-set = go (place_of 0 i lt)
      where
        go : Place (home 0 capacity) i slots → nulls slots ≤ nulls (set slots i (some e)) + 1
        go c = omega (
          arith,
          one_null c.slot c.after,
          ap nulls c.visits,
          ap nulls (c.writes (some e)),
          nulls-rotated (home 0 capacity) slots,
          nulls-rotated (home 0 capacity) (set slots i (some e)),
          nulls-append c.before (c.slot ∷ c.after),
          nulls-append c.before (some e ∷ c.after),
        )

    -- An entry that is replaced was no NULL.
    pub nulls-set-some : (x : Entry) → s ≡ some x → nulls (set slots i (some e)) ≡ nulls slots
    nulls-set-some x old = go (place_of 0 i lt) (same_slot 0)
      where
        go :
            (c : Place (home 0 capacity) i slots)
            → c.slot ≡ s
            → nulls (set slots i (some e)) ≡ nulls slots
        go c same = omega (
          arith,
          ap (λ y. nulls (y ∷ c.after)) (same ∙ old),
          ap nulls c.visits,
          ap nulls (c.writes (some e)),
          nulls-rotated (home 0 capacity) slots,
          nulls-rotated (home 0 capacity) (set slots i (some e)),
          nulls-append c.before (c.slot ∷ c.after),
          nulls-append c.before (some e ∷ c.after),
        )

    -- A key that the new entry does not hold is still cut off by no NULL.
    pub Reach-fresh :
        (q : ℕ)
        → holds q (some e) ≡ false
        → Reach q (rotated (home q capacity) (set slots i (some e)))
    Reach-fresh q new = go (place_of q i lt)
      where
        go :
            Place (home q capacity) i slots
            → Reach q (rotated (home q capacity) (set slots i (some e)))
        go c =
            subst (λ zs. Reach q zs) (sym (c.writes (some e)))
              (Reach-other q e c.before c.after c.slot new
                (subst (λ zs. Reach q zs) c.visits (is.reach q)))

    -- The overwritten cell did not hold `q` and does not hold it now: its search is as before.
    pub view_other :
        (q : ℕ)
        → holds q (some e) ≡ false
        → holds q s ≡ false
        → 1 ≤ nulls (set slots i (some e))
        → (view capacity (set slots i (some e)) q ≡ view capacity slots q)
          × Reach q (rotated (home q capacity) (set slots i (some e)))
    view_other q new old n = go (place_of q i lt) (same_slot q)
      where
        go :
            (c : Place (home q capacity) i slots)
            → c.slot ≡ s
            → (view capacity (set slots i (some e)) q ≡ view capacity slots q)
              × Reach q (rotated (home q capacity) (set slots i (some e)))
        go c same =
            let old' : holds q c.slot ≡ false = ap (holds q) same ∙ old in
            let r = subst (λ zs. Reach q zs) c.visits (is.reach q) in
            let n' : 1 ≤ nulls (c.before ++ some e ∷ c.after) = omega (
              arith,
              nulls-rotated (home q capacity) (set slots i (some e)),
              ap nulls (c.writes (some e)),
            ) in
            (
              ap (seek q) (c.writes (some e))
                  ∙ seek_other q e c.before c.after c.slot new old' r n'
                  ∙ ap (seek q) (sym c.visits),
              subst (λ zs. Reach q zs) (sym (c.writes (some e)))
                  (Reach-other q e c.before c.after c.slot new r),
            )
