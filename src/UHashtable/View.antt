-- ===== src/UHashtable/View.antt =====
-- What a table of uhashtable.c stands for: the outcome of a search for each key along the cells in
-- its visiting order, and what one overwritten cell changes in it.
use utk.Prelude.{
  Bool, Bool-cases, List, Option, Run, [], ap, arith, drop, endless, false, if◌then◌else◌, inl, inr,
  none, ok, refl, some, suc, take, take-append-drop, true, ℕ, ◌&&◌, ◌++◌, ◌+◌, ◌==◌, ◌∷◌, ◌≡◌, ◌≤◌,
}
use utk.UHashtable.{Entry, Slot}
use utk.UHashtable.Ring.{rotated}

-- A cell holds a key if its entry is in use under it.
abbrev pub holds : ℕ → Slot → Bool
holds q none = false
holds q (some e) = e.key == q && e.is_used

-- The search for a key: the value of the first cell that holds it, none at NULL.
unfoldable pub seek : ℕ → List Slot → Run (Option ℕ)
seek q [] = endless
seek q (none ∷ zs) = ok none
seek q (some e ∷ zs) = if holds q (some e) then ok (some e.value) else seek q zs

abbrev pub nulls : List Slot → ℕ
nulls [] = 0
nulls (none ∷ zs) = suc (nulls zs)
nulls (some _ ∷ zs) = nulls zs

abbrev pub one_if : Bool → ℕ
one_if b = if b then 1 else 0

-- How many cells hold a key.
abbrev pub count : ℕ → List Slot → ℕ
count q [] = 0
count q (s ∷ zs) = one_if (holds q s) + count q zs

-- No cell behind a NULL holds the key.
abbrev pub Reach : ℕ → List Slot → Type 0
Reach q [] = Unit {0}
Reach q (none ∷ zs) = count q zs ≡ 0
Reach q (some _ ∷ zs) = Reach q zs

-- Every cell is in use under another key.
abbrev pub Clear : ℕ → List Slot → Type 0
Clear k [] = Unit {0}
Clear k (none ∷ zs) = ⊥
Clear k (some e ∷ zs) = (e.is_used ≡ true) × ((e.key == k) ≡ false) × Clear k zs

-- No cell is NULL, and none holds the key.
abbrev pub Skips : ℕ → List Slot → Type 0
Skips k [] = Unit {0}
Skips k (none ∷ zs) = ⊥
Skips k (some e ∷ zs) = (holds k (some e) ≡ false) × Skips k zs

pub nulls-append : (us vs : List Slot) → nulls (us ++ vs) ≡ nulls us + nulls vs
nulls-append [] vs = omega arith
nulls-append (none ∷ us) vs = omega (arith, nulls-append us vs)
nulls-append (some e ∷ us) vs = nulls-append us vs

pub count-append : (q : ℕ) (us vs : List Slot) → count q (us ++ vs) ≡ count q us + count q vs
count-append q [] vs = omega arith
count-append q (u ∷ us) vs = omega (arith, count-append q us vs)

pub nulls-rotated : (h : ℕ) (slots : List Slot) → nulls (rotated h slots) ≡ nulls slots
nulls-rotated h slots = omega (
  arith,
  nulls-append (drop h slots) (take h slots),
  nulls-append (take h slots) (drop h slots),
  ap nulls (take-append-drop h slots),
)

pub count-rotated : (q h : ℕ) (slots : List Slot) → count q (rotated h slots) ≡ count q slots
count-rotated q h slots = omega (
  arith,
  count-append q (drop h slots) (take h slots),
  count-append q (take h slots) (drop h slots),
  ap (count q) (take-append-drop h slots),
)

pub Reach-of_absent : (q : ℕ) (zs : List Slot) → count q zs ≡ 0 → Reach q zs
Reach-of_absent q [] e = tt
Reach-of_absent q (none ∷ zs) e = omega arith
Reach-of_absent q (some x ∷ zs) e = Reach-of_absent q zs (omega arith)

pub seek_absent : (q : ℕ) (zs : List Slot) → count q zs ≡ 0 → 1 ≤ nulls zs → seek q zs ≡ ok none
unfolding seek
seek_absent q [] e n = absurd (omega arith)
seek_absent q (none ∷ zs) e n = refl
seek_absent q (some x ∷ zs) e n = ground (arith, seek_absent q zs)

-- A search over a table with a NULL ends.
pub seek_total : (q : ℕ) (zs : List Slot) → 1 ≤ nulls zs → (o : Option ℕ) × (seek q zs ≡ ok o)
unfolding seek
seek_total q [] n = absurd (omega arith)
seek_total q (none ∷ zs) n = (none, refl)
seek_total q (some x ∷ zs) n = elim (Bool-cases (holds q (some x))) [
  | inl yes_it ↦ (some x.value, rw yes_it)
  | inr other ↦ let (o, e) = seek_total q zs n in (o, rw other e)
]

-- A search with every cell in use under another key, or in the graveyard, never ends.
pub seek_endless : (q : ℕ) (zs : List Slot) → Skips q zs → seek q zs ≡ endless
unfolding seek
seek_endless q [] s = refl
seek_endless q (none ∷ zs) s = absurd s
seek_endless q (some x ∷ zs) s = rw (s.0) (seek_endless q zs s.1)

pub seek-Skips : (q : ℕ) (us zs : List Slot) → Skips q us → seek q (us ++ zs) ≡ seek q zs
unfolding seek
seek-Skips q [] zs s = refl
seek-Skips q (none ∷ us) zs s = absurd s
seek-Skips q (some x ∷ us) zs s = rw (s.0) (seek-Skips q us zs s.1)

pub seek_null : (q : ℕ) (zs : List Slot) → seek q (none ∷ zs) ≡ ok none
unfolding seek
seek_null q zs = refl

pub seek_now :
    (q : ℕ) (e : Entry) (zs : List Slot)
    → holds q (some e) ≡ true
    → seek q (some e ∷ zs) ≡ ok (some e.value)
unfolding seek
seek_now q e zs h = rw h

module _ (q : ℕ) (e : Entry) where
  -- A cell that does not hold the key, before and after, changes nothing of the search.
  pub seek_other :
      (us vs : List Slot) (s : Slot)
      → holds q (some e) ≡ false
      → holds q s ≡ false
      → Reach q (us ++ s ∷ vs)
      → 1 ≤ nulls (us ++ some e ∷ vs)
      → seek q (us ++ some e ∷ vs) ≡ seek q (us ++ s ∷ vs)
  unfolding seek
  seek_other [] vs none new old r n = rw new (seek_absent q vs r n)
  seek_other [] vs (some x) new old r n = rw (new, old)
  seek_other (none ∷ us) vs s new old r n = refl
  seek_other (some x ∷ us) vs s new old r n =
      ap (λ t. if holds q (some x) then ok (some x.value) else t) (seek_other us vs s new old r n)

  count_other :
      (us vs : List Slot) (s : Slot)
      → holds q (some e) ≡ false
      → count q (us ++ s ∷ vs) ≡ 0
      → count q (us ++ some e ∷ vs) ≡ 0
  count_other us vs s new c =
      let there : one_if (holds q (some e)) ≡ 0 = ap one_if new in
      omega (arith, there, count-append q us (s ∷ vs), count-append q us (some e ∷ vs))

  pub Reach-other :
      (us vs : List Slot) (s : Slot)
      → holds q (some e) ≡ false
      → Reach q (us ++ s ∷ vs)
      → Reach q (us ++ some e ∷ vs)
  Reach-other [] vs none new r = Reach-of_absent q vs r
  Reach-other [] vs (some x) new r = r
  Reach-other (none ∷ us) vs s new r = count_other us vs s new r
  Reach-other (some x ∷ us) vs s new r = Reach-other us vs s new r

  -- The cell at which uhashtable_set_entry stops is found again under its key.
  pub seek_own :
      (us vs : List Slot)
      → Clear q us
      → holds q (some e) ≡ true
      → seek q (us ++ some e ∷ vs) ≡ ok (some e.value)
  unfolding seek
  seek_own [] vs c new = rw new
  seek_own (none ∷ us) vs c new = absurd c
  seek_own (some x ∷ us) vs c new = rw (c.1) (seek_own us vs c.2 new)

  pub Reach-own :
      (us vs : List Slot) (s : Slot)
      → Clear q us
      → Reach q (us ++ s ∷ vs)
      → Reach q (us ++ some e ∷ vs)
  Reach-own [] vs none c r = Reach-of_absent q vs r
  Reach-own [] vs (some x) c r = r
  Reach-own (none ∷ us) vs s c r = absurd c
  Reach-own (some x ∷ us) vs s c r = Reach-own us vs s c.2 r
