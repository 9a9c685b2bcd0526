-- ===== src/UHashtable/Landing.antt =====
-- In a valid table of uhashtable.c every probing loop that may stop at NULL ends, at a cell in front
-- of which, in visiting order, nothing stops it.
use native.Mathlib.Nat.{mod-lt}
use utk.Prelude.{
  Bool, Bool-cases, List, Returns, [], ap, arith, drop, false, get_elem?, inl, inr, length,
  length-append, none, returns, some, subst, suc, sym, take, take-append-drop, true, ℕ, ◌%◌, ◌++◌,
  ◌+◌, ◌<◌, ◌∙◌, ◌∷◌, ◌≡◌, ◌≤◌,
}
use utk.UHashtable.{Slot, home, probe, set_stop, get_stop}
use utk.UHashtable.Ring.{rotated, Place}
use utk.UHashtable.Probe.{first, turn, probe-first, Stops, now, next, first-Stops, Stops-lt}
use utk.UHashtable.View.{nulls, Clear, Skips, nulls-rotated}
use utk.UHashtable.Valid.{IsRing, mod_injective, home_in, place_of}

abbrev pub Passes : (Slot → Bool) → List Slot → Type 0
Passes stop [] = Unit {0}
Passes stop (s ∷ zs) = (stop s ≡ false) × Passes stop zs

module _ (stop : Slot → Bool) where
  Stops-Passes :
      (us vs zs : List Slot) (s' : Slot) (r : ℕ × Slot)
      → Stops stop zs r
      → zs ≡ us ++ s' ∷ vs
      → length us ≡ r.0
      → (s' ≡ r.1) × Passes stop us × (stop r.1 ≡ true)
  Stops-Passes [] vs zs s' r (now ends) e l = (cc, tt, ends)
  Stops-Passes [] vs zs s' r (next on more) e l = absurd (omega arith)
  Stops-Passes (u ∷ us) vs zs s' r (now ends) e l = absurd (omega arith)
  Stops-Passes (u ∷ us) vs zs s' r (next {zs = rest} {p} on more) e l =
      let tails : rest ≡ us ++ s' ∷ vs = cc in
      let (same, passes, ends) = Stops-Passes us vs rest s' _ more tails (omega arith) in
      (same, (ground arith, passes), ends)

  first_total :
      (zs : List Slot) → stop none ≡ true → 1 ≤ nulls zs → (r : ℕ × Slot) × (first stop zs ≡ some r)
  unfolding first
  first_total [] st n = absurd (omega arith)
  first_total (none ∷ zs) st n = ((0, none), rw st)
  first_total (some x ∷ zs) st n = elim (Bool-cases (stop (some x))) [
    | inl ends ↦ ((0, some x), rw ends)
    | inr on ↦ let (r, e) = first_total zs st n in ((suc r.0, r.1), rw (on, e))
  ]

  -- Where a loop of a key has stopped.
  pub record Landing (capacity : ℕ) (slots : List Slot) (k : ℕ) (r : ℕ × Slot) : Type 0 where
    pub inside : r.0 < length slots
    pub here : get_elem? slots r.0 ≡ some r.1
    pub ends : stop r.1 ≡ true
    pub place : Place (home k capacity) r.0 slots
    pub passes : Passes stop place.before

  -- The visiting order around the cell where the loop stopped.
  pub Landing-visits :
      {capacity : ℕ} {slots : List Slot} {k : ℕ} {r : ℕ × Slot} (l : Landing capacity slots k r)
      → rotated (home k capacity) slots ≡ l.place.before ++ r.1 ∷ l.place.after
  Landing-visits {r} l =
      l.place.visits ∙ ap (λ s. l.place.before ++ s ∷ l.place.after) (cc (l.place.here, l.here))

  module _ (capacity : ℕ) (slots : List Slot) (is : IsRing capacity slots) (k : ℕ) where
    landed :
        (p : ℕ) (s : Slot)
        → first stop (rotated (home k capacity) slots) ≡ some (p, s)
        → Landing capacity slots k ((home k capacity + p) % length slots, s)
    landed p s e = go (place_of capacity slots is k i lt)
      where
        i : ℕ
        i = (home k capacity + p) % length slots

        lt : (home k capacity + p) % length slots < length slots
        lt = mod-lt (home k capacity + p) (omega (arith, is.positive, is.fits))

        stops : Stops stop (rotated (home k capacity) slots) (p, s)
        stops = first-Stops stop (rotated (home k capacity) slots) (p, s) e

        total : length (rotated (home k capacity) slots) ≡ length slots
        total = omega (
          arith,
          length-append (drop (home k capacity) slots) (take (home k capacity) slots),
          length-append (take (home k capacity) slots) (drop (home k capacity) slots),
          ap length (take-append-drop (home k capacity) slots),
        )

        go : Place (home k capacity) i slots → Landing capacity slots k (i, s)
        go c =
            let l : length c.before < length slots =
              omega (arith, total, ap length c.visits, length-append c.before (c.slot ∷ c.after)) in
            let same : length c.before ≡ p =
              mod_injective (length slots) (home k capacity) (length c.before) p
                (home_in capacity slots is k) l (omega (arith, Stops-lt stop stops, total))
                c.index in
            let (slot, passes, ends) =
              Stops-Passes c.before c.after (rotated (home k capacity) slots) c.slot (p, s) stops
                c.visits same in
            record {
              inside = lt;
              here = c.here ∙ ap some slot;
              ends = ends;
              place = c;
              passes = passes;
            }

    pub probe-Landing :
        stop none ≡ true
        → Returns (Landing capacity slots k) (probe stop capacity capacity (home k capacity) slots)
    probe-Landing st =
        let free : 1 ≤ nulls (rotated (home k capacity) slots) =
          omega (arith, nulls-rotated (home k capacity) slots, is.free) in
        let (r, e) = first_total (rotated (home k capacity) slots) st free in
        subst (λ t. Returns (Landing capacity slots k) t)
          (sym (
            ap (λ n. probe stop n n (home k capacity) slots) (sym is.fits)
            ∙ probe-first stop slots (home k capacity) (home_in capacity slots is k)
            ∙ ap (turn (length slots) (home k capacity)) e))
          (returns (landed r.0 r.1 e))

pub Clear-of_Passes : (k : ℕ) (zs : List Slot) → Passes (set_stop k) zs → Clear k zs
Clear-of_Passes k [] p = tt
Clear-of_Passes k (none ∷ zs) p = cc (p.0)
Clear-of_Passes k (some e ∷ zs) p = (ground arith, ground arith, Clear-of_Passes k zs p.1)

pub Skips-of_Passes : (k : ℕ) (zs : List Slot) → Passes (get_stop k) zs → Skips k zs
Skips-of_Passes k [] p = tt
Skips-of_Passes k (none ∷ zs) p = cc (p.0)
Skips-of_Passes k (some e ∷ zs) p = (p.0, Skips-of_Passes k zs p.1)
