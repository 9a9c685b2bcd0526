-- ===== src/UHashtable/Latest.antt =====
-- What the cells of a table of uhashtable.c hold under a key when the order of the cells is that of
-- the array, and how that agrees with the search.
use utk.Prelude.{
  ==→eq, ==→ne, Bool-cases, List, Option, Run, [], ap, arith, drop, if◌then◌else◌, inl, inr, none,
  ok, refl, some, sym, take, take-append-drop, ℕ, ◌++◌, ◌+◌, ◌==◌, ◌∙◌, ◌∷◌, ◌≡◌, ◌≤◌,
}
use utk.UHashtable.{Slot, home}
use utk.UHashtable.Ring.{rotated}
use utk.UHashtable.View.{
  holds, seek, nulls, count, one_if, Reach, count-append, count-rotated, nulls-rotated,
}
use utk.UHashtable.Valid.{view, IsRing}

-- What a cell puts in place of an earlier answer for the key.
abbrev pub after_slot : ℕ → Slot → Run (Option ℕ) → Run (Option ℕ)
after_slot q none r = r
after_slot q (some e) r = if holds q (some e) then ok (some e.value) else r

-- The value of the last cell that holds the key.
abbrev pub latest : ℕ → List Slot → Run (Option ℕ) → Run (Option ℕ)
latest q [] r = r
latest q (s ∷ zs) r = latest q zs (after_slot q s r)

latest_absent : (q : ℕ) (zs : List Slot) (r : Run (Option ℕ)) → count q zs ≡ 0 → latest q zs r ≡ r
latest_absent q [] r c = refl
latest_absent q (none ∷ zs) r c = latest_absent q zs r (omega arith)
latest_absent q (some e ∷ zs) r c = elim (Bool-cases (holds q (some e))) [
  | inl it ↦ absurd (omega (arith, c, ap one_if it))
  | inr other ↦ rw other (latest_absent q zs r (omega arith))
]

latest-append :
    (q : ℕ) (us vs : List Slot) (r : Run (Option ℕ))
    → latest q (us ++ vs) r ≡ latest q vs (latest q us r)
latest-append q [] vs r = refl
latest-append q (u ∷ us) vs r = latest-append q us vs (after_slot q u r)

-- With at most one cell that holds the key, the order of two parts does not matter.
latest_swap :
    (q : ℕ) (us vs : List Slot) (r : Run (Option ℕ))
    → count q us + count q vs ≤ 1
    → latest q (us ++ vs) r ≡ latest q (vs ++ us) r
latest_swap q us vs r once = elim (Bool-cases (count q us == 0)) [
  | inl it ↦
      latest-append q us vs r
      ∙ ap (latest q vs) (latest_absent q us r (==→eq (count q us) 0 it))
      ∙ sym (latest-append q vs us r ∙ latest_absent q us _ (==→eq (count q us) 0 it))
  | inr other ↦
      let ne = ==→ne (count q us) 0 other in
      let gone : count q vs ≡ 0 = omega (arith, ne) in
      latest-append q us vs r
      ∙ latest_absent q vs _ gone
      ∙ sym (latest-append q vs us r ∙ ap (latest q us) (latest_absent q vs r gone))
]

seek-latest :
    (q : ℕ) (zs : List Slot)
    → Reach q zs
    → count q zs ≤ 1
    → 1 ≤ nulls zs
    → seek q zs ≡ latest q zs (ok none)
unfolding seek
seek-latest q [] reach once free = absurd (omega arith)
seek-latest q (none ∷ zs) reach once free = sym (latest_absent q zs (ok none) reach)
seek-latest q (some e ∷ zs) reach once free = elim (Bool-cases (holds q (some e))) [
  | inl it ↦
      rw it (sym (latest_absent q zs (ok (some e.value)) (omega (arith, once, ap one_if it))))
  | inr other ↦ rw other (seek-latest q zs reach (omega arith) free)
]

-- In a valid table in which at most one cell holds the key, the search finds what the array holds.
pub view-latest :
    (capacity : ℕ) (slots : List Slot) (q : ℕ)
    → IsRing capacity slots
    → count q slots ≤ 1
    → view capacity slots q ≡ latest q slots (ok none)
view-latest capacity slots q is once =
    let h = home q capacity in
    let total = count-append q (drop h slots) (take h slots) in
    let same = count-rotated q h slots in
    seek-latest q (rotated h slots) (is.reach q) (omega (arith, same))
      (omega (arith, nulls-rotated h slots, is.free))
    ∙ latest_swap q (drop h slots) (take h slots) (ok none) (omega (arith, total, same))
    ∙ ap (λ zs. latest q zs (ok none)) (take-append-drop h slots)
