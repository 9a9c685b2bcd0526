-- ===== src/UHashtable/Ring.antt =====
-- The order in which the probing loops of uhashtable.c visit the array: from the home cell to the
-- end, then from the start up to the home cell.
use utk.Prelude.{
  Bool-cases, List, ap, append_assoc, ap₂, arith, drop, drop-append, get_elem?, get_elem?-append,
  inl, inr, length, length-append, ltb, ltb→le, ltb→lt, refl, set, set-append, some, split_at,
  split_elem, subst, subst₂, suc, sym, take, take-append, ℕ, ◌%◌, ◌++◌, ◌+◌, ◌-◌, ◌<◌, ◌∙◌, ◌∷◌,
  ◌≡◌, ◌≤◌,
}
use utk.UHashtable.{Slot}
use native.Mathlib.Nat.{mod-eq_of_lt, mod-eq-sub-mod}

abbrev pub rotated : ℕ → List Slot → List Slot
rotated h slots = drop h slots ++ take h slots

pub mod_wrap : (n i : ℕ) → n ≤ i → i < n + n → i % n ≡ i - n
mod_wrap n i p q = mod-eq-sub-mod p ∙ mod-eq_of_lt (omega arith)

-- The cell `i` of the array in the visiting order from `h`: what stands before it and after it
-- there, also when the cell is overwritten.
pub record Place (h i : ℕ) (slots : List Slot) : Type 0 where
  pub before : List Slot
  pub slot : Slot
  pub after : List Slot
  pub here : get_elem? slots i ≡ some slot
  pub visits : rotated h slots ≡ before ++ slot ∷ after
  pub writes : (x : Slot) → rotated h (set slots i x) ≡ before ++ x ∷ after
  pub index : (h + length before) % length slots ≡ i

-- A cell at or behind the home cell.
place_behind :
    (us vs ws : List Slot) (s : Slot)
    → Place (length us) (length us + length vs) (us ++ (vs ++ s ∷ ws))
place_behind us vs ws s =
    let cut = λ (x : Slot). drop-append us (vs ++ x ∷ ws) (length us) refl in
    let front = λ (x : Slot). take-append us (vs ++ x ∷ ws) (length us) refl in
    let i = length us + length vs in
    let at : i ≡ length (us ++ vs) = sym (length-append us vs) in
    let whole = λ (x : Slot). append_assoc us vs (x ∷ ws) in
    let put = λ (x : Slot).
      ap (λ t. set t i x) (sym (whole s)) ∙ set-append (us ++ vs) ws s x i at ∙ whole x in
    let order = λ (x : Slot). ap₂ (λ p q. p ++ q) (cut x) (front x) ∙ append_assoc vs (x ∷ ws) us in
    record {
      before = vs;
      slot = s;
      after = ws ++ us;
      here = ap (λ t. get_elem? t i) (sym (whole s)) ∙ get_elem?-append (us ++ vs) ws s i at;
      visits = order s;
      writes = λ x. ap (rotated (length us)) (put x) ∙ order x;
      index =
          mod-eq_of_lt (omega (arith, length-append us (vs ++ s ∷ ws), length-append vs (s ∷ ws)));
    }

-- A cell in front of the home cell.
place_before :
    (us vs ws : List Slot) (s : Slot)
    → 0 < length ws
    → Place (length (us ++ s ∷ vs)) (length us) ((us ++ s ∷ vs) ++ ws)
place_before us vs ws s some_left =
    let i = length us in
    let h = length (us ++ s ∷ vs) in
    let lengths : h ≡ length us + suc (length vs) = length-append us (s ∷ vs) in
    let same = λ (x : Slot). length-append us (x ∷ vs) ∙ sym lengths in
    let whole = λ (x : Slot). append_assoc us (x ∷ vs) ws in
    let put = λ (x : Slot).
      ap (λ t. set t i x) (whole s) ∙ set-append us (vs ++ ws) s x i refl ∙ sym (whole x) in
    let order = λ (x : Slot).
      ap₂ (λ p q. p ++ q) (drop-append (us ++ x ∷ vs) ws h (sym (same x)))
        (take-append (us ++ x ∷ vs) ws h (sym (same x)))
      ∙ sym (append_assoc ws us (x ∷ vs)) in
    let total : length ((us ++ s ∷ vs) ++ ws) ≡ h + length ws = length-append (us ++ s ∷ vs) ws in
    record {
      before = ws ++ us;
      slot = s;
      after = vs;
      here = ap (λ t. get_elem? t i) (whole s) ∙ get_elem?-append us (vs ++ ws) s i refl;
      visits = order s;
      writes = λ x. ap (rotated h) (put x) ∙ order x;
      index =
          mod_wrap (length ((us ++ s ∷ vs) ++ ws)) (h + length (ws ++ us))
            (omega (arith, length-append ws us)) (omega (arith, length-append ws us))
          ∙ omega (arith, length-append ws us);
    }

pub place : (h i : ℕ) (slots : List Slot) → h < length slots → i < length slots → Place h i slots
place h i slots ph pi = elim (Bool-cases (ltb i h)) [
  | inr behind ↦
      let hi : h ≤ i = ltb→le i h behind in
      let (us, rest, e, l) = split_at h slots (omega arith) in
      let more : i - h < length rest = omega (arith, ap length e, length-append us rest) in
      let (vs, s, ws, e', l') = split_elem rest (i - h) more in
      subst (λ t. Place h i t) (sym (e ∙ ap (λ t. us ++ t) e'))
        (subst₂ (λ a b. Place a b (us ++ (vs ++ s ∷ ws))) l (omega arith) (place_behind us vs ws s))
  | inl ahead ↦
      let lt : i < h = ltb→lt i h ahead in
      let (front, ws, e, l) = split_at h slots (omega arith) in
      let (us, s, vs, e', l') = split_elem front i (omega arith) in
      let left : 0 < length ws = omega (arith, ap length e, length-append front ws) in
      subst (λ t. Place h i t) (sym (e ∙ ap (λ t. t ++ ws) e'))
        (subst₂ (λ a b. Place a b ((us ++ s ∷ vs) ++ ws)) (sym (ap length e') ∙ l) l'
          (place_before us vs ws s left))
]
