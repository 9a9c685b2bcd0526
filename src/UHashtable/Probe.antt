-- ===== src/UHashtable/Probe.antt =====
-- The probing loop of uhashtable.c finds the first cell, in visiting order, at which it may stop.
use Prim.Native.Nat.{bit_and, bit_and-bitwise, digits}
use utk.Prelude.{
  Bool, Bool-cases, List, Option, Run, [], ap, append-nil, append_assoc, arith, drop, endless,
  false, get_elem?, get_elem?-append, if◌then◌else◌, inl, inr, length, length-append, length-drop,
  length-take, min, none, ok, refl, some, subst, suc, sym, take, take-append-drop, true, zero, ℕ,
  ◌%◌, ◌++◌, ◌+◌, ◌-◌, ◌/◌, ◌<◌, ◌∙◌, ◌∷◌, ◌≡◌, ◌≤◌,
}
use utk.UHashtable.{Slot, home, uhash_64, word_mod, probe}
use utk.UHashtable.Ring.{rotated, mod_wrap}
use native.Mathlib.Nat.{mod-eq_of_lt}

digits-le : (n a b : ℕ) → digits (λ b. zero) min n a b ≤ b
digits-le zero zero b = omega arith
digits-le zero (suc a) b = omega arith
digits-le (suc n) zero b = omega arith
digits-le (suc n) (suc a) b = omega (arith, digits-le n (suc a / 2) (b / 2))

bit_and-le : (a b : ℕ) → bit_and a b ≤ b
bit_and-le a b = rw (bit_and-bitwise a b) (digits-le a a b)

-- The home cell lies in the array, for every capacity but 0.
pub home-lt : (key capacity : ℕ) → 0 < capacity → capacity < word_mod → home key capacity < capacity
unfolding home
home-lt key capacity p q =
    omega (arith, bit_and-le (uhash_64 key) ((capacity + word_mod - 1) % word_mod))

-- The first cell of a list at which a loop stops, with its position.
abbrev pub later : Option (ℕ × Slot) → Option (ℕ × Slot)
later none = none
later (some (p, s)) = some (suc p, s)

unfoldable pub first : (Slot → Bool) → List Slot → Option (ℕ × Slot)
first stop [] = none
first stop (s ∷ zs) = if stop s then some (0, s) else later (first stop zs)

-- The outcome of a loop that starts at index `i` and goes on with `r` if nothing stops it.
abbrev pub resume : ℕ → Option (ℕ × Slot) → Run (ℕ × Slot) → Run (ℕ × Slot)
resume i none r = r
resume i (some (p, s)) r = ok (i + p, s)

resume-later :
    (i : ℕ) (o : Option (ℕ × Slot)) (r : Run (ℕ × Slot)) → resume (i + 1) o r ≡ resume i (later o) r
resume-later i none r = refl
resume-later i (some (p, s)) r = ap (λ n. ok (n, s)) (omega arith)

module _ (stop : Slot → Bool) (slots : List Slot) where
  step :
      (v : Slot) (left i : ℕ)
      → get_elem? slots i ≡ some v
      → probe stop (suc left) (length slots) i slots ≡ (
          if stop v
          then ok (i, v)
          else probe stop left (length slots) ((i + 1) % length slots) slots)
  unfolding probe
  step v left i e = rw (e, probe)

  found :
      (us : List Slot) (v : Slot) (ws : List Slot) (i : ℕ)
      → slots ≡ us ++ (v ∷ ws)
      → i ≡ length us
      → get_elem? slots i ≡ some v
  found us v ws i e at = ap (λ t. get_elem? t i) e ∙ get_elem?-append us ws v i at

  -- The rounds from index `i` over the cells `vs`, and what is left behind them.
  abbrev Walks : ℕ → ℕ → List Slot → Type 0
  Walks left i vs =
      probe stop (length vs + left) (length slots) i slots
      ≡ resume i (first stop vs)
          (probe stop left (length slots) ((i + length vs) % length slots) slots)

  walk_on :
      (left i : ℕ) (vs ws us : List Slot) (v : Slot)
      → slots ≡ us ++ (v ∷ vs ++ ws)
      → i ≡ length us
      → i < length slots
      → (i + 1 < length slots → Walks left (i + 1) vs)
      → probe stop (length vs + left) (length slots) ((i + 1) % length slots) slots
        ≡ resume
            (i + 1)
            (first stop vs)
            (probe stop left (length slots) ((i + suc (length vs)) % length slots) slots)
  unfolding first
  walk_on left i [] ws us v e at lt rec =
      ap (λ n. probe stop n (length slots) ((i + 1) % length slots) slots) (omega arith)
      ∙ ap (λ n. probe stop left (length slots) (n % length slots) slots) (omega arith)
  walk_on left i (w ∷ vs) ws us v e at lt rec =
      let inside : i + 1 < length slots =
        omega (arith, ap length e, length-append us (v ∷ w ∷ vs ++ ws)) in
      ap (λ n. probe stop (length (w ∷ vs) + left) (length slots) n slots) (mod-eq_of_lt inside)
      ∙ rec inside
      ∙ ap
          (λ n.
            resume (i + 1) (first stop (w ∷ vs))
              (probe stop left (length slots) (n % length slots) slots))
          (omega arith)

  -- Nothing is looked at twice: the index is taken modulo the capacity only at the array's end.
  pub walk :
      (us vs ws : List Slot) (left i : ℕ)
      → slots ≡ us ++ (vs ++ ws)
      → i ≡ length us
      → i < length slots
      → Walks left i vs
  unfolding first
  walk us [] ws left i e at lt =
      ap (λ n. probe stop n (length slots) i slots) (omega arith)
      ∙ ap (λ n. probe stop left (length slots) n slots)
          (sym (ap (λ n. n % length slots) (omega arith) ∙ mod-eq_of_lt lt))
  walk us (v ∷ vs) ws left i e at lt =
      let rec =
        walk (us ++ v ∷ []) vs ws left (i + 1) (e ∙ sym (append_assoc us (v ∷ []) (vs ++ ws)))
          (omega (arith, length-append us (v ∷ []))) in
      ap (λ n. probe stop n (length slots) i slots) (omega arith)
      ∙ step v (length vs + left) i (found us v (vs ++ ws) i e at)
      ∙ elim (Bool-cases (stop v)) [
        | inl ends ↦ rw ends (ap (λ n. ok (n, v)) (omega arith))
        | inr on ↦ rw on (walk_on left i vs ws us v e at lt rec ∙ resume-later i (first stop vs) _)
      ]

-- The position in a list behind `n` cells that do not stop the loop.
abbrev behind : ℕ → Option (ℕ × Slot) → Option (ℕ × Slot)
behind n none = none
behind n (some (p, s)) = some (n + p, s)

abbrev either : Option (ℕ × Slot) → Option (ℕ × Slot) → Option (ℕ × Slot)
either none o = o
either (some r) o = some r

later-either :
    (n : ℕ) (o r : Option (ℕ × Slot))
    → later (either o (behind n r)) ≡ either (later o) (behind (suc n) r)
later-either n none none = refl
later-either n none (some (p, s)) = ap (λ k. some (k, s)) (omega arith)
later-either n (some r) o = refl

module _ (stop : Slot → Bool) where
  first-append :
      (us vs : List Slot)
      → first stop (us ++ vs) ≡ either (first stop us) (behind (length us) (first stop vs))
  unfolding first
  first-append [] vs = zero_behind (first stop vs)
    where
      zero_behind : (o : Option (ℕ × Slot)) → o ≡ behind 0 o
      zero_behind none = refl
      zero_behind (some (p, s)) = ap (λ n. some (n, s)) (omega arith)
  first-append (u ∷ us) vs = elim (Bool-cases (stop u)) [
    | inl ends ↦ rw ends
    | inr on ↦
        rw on
          (ap later (first-append us vs) ∙ later-either (length us) (first stop us) (first stop vs))
  ]

  -- The list around the cell that `first` gives: no cell in front of it stops the loop.
  pub data Stops : List Slot → ℕ × Slot → Type 0 where
    now : {s : Slot} {zs : List Slot} → stop s ≡ true → Stops (s ∷ zs) (0, s)
    next :
        {z s : Slot} {zs : List Slot} {p : ℕ}
        → stop z ≡ false
        → Stops zs (p, s)
        → Stops (z ∷ zs) (suc p, s)

  pub first-Stops : (zs : List Slot) (r : ℕ × Slot) → first stop zs ≡ some r → Stops zs r
  unfolding first
  first-Stops [] r e = cc
  first-Stops (z ∷ zs) r e = elim (Bool-cases (stop z)) [
    | inl ends ↦ subst (λ q. Stops (z ∷ zs) q) (cc (rw ends at e)) (now ends)
    | inr on ↦ go (first stop zs) (first-Stops zs) refl (rw on at e) on
  ]
    where
      go :
          (o : Option (ℕ × Slot))
          → ((q : ℕ × Slot) → first stop zs ≡ some q → Stops zs q)
          → first stop zs ≡ o
          → later o ≡ some r
          → stop z ≡ false
          → Stops (z ∷ zs) r
      go none rest e' l on = cc
      go (some (p, s)) rest e' l on =
          subst (λ q. Stops (z ∷ zs) q) (cc l) (next on (rest (p, s) e'))

  pub Stops-lt : {zs : List Slot} {r : ℕ × Slot} → Stops zs r → r.0 < length zs
  Stops-lt (now e) = omega arith
  Stops-lt (next e s) = omega (arith, Stops-lt s)

out_of_rounds :
    (stop : Slot → Bool) (n i : ℕ) (slots : List Slot) → probe stop 0 n i slots ≡ endless
unfolding probe
out_of_rounds stop n i slots = refl

-- Where a loop from home `h` over an array of `n` cells ends.
abbrev pub turn : ℕ → ℕ → Option (ℕ × Slot) → Run (ℕ × Slot)
turn n h none = endless
turn n h (some (p, s)) = ok ((h + p) % n, s)

-- With the whole array for its rounds, the loop ends at the first cell in visiting order that stops
-- it, and it never ends if there is none.
pub probe-first :
    (stop : Slot → Bool) (slots : List Slot) (h : ℕ)
    → h < length slots
    → probe stop (length slots) (length slots) h slots
      ≡ turn (length slots) h (first stop (rotated h slots))
probe-first stop slots h lt =
    let n = length slots in
    let back = drop h slots in
    let front = take h slots in
    let l : n ≡ length back + h = omega (arith, length-drop h slots) in
    let l' : length front ≡ h = omega (arith, length-take h slots) in
    let whole : slots ≡ front ++ (back ++ []) =
      sym (take-append-drop h slots) ∙ ap (λ t. front ++ t) (sym (append-nil back)) in
    let start : (h + length back) % n ≡ 0 =
      mod_wrap n (h + length back) (omega arith) (omega arith) ∙ omega arith in
    let second : probe stop h n 0 slots ≡ resume 0 (first stop front) endless =
      ap (λ k. probe stop k n 0 slots) (omega arith)
      ∙ walk stop slots [] front back 0 0 (sym (take-append-drop h slots)) refl (omega arith)
      ∙ ap (resume 0 (first stop front)) (out_of_rounds stop n _ slots) in
    ap (λ k. probe stop k n h slots) l
    ∙ walk stop slots front back [] h h whole (sym l') lt
    ∙ ap (λ k. resume h (first stop back) (probe stop h n k slots)) start
    ∙ ap (resume h (first stop back)) second
    ∙ joined (first stop back) refl (first stop front) refl l l'
    ∙ ap (turn n h) (sym (first-append stop back front))
  where
    joined :
        (o : Option (ℕ × Slot))
        → first stop (drop h slots) ≡ o
        → (o' : Option (ℕ × Slot)) → first stop (take h slots) ≡ o'
        → length slots ≡ length (drop h slots) + h
        → length (take h slots) ≡ h
        → resume h o (resume 0 o' endless)
          ≡ turn (length slots) h (either o (behind (length (drop h slots)) o'))
    joined none e none e' l l' = refl
    joined none e (some (p, s)) e' l l' =
        let q : p < length (take h slots) =
          Stops-lt stop (first-Stops stop (take h slots) (p, s) e') in
        ap (λ k. ok (k, s))
          (sym (
            mod_wrap (length slots) (h + (length (drop h slots) + p)) (omega arith) (omega arith)
            ∙ omega arith))
    joined (some (p, s)) e o' e' l l' =
        let q : p < length (drop h slots) =
          Stops-lt stop (first-Stops stop (drop h slots) (p, s) e) in
        ap (λ k. ok (k, s)) (sym (mod-eq_of_lt (omega arith)))
