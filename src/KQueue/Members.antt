-- ===== src/KQueue/Members.antt =====
-- The addresses of a list: which it contains, and that none occurs twice.
use utk.Prelude.{
  ==_refl, ==→eq, Bool, Bool-cases, List, [], ap, arith, false, inl, inr, refl, subst, sym, true, ℕ,
  ◌++◌, ◌==◌, ◌||◌, ◌∷◌, ◌≡◌, ◌≢◌, ◌⊎◌,
}

abbrev pub mem : ℕ → List ℕ → Bool
mem a [] = false
mem a (x ∷ xs) = (a == x) || mem a xs

-- No address occurs twice.
abbrev pub Distinct : List ℕ → Type 0
Distinct [] = Unit {0}
Distinct (x ∷ xs) = (mem x xs ≡ false) × Distinct xs

pub mem-append : (a : ℕ) (us vs : List ℕ) → mem a (us ++ vs) ≡ (mem a us || mem a vs)
mem-append a [] vs = refl
mem-append a (u ∷ us) vs = ground (arith, mem-append a us vs)

pub mem-append_false :
    (a : ℕ) (us vs : List ℕ) → mem a (us ++ vs) ≡ false → (mem a us ≡ false) × (mem a vs ≡ false)
mem-append_false a us vs e = ground (arith, mem-append a us vs)

pub mem_head : (x : ℕ) (xs : List ℕ) → mem x (x ∷ xs) ≡ true
mem_head x xs = rw (==_refl x)

pub mem_tail : (a x : ℕ) (xs : List ℕ) → mem a xs ≡ true → mem a (x ∷ xs) ≡ true
mem_tail a x xs m = ground arith

pub mem_ne : (a x : ℕ) (xs : List ℕ) → mem a (x ∷ xs) ≡ false → (a ≢ x) × (mem a xs ≡ false)
mem_ne a x xs m = (ground arith, ground arith)

-- An address outside a list differs from each inside it.
pub ne_of_mem : (a b : ℕ) (xs : List ℕ) → mem a xs ≡ false → mem b xs ≡ true → b ≢ a
ne_of_mem a b xs m m' e = cc (ap (λ c. mem c xs) e)

after_head :
    (a u : ℕ) (us vs : List ℕ)
    → mem a (u ∷ us) ≡ true
    → mem u vs ≡ false
    → (mem a us ≡ true → mem a vs ≡ false)
    → mem a vs ≡ false
after_head a u us vs m out rest = elim (Bool-cases (a == u)) [
  | inl it ↦ subst (λ c. mem c vs ≡ false) (sym (==→eq a u it)) out
  | inr other ↦ rest (ground arith)
]

pub Distinct-append :
    (us vs : List ℕ)
    → Distinct (us ++ vs)
    → Distinct us × Distinct vs × ((a : ℕ) → mem a us ≡ true → mem a vs ≡ false)
Distinct-append [] vs d = (tt, d, λ a m. cc m)
Distinct-append (u ∷ us) vs (out, d) =
    let (front, back, apart) = Distinct-append us vs d in
    let (o1, o2) = mem-append_false u us vs out in
    ((o1, front), back, λ a m. after_head a u us vs m o2 (apart a))

pub mem_of_inner : (x : ℕ) (us vs : List ℕ) → mem x (us ++ x ∷ vs) ≡ true
mem_of_inner x [] vs = mem_head x vs
mem_of_inner x (u ∷ us) vs = mem_tail x u (us ++ x ∷ vs) (mem_of_inner x us vs)

-- A list that is not empty, from its end.
pub snoc-cases : (xs : List ℕ) → (xs ≡ []) ⊎ ((us : List ℕ) × (m : ℕ) × (xs ≡ us ++ m ∷ []))
snoc-cases [] = inl refl
snoc-cases (x ∷ xs) = elim (snoc-cases xs) [
  | inl e ↦ inr ([], x, ap (◌∷◌ x) e)
  | inr (us, m, e) ↦ inr (x ∷ us, m, ap (◌∷◌ x) e)
]

pub Distinct-join :
    (us vs : List ℕ)
    → Distinct us
    → Distinct vs
    → ((a : ℕ) → mem a us ≡ true → mem a vs ≡ false)
    → Distinct (us ++ vs)
Distinct-join [] vs d e apart = e
Distinct-join (u ∷ us) vs (out, d) e apart = (
  rw (mem-append u us vs, out) (apart u (mem_head u us)),
  Distinct-join us vs d e (λ a m. apart a (mem_tail a u us m)),
)

-- What the distinctness of a list says of an element in it and of the parts around it.
pub record Around (us : List ℕ) (x : ℕ) (vs : List ℕ) : Type 0 where
  pub front : Distinct us
  pub back : Distinct vs
  pub apart : (a : ℕ) → mem a us ≡ true → mem a vs ≡ false
  pub out_front : mem x us ≡ false
  pub out_back : mem x vs ≡ false

pub around : (us : List ℕ) (x : ℕ) (vs : List ℕ) → Distinct (us ++ x ∷ vs) → Around us x vs
around us x vs d =
    let (front, (out, back), apart) = Distinct-append us (x ∷ vs) d in
    record {
      front = front;
      back = back;
      apart = λ a m. (mem_ne a x vs (apart a m)).1;
      out_front = elim (Bool-cases (mem x us)) [
        | inl it ↦ absurd ((mem_ne x x vs (apart x it)).0 refl)
        | inr other ↦ other
      ];
      out_back = out;
    }

pub mem-append_out :
    (a : ℕ) (us vs : List ℕ) → mem a us ≡ false → mem a vs ≡ false → mem a (us ++ vs) ≡ false
mem-append_out a us vs e f = rw (mem-append a us vs, e, f)

-- The head of the second of two lists with no common element is not in the first.
pub not_in_front :
    (us : List ℕ) (v : ℕ) (vs : List ℕ)
    → ((a : ℕ) → mem a us ≡ true → mem a (v ∷ vs) ≡ false)
    → mem v us ≡ false
not_in_front us v vs apart = elim (Bool-cases (mem v us)) [
  | inl it ↦ absurd ((mem_ne v v vs (apart v it)).0 refl)
  | inr other ↦ other
]
