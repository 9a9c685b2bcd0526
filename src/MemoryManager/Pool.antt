-- ===== src/MemoryManager/Pool.antt =====
-- When a list of free memory of memmgt.c is in order, and which addresses it holds.
use utk.Prelude.{
  Bool, Bool-cases, List, [], arith, false, inl, inr, leb, ltb, refl, true, ℕ, ◌&&◌, ◌+◌, ◌-◌, ◌<◌,
  ◌^◌, ◌||◌, ◌∙◌, ◌∷◌, ◌≡◌, ◌≤◌, ◌⊎◌,
}
use utk.MemoryManager.{reverse_aux, range_size, MemRange}

abbrev pub inside : (first limit a : ℕ) → Bool
inside first limit a = leb first a && ltb a limit

abbrev pub contains : ℕ → List MemRange → Bool
contains a [] = false
contains a (r ∷ rs) = inside r.base r.limit a || contains a rs

-- A range with an address in it, whose node has its base for a priority.
abbrev pub Sound : MemRange → Type 0
Sound r = (r.base < r.limit) × (r.priority ≡ r.base)

-- The ranges fall from the head to the tail, below `bound`. There is an address between two of them:
-- ranges that meet have been made one.
abbrev pub Pool : (bound : ℕ) → List MemRange → Type 0
Pool bound [] = Unit {0}
Pool bound (r ∷ rs) = (r.limit < bound) × Sound r × Pool r.base rs

abbrev pub IsPool : List MemRange → Type 0
IsPool list = Pool (2 ^ 32) list

pub Pool-weaken : (b c : ℕ) (rs : List MemRange) → b ≤ c → Pool b rs → Pool c rs
Pool-weaken b c [] le p = tt
Pool-weaken b c (r ∷ rs) le (low, sound, p) = (omega (arith, low, le), sound, p)

-- Nothing at or above the bound is free.
pub Pool-bound : (b a : ℕ) (rs : List MemRange) → Pool b rs → b ≤ a → contains a rs ≡ false
Pool-bound b a [] p le = refl
Pool-bound b a (r ∷ rs) (low, sound, p) le =
    let below = Pool-bound r.base a rs p (omega (arith, low, sound.0, le)) in
    ground (arith, below, low, le)

-- A free address and the next are below the bound.
pub Pool-last : (b a : ℕ) (rs : List MemRange) → Pool b rs → contains a rs ≡ true → a + 1 < b
Pool-last b a [] p m = absurd cc
Pool-last b a (r ∷ rs) (low, sound, p) m = elim (Bool-cases (contains a rs)) [
  | inl later ↦ omega (arith, Pool-last r.base a rs p later, low, sound.0)
  | inr here ↦ ground (arith, here, m, low)
]

-- What no address of a block is in stays clear of it.
abbrev pub Clear : (first limit : ℕ) → List MemRange → Type 0
Clear first limit [] = Unit {0}
Clear first limit (r ∷ rs) = ((r.limit ≤ first) ⊎ (limit ≤ r.base)) × Clear first limit rs

pub contains-Clear :
    (first limit b : ℕ) (rs : List MemRange)
    → first < limit
    → Pool b rs
    → ((a : ℕ) → inside first limit a ≡ true → contains a rs ≡ false)
    → Clear first limit rs
contains-Clear first limit b [] lt p free = tt
contains-Clear first limit b (r ∷ rs) lt (low, sound, p) free = (
  (elim (Bool-cases (leb r.limit first)) [
    | inl le ↦ inl (ground (arith, le))
    | inr above ↦ elim (Bool-cases (leb limit r.base)) [
      | inl le ↦ inr (ground (arith, le))
      | inr below ↦ elim (Bool-cases (leb first r.base)) [
        | inl le ↦
            let a = free r.base (ground (arith, le, below)) in absurd (ground (arith, a, sound.0))
        | inr over ↦
            let a = free first (ground (arith, lt)) in absurd (ground (arith, a, above, over))
      ]
    ]
  ]),
  contains-Clear first limit r.base rs lt p (λ a i. ground (arith, free a i)),
)

pub range_size-Sound :
    (r : MemRange) → r.base < r.limit → r.limit < 2 ^ 32 → range_size r ≡ r.limit - r.base
range_size-Sound r lt low = omega (arith, lt, low)

-- How much is free.
abbrev pub total : List MemRange → ℕ
total [] = 0
total (r ∷ rs) = r.limit - r.base + total rs

pub contains-reverse_aux :
    (a : ℕ) (passed rs : List MemRange)
    → contains a (reverse_aux passed rs) ≡ (contains a passed || contains a rs)
contains-reverse_aux a [] rs = refl
contains-reverse_aux a (r ∷ passed) rs = contains-reverse_aux a passed (r ∷ rs) ∙ ground arith

pub total-reverse_aux :
    (passed rs : List MemRange) → total (reverse_aux passed rs) ≡ total passed + total rs
total-reverse_aux [] rs = omega arith
total-reverse_aux (r ∷ passed) rs = omega (arith, total-reverse_aux passed (r ∷ rs))

-- What is free fits below the bound.
pub total-Pool : (b : ℕ) (rs : List MemRange) → Pool b rs → total rs ≤ b
total-Pool b [] p = omega arith
total-Pool b (r ∷ rs) (low, sound, p) = omega (arith, total-Pool r.base rs p, low, sound.0)

pub total-IsPool : (rs : List MemRange) → IsPool rs → total rs < 2 ^ 32
total-IsPool [] p = omega arith
total-IsPool (r ∷ rs) (low, sound, p) = omega (arith, total-Pool r.base rs p, low, sound.0)
