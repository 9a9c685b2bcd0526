-- ===== src/MemoryManager/Merge.antt =====
-- The loop of add_block of memmgt.c: the block is merged with the ranges that it meets.
use utk.Prelude.{
  ==→eq, Bool-cases, List, Option, Run, [], arith, false, inl, inr, leb, le→ltb, ltb, lt→ltb, ne→==,
  none, ok, refl, reverse_aux, some, true, ℕ, ◌&&◌, ◌+◌, ◌-◌, ◌<◌, ◌==◌, ◌^◌, ◌||◌, ◌∙◌, ◌∷◌, ◌≡◌,
  ◌≤◌, ◌⊎◌,
}
use utk.Sequence.{push_prio}
use utk.MemoryManager.{merge_block, merge_below, merge_above, MemRange}
use utk.MemoryManager.Pool.{
  total, total-reverse_aux, contains-reverse_aux, Clear, inside, contains, Sound, Pool, IsPool,
}

-- The ranges that the loop has passed, the last one first, rise from above `b`.
abbrev pub Above : (b : ℕ) → List MemRange → Type 0
Above b [] = b < 2 ^ 32
Above b (l ∷ passed) = (b < l.base) × Sound l × Above l.limit passed

Above-lower : (b c : ℕ) (passed : List MemRange) → c ≤ b → Above b passed → Above c passed
Above-lower b c [] le above = omega (arith, le, above)
Above-lower b c (l ∷ passed) le (low, sound, above) = (omega (arith, low, le), sound, above)

Pool-reverse_aux :
    (passed : List MemRange) (r : MemRange) (rs : List MemRange)
    → Above r.limit passed
    → Sound r
    → Pool r.base rs
    → IsPool (reverse_aux passed (r ∷ rs))
Pool-reverse_aux [] r rs above sound p = (above, sound, p)
Pool-reverse_aux (l ∷ passed) r rs (low, sound_l, above) sound p =
    Pool-reverse_aux passed l (r ∷ rs) above sound_l (low, sound, p)

-- The block meets no range.
abbrev pub Apart : (first limit : ℕ) → List MemRange → Type 0
Apart first limit [] = Unit {0}
Apart first limit (r ∷ rs) = ((r.limit < first) ⊎ (limit < r.base)) × Apart first limit rs

-- The range that the loop stands at is below those that it has passed.
abbrev pub Fits : (passed rs : List MemRange) → Type 0
Fits passed [] = Unit {0}
Fits passed (r ∷ rs) = Above r.limit passed

module _ (first limit : ℕ) (lt : first < limit) where
  Below-Apart : (b : ℕ) (rs : List MemRange) → b ≤ first → Pool b rs → Apart first limit rs
  Below-Apart b [] le p = tt
  Below-Apart b (r ∷ rs) le (low, sound, p) =
      (inl (omega (arith, low, le)), Below-Apart r.base rs (omega (arith, low, le, sound.0)) p)

  -- A block that meets no range becomes one of its own.
  pub push_prio-Pool :
      (b : ℕ) (rs : List MemRange)
      → limit < b
      → Pool b rs
      → Apart first limit rs
      → Pool b (
          push_prio (λ n. n.priority) (record { base = first; limit = limit; priority = first }) rs)
  unfolding push_prio
  push_prio-Pool b [] high p apart = (high, (lt, refl), tt)
  push_prio-Pool b (r ∷ rs) high (low, sound, p) (inl under, apart) =
      rw (le→ltb first r.priority (omega (arith, under, sound.0, sound.1)))
        (high, (lt, refl), (under, sound, p))
  push_prio-Pool b (r ∷ rs) high (low, sound, p) (inr over, apart) =
      rw (lt→ltb first r.priority (omega (arith, over, sound.1, lt)))
        (low, sound, push_prio-Pool r.base rs over p apart)

  pub contains-push_prio :
      (a : ℕ) (rs : List MemRange)
      → contains a (
          push_prio (λ n. n.priority) (record { base = first; limit = limit; priority = first }) rs)
        ≡ (inside first limit a || contains a rs)
  unfolding push_prio
  contains-push_prio a [] = refl
  contains-push_prio a (r ∷ rs) = elim (Bool-cases (ltb first r.priority)) [
    | inl lower ↦ rw lower (ground (arith, contains-push_prio a rs))
    | inr found ↦ rw found refl
  ]

  pub total-push_prio :
      (rs : List MemRange)
      → total (
          push_prio (λ n. n.priority) (record { base = first; limit = limit; priority = first }) rs)
        ≡ total rs + (limit - first)
  unfolding push_prio
  total-push_prio [] = omega arith
  total-push_prio (r ∷ rs) = elim (Bool-cases (ltb first r.priority)) [
    | inl lower ↦ rw lower (omega (arith, total-push_prio rs))
    | inr found ↦ rw found (omega arith)
  ]

  -- What the loop leaves: a list with the block, or no range meets the block.
  pub data Merging (passed rs : List MemRange) : Run (Option (List MemRange)) → Type 0 where
    merged :
        {list : List MemRange}
        → IsPool list
        → ((a : ℕ) → contains a list ≡ (inside first limit a || contains a passed || contains a rs))
        → total list ≡ total passed + total rs + (limit - first)
        → Merging passed rs (ok (some list))
    alone : Apart first limit rs → Merging passed rs (ok none)

  merge_below-Merging :
      (passed : List MemRange) (r : MemRange) (rs : List MemRange)
      → Above r.limit passed
      → Sound r
      → Pool r.base rs
      → Clear first limit rs
      → r.base ≡ limit
      → Merging passed (r ∷ rs) (ok (some (reverse_aux passed (merge_below first r rs))))
  merge_below-Merging passed r [] above sound p clear meets =
      let r' : MemRange = record r { base = first; priority = first } in
      merged (Pool-reverse_aux passed r' [] above ((omega (arith, sound.0, meets, lt)), refl) tt)
        (λ a. contains-reverse_aux a passed (r' ∷ []) ∙ ground (arith, meets, lt, sound.0))
        (omega (arith, total-reverse_aux passed (r' ∷ []), meets, lt, sound.0))
  merge_below-Merging passed r (n ∷ rs) above sound (low, sound_n, p) clear meets =
      elim (Bool-cases (n.limit == first)) [
        | inl both ↦
            let r' : MemRange = record r { base = n.base; priority = n.base } in
            rw both (
              merged
                (Pool-reverse_aux passed r' rs above
                  ((omega (arith, sound.0, meets, low, sound_n.0)), refl) p)
                (λ a.
                  contains-reverse_aux a passed (r' ∷ rs)
                  ∙ ground (arith, meets, lt, sound.0, both, sound_n.0))
                (omega (
                  arith,
                  total-reverse_aux passed (r' ∷ rs),
                  meets,
                  lt,
                  sound.0,
                  sound_n.0,
                  ==→eq n.limit first both,
                )))
        | inr under ↦
            let r' : MemRange = record r { base = first; priority = first } in
            rw under (
              merged
                (Pool-reverse_aux passed r' (n ∷ rs) above
                  ((omega (arith, sound.0, meets, lt)), refl)
                  (
                    elim clear.0 [
                      | inl le ↦ ground (arith, le, under)
                      | inr over ↦ absurd (omega (arith, over, low, sound_n.0, meets))
                    ],
                    sound_n,
                    p,
                  ))
                (λ a.
                  contains-reverse_aux a passed (r' ∷ n ∷ rs) ∙ ground (arith, meets, lt, sound.0))
                (omega (arith, total-reverse_aux passed (r' ∷ n ∷ rs), meets, lt, sound.0)))
      ]

  merge_above-Merging :
      (passed : List MemRange) (r : MemRange) (rs : List MemRange)
      → Above limit passed
      → Sound r
      → Pool r.base rs
      → r.limit ≡ first
      → Merging passed (r ∷ rs) (ok (some (merge_above limit r passed rs)))
  merge_above-Merging [] r rs above sound p meets =
      merged (above, ((omega (arith, sound.0, meets, lt)), sound.1), p)
        (λ a. ground (arith, meets, lt, sound.0)) (omega (arith, meets, lt, sound.0))
  merge_above-Merging (l ∷ passed) r rs above sound p meets =
      let r' : MemRange = record r { limit = limit } in
      rw (ne→== l.base limit (ground (arith, above.0))) (
        merged
          (Pool-reverse_aux (l ∷ passed) r' rs above ((omega (arith, sound.0, meets, lt)), sound.1)
            p)
          (λ a. contains-reverse_aux a (l ∷ passed) (r' ∷ rs) ∙ ground (arith, meets, lt, sound.0))
          (omega (arith, total-reverse_aux (l ∷ passed) (r' ∷ rs), meets, lt, sound.0)))

  next_Fits :
      (passed : List MemRange) (r : MemRange) (rs : List MemRange)
      → Above r.limit passed
      → Sound r
      → Pool r.base rs
      → Fits (r ∷ passed) rs
  next_Fits passed r [] above sound p = tt
  next_Fits passed r (n ∷ rs) above sound p = (p.0, sound, above)

  shift :
      (passed : List MemRange) (r : MemRange) (rs : List MemRange)
      → limit < r.base
      → (o : Run (Option (List MemRange))) → Merging (r ∷ passed) rs o
      → Merging passed (r ∷ rs) o
  shift passed r rs over _ (merged {list} pool same sum) =
      merged pool (λ a. ground (arith, same a)) (omega (arith, sum))
  shift passed r rs over _ (alone apart) = alone (inr over, apart)

  pub merge_block-Merging :
      (passed rs : List MemRange) (b : ℕ)
      → Above limit passed
      → Fits passed rs
      → Pool b rs
      → Clear first limit rs
      → Merging passed rs (merge_block first limit passed rs)
  unfolding merge_block
  merge_block-Merging passed [] b over fits p clear = alone tt
  merge_block-Merging passed (r ∷ rs) b over fits (low, sound, p) (clear_r, clear) =
      elim (Bool-cases (r.base == limit)) [
        | inl meets ↦
            rw meets (merge_below-Merging passed r rs fits sound p clear (==→eq r.base limit meets))
        | inr above ↦ elim (Bool-cases (r.limit == first)) [
          | inl meets ↦
              rw (above, meets)
                (merge_above-Merging passed r rs over sound p (==→eq r.limit first meets))
          | inr below ↦ elim clear_r [
            | inl under ↦
                let outside : (leb r.base first && ltb first r.limit) ≡ false =
                  ground (arith, sound.0, under, below) in
                let passes : ltb r.limit first ≡ true = ground (arith, under, below) in
                rw (above, below, outside, passes)
                  (alone (
                    inl (ground (arith, under, below)),
                    Below-Apart r.base rs (omega (arith, sound.0, under)) p,
                  ))
            | inr past ↦
                let higher : limit < r.base = ground (arith, past, above) in
                let outside : (leb r.base first && ltb first r.limit) ≡ false =
                  ground (arith, lt, past) in
                let goes_on : ltb r.limit first ≡ false = ground (arith, lt, past, sound.0) in
                rw (above, below, outside, goes_on)
                  (shift passed r rs higher _ (
                    merge_block-Merging (r ∷ passed) rs r.base (higher, sound, fits)
                      (next_Fits passed r rs fits sound p) p clear))
          ]
        ]
      ]
