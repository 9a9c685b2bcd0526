-- ===== src/MemoryManager/Take.antt =====
-- get_block of memmgt.c takes a block out of a list of free memory.
use utk.Prelude.{
  Bool-cases, List, Option, [], arith, false, if◌then◌else◌, inl, inr, leb, ltb→le, no_err,
  no_more_free_mem, none, refl, some, true, ℕ, ◌%◌, ◌+◌, ◌-◌, ◌<◌, ◌==◌, ◌^◌, ◌||◌, ◌∷◌, ◌≡◌, ◌≤◌,
}
use utk.MemoryManager.{
  Error, ltb, answer_of, beginning, ending, range_size, bytes, AllocStart, take_ending,
  take_beginning, get_block, kept, MemRange,
}
use utk.MemoryManager.Pool.{
  range_size-Sound, IsPool, Pool-weaken, Pool-bound, Sound, total, contains, inside, Pool,
}

-- The list `rest` is `list` without the block of `size` bytes at `address`, which was free.
pub record Taken (b size : ℕ) (list : List MemRange) (address : ℕ) (rest : List MemRange)
    : Type 0 where
  pub pool : Pool b rest
  pub apart : (a : ℕ) → inside address (address + size) a ≡ true → contains a rest ≡ false
  pub split : (a : ℕ) → contains a list ≡ (inside address (address + size) a || contains a rest)
  pub total : total list ≡ total rest + size

-- No range is large enough.
abbrev pub Small : (size : ℕ) → List MemRange → Type 0
Small size [] = Unit {0}
Small size (r ∷ rs) = (r.limit - r.base < size) × Small size rs

pub data Taking (b size : ℕ) (list : List MemRange) : Option (ℕ × List MemRange) → Type 0 where
  taken :
      {address : ℕ} {rest : List MemRange}
      → Taken b size list address rest
      → Taking b size list (some (address, rest))
  too_small : Small size list → Taking b size list none

module _ (b size : ℕ) (r : MemRange) (rs : List MemRange) (p : Pool b (r ∷ rs)) where
  abbrev sound : Sound r
  sound = p.1

  -- The block is in a later range.
  skip :
      (address : ℕ) (rest : List MemRange)
      → Taken r.base size rs address rest
      → Taken b size (r ∷ rs) address (r ∷ rest)
  skip address rest t = record {
    pool = (p.0, sound, t.pool);
    apart = λ a i.
        let below : ltb a r.base ≡ true = elim (Bool-cases (ltb a r.base)) [
          | inl low ↦ low
          | inr high ↦
              absurd
                (ground (arith, Pool-bound r.base a rs p.2 (ltb→le a r.base high), t.split a, i))
        ] in
        ground (arith, t.apart a i, below);
    split = λ a. ground (arith, t.split a);
    total = omega (arith, t.total);
  }

  module _ (positive : 0 < size) (enough : size ≤ r.limit - r.base) where
    -- The block is the beginning of the range.
    from_beginning :
        Taken b size
          (r ∷ rs)
          r.base
          (kept (record r { base = r.base + size; priority = r.base + size }) rs)
    from_beginning = elim (Bool-cases (r.base + size == r.limit)) [
      | inl used ↦ rw used (record {
        pool = Pool-weaken r.base b rs (omega (arith, p.0, sound.0)) p.2;
        apart = λ a i. Pool-bound r.base a rs p.2 (ground (arith, i));
        split = λ a. ground (arith, used);
        total = ground (arith, used, sound.0);
      })
      | inr left ↦ rw left (record {
        pool = (
          p.0,
          (ground (arith, left, enough, sound.0), refl),
          Pool-weaken r.base (r.base + size) rs (omega arith) p.2,
        );
        apart = λ a i.
            let none = Pool-bound r.base a rs p.2 (ground (arith, i)) in ground (arith, none, i);
        split = λ a. ground (arith, enough, sound.0);
        total = omega (arith, enough, sound.0);
      })
    ]

    -- The block is the end of the range.
    from_ending :
        Taken b size (r ∷ rs) (r.limit - size) (kept (record r { limit = r.limit - size }) rs)
    from_ending = elim (Bool-cases (r.base == r.limit - size)) [
      | inl used ↦ rw used (record {
        pool = Pool-weaken r.base b rs (omega (arith, p.0, sound.0)) p.2;
        apart = λ a i. Pool-bound r.base a rs p.2 (ground (arith, i, used));
        split = λ a. ground (arith, used, enough, sound.0);
        total = ground (arith, used, sound.0, enough);
      })
      | inr left ↦ rw left (record {
        pool = (omega (arith, p.0), (ground (arith, left, enough, sound.0), sound.1), p.2);
        apart = λ a i.
            let none = Pool-bound r.base a rs p.2 (ground (arith, i, enough, sound.0)) in
            ground (arith, none, i, enough, sound.0);
        split = λ a. ground (arith, enough, sound.0);
        total = omega (arith, enough, sound.0);
      })
    ]

module _ (size : ℕ) (positive : 0 < size) where
  take_beginning-Taking :
      (b : ℕ) (list : List MemRange)
      → b ≤ 2 ^ 32
      → Pool b list
      → Taking b size list (take_beginning size list)
  unfolding take_beginning
  take_beginning-Taking b [] le p = too_small tt
  take_beginning-Taking b (r ∷ rs) le p =
      let fits = range_size-Sound r p.1.0 (omega (arith, p.0, le)) in
      elim (Bool-cases (leb size (range_size r))) [
        | inl enough ↦
            let fits_in : size ≤ r.limit - r.base = ground (arith, enough, fits) in
            let sum : (r.base + size) % 2 ^ 32 ≡ r.base + size = omega (arith, fits_in, p.0, le) in
            rw (enough, sum) (taken (from_beginning b size r rs p positive fits_in))
        | inr little ↦ rw little (
            go (take_beginning size rs)
              (take_beginning-Taking r.base rs (omega (arith, p.0, p.1.0, le)) p.2)
              (ground (arith, little, fits)))
      ]
    where
      go :
          (o : Option (ℕ × List MemRange))
          → Taking r.base size rs o
          → r.limit - r.base < size
          → Taking b size
              (r ∷ rs)
              (elim o [ none ↦ none | some (address, rest) ↦ some (address, r ∷ rest) ])
      go _ (taken {address} {rest} t) little = taken (skip b size r rs p address rest t)
      go _ (too_small s) little = too_small (little, s)

  take_ending-Taking :
      (b : ℕ) (list : List MemRange)
      → b ≤ 2 ^ 32
      → Pool b list
      → Taking b size list (take_ending size list)
  unfolding take_ending
  take_ending-Taking b [] le p = too_small tt
  take_ending-Taking b (r ∷ rs) le p =
      go (take_ending size rs) (take_ending-Taking r.base rs (omega (arith, p.0, p.1.0, le)) p.2)
    where
      address : ℕ
      address = (r.limit + 2 ^ 32 - size) % 2 ^ 32

      go :
          (o : Option (ℕ × List MemRange))
          → Taking r.base size rs o
          → Taking b size (r ∷ rs) (elim o [
            | some (address, rest) ↦ some (address, r ∷ rest)
            | none ↦
                if leb size (range_size r)
                then some (address, kept (record r { limit = address }) rs)
                else none
          ])
      go _ (taken {address} {rest} t) = taken (skip b size r rs p address rest t)
      go _ (too_small s) =
          let fits = range_size-Sound r p.1.0 (omega (arith, p.0, le)) in
          elim (Bool-cases (leb size (range_size r))) [
            | inl enough ↦
                let fits_in : size ≤ r.limit - r.base = ground (arith, enough, fits) in
                let rest : address ≡ r.limit - size = omega (arith, fits_in, p.0, le, positive) in
                rw (enough, rest) (taken (from_ending b size r rs p positive fits_in))
            | inr little ↦ rw little (too_small (ground (arith, little, fits), s))
          ]

-- What get_block may answer.
pub data Answer (size : ℕ) (list : List MemRange) : Error × ℕ × List MemRange → Type 0 where
  given :
      {address : ℕ} {rest : List MemRange}
      → Taken (2 ^ 32) size list address rest
      → Answer size list (no_err, address, rest)
  refused : Small size list → Answer size list (no_more_free_mem, 0, list)

Taking-Answer :
    (size : ℕ) (list : List MemRange) (o : Option (ℕ × List MemRange))
    → Taking (2 ^ 32) size list o
    → Answer size list (answer_of list o)
Taking-Answer size list _ (taken t) = given t
Taking-Answer size list _ (too_small s) = refused s

-- get_block
pub get_block-Answer :
    (list : List MemRange) (count : ℕ) (start : AllocStart)
    → IsPool list
    → 0 < bytes count
    → Answer (bytes count) list (get_block list count start)
unfolding get_block
get_block-Answer list count beginning p positive =
    Taking-Answer (bytes count) list _
      (take_beginning-Taking (bytes count) positive (2 ^ 32) list (omega arith) p)
get_block-Answer list count ending p positive =
    Taking-Answer (bytes count) list _
      (take_ending-Taking (bytes count) positive (2 ^ 32) list (omega arith) p)
