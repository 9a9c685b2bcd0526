-- ===== src/MemoryManager/Canonical.antt =====
-- A list of free memory in order is determined by its addresses, so a block that is taken by
-- get_block and put back by add_block of memmgt.c leaves the list as it was.
use utk.Prelude.{
  Bool-cases, Error, List, Returns, [], ap, ap₂, arith, false, inl, inr, ltb, refl, returns, subst,
  sym, true, ℕ, ◌+◌, ◌-◌, ◌<◌, ◌^◌, ◌∙◌, ◌∷◌, ◌≡◌, ◌≤◌,
}
use utk.MemoryManager.{
  Run, pages_of, memory_free_pages_to, memory_alloc_pages_from, ok, add_block, bytes, AllocStart,
  MemRange,
}
use utk.MemoryManager.Pool.{Pool-last, contains, Pool, IsPool}
use utk.MemoryManager.Take.{get_block-Answer, given, refused, Taken, Answer}
use utk.MemoryManager.Give.{add_block-Given, Given}

same_range :
    (r q : MemRange) → r.base ≡ q.base → r.limit ≡ q.limit → r.priority ≡ q.priority → r ≡ q
same_range r q base limit priority = cc (base, limit, priority)

not_past : (b a : ℕ) (rs : List MemRange) → Pool b rs → b ≤ a + 1 → contains a rs ≡ false
not_past b a rs p le = elim (Bool-cases (contains a rs)) [
  | inl it ↦ absurd (omega (arith, Pool-last b a rs p it, le))
  | inr other ↦ other
]

-- Two lists that hold the same addresses.
module _ (b : ℕ) (r q : MemRange) (rs qs : List MemRange) (p : Pool b (r ∷ rs))
    (p' : Pool b (q ∷ qs)) (same : (a : ℕ) → contains a (r ∷ rs) ≡ contains a (q ∷ qs)) where
  limit_le : r.limit ≤ q.limit
  limit_le = elim (Bool-cases (ltb q.limit r.limit)) [
    | inl lt ↦
        let a = r.limit - 1 in
        let none = not_past q.base a qs p'.2 (ground (arith, p'.1.0, lt)) in
        absurd (ground (arith, same a, none, lt, p.1.0))
    | inr le ↦ ground (arith, le)
  ]

  base_le : r.limit ≡ q.limit → q.base ≤ r.base
  base_le limit = elim (Bool-cases (ltb r.base q.base)) [
    | inl lt ↦
        let a = q.base - 1 in
        let none = not_past q.base a qs p'.2 (ground (arith, lt)) in
        absurd (ground (arith, same a, none, lt, p'.1.0, limit))
    | inr le ↦ ground (arith, le)
  ]

  tails : r.limit ≡ q.limit → r.base ≡ q.base → (a : ℕ) → contains a rs ≡ contains a qs
  tails limit base a = elim (Bool-cases (ltb a r.base)) [
    | inl under ↦ ground (arith, same a, under, base)
    | inr above ↦
        not_past r.base a rs p.2 (ground (arith, above))
        ∙ sym (not_past q.base a qs p'.2 (ground (arith, above, base)))
  ]

-- The addresses of a list in order determine it.
pub Pool-canonical :
    (b : ℕ) (rs qs : List MemRange)
    → Pool b rs
    → Pool b qs
    → ((a : ℕ) → contains a rs ≡ contains a qs)
    → rs ≡ qs
Pool-canonical b [] [] p p' same = refl
Pool-canonical b [] (q ∷ qs) p p' same = absurd (ground (arith, same q.base, p'.1.0))
Pool-canonical b (r ∷ rs) [] p p' same = absurd (ground (arith, same r.base, p.1.0))
Pool-canonical b (r ∷ rs) (q ∷ qs) p p' same =
    let back : (a : ℕ) → contains a (q ∷ qs) ≡ contains a (r ∷ rs) = λ a. sym (same a) in
    let limit : r.limit ≡ q.limit =
      omega (arith, limit_le b r q rs qs p p' same, limit_le b q r qs rs p' p back) in
    let base : r.base ≡ q.base =
      omega
        (arith, base_le b r q rs qs p p' same limit, base_le b q r qs rs p' p back (sym limit)) in
    let priority = p.1.1 ∙ base ∙ sym p'.1.1 in
    ap₂ (λ x xs. x ∷ xs) (same_range r q base limit priority)
      (Pool-canonical r.base rs qs p.2 (subst (λ n. Pool n qs) (sym base) p'.2)
        (tails b r q rs qs p p' same limit base))

-- A block that was taken goes back.
Taken-add_block :
    (list rest : List MemRange) (count address : ℕ)
    → IsPool list
    → 0 < bytes count
    → Taken (2 ^ 32) (bytes count) list address rest
    → add_block rest address count true ≡ ok list
Taken-add_block list rest count address pool positive t =
    let last = address + bytes count - 1 in
    let held : contains last list ≡ true = t.split last ∙ ground (arith, positive) in
    let low : address + bytes count < 2 ^ 32 =
      omega (arith, Pool-last (2 ^ 32) last list pool held, positive) in
    returned _ (add_block-Given rest address count t.pool positive low t.apart)
  where
    returned :
        (r : Run (List MemRange))
        → Returns (Given address (address + bytes count) rest) r
        → r ≡ ok list
    returned _ (returns g) =
        ap ok (Pool-canonical (2 ^ 32) _ list g.pool pool (λ a. g.joins a ∙ sym (t.split a)))

-- If memory_alloc_pages_from takes pages from either end of a list in order, and their size is
-- not 0 modulo 2^32, memory_free_pages_to gives the list back as it was, when a node and a range
-- can be allocated.
pub alloc_pages-free_pages :
    (page_table : List MemRange) (page_count : ℕ) (start : AllocStart) (address : ℕ)
    (rest : List MemRange)
    → IsPool page_table
    → 0 < bytes page_count
    → memory_alloc_pages_from page_table page_count start ≡ ok (address, rest)
    → memory_free_pages_to rest address page_count true ≡ ok page_table
unfolding memory_alloc_pages_from memory_free_pages_to
alloc_pages-free_pages page_table page_count start address rest pool positive e =
    go _ e (get_block-Answer page_table page_count start pool positive)
  where
    go :
        (r : Error × ℕ × List MemRange)
        → pages_of r ≡ ok (address, rest)
        → Answer (bytes page_count) page_table r
        → add_block rest address page_count true ≡ ok page_table
    go _ e (refused small) = absurd (cc e)
    go _ e (given {address = a} {rest = l} t) =
        let here : a ≡ address = cc e in
        let left : l ≡ rest = cc e in
        ap₂ (λ a l. add_block l a page_count true) (sym here) (sym left)
        ∙ Taken-add_block page_table _ page_count _ pool positive t
