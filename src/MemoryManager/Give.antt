-- ===== src/MemoryManager/Give.antt =====
-- add_block of memmgt.c puts a block back into a list of free memory.
use utk.Prelude.{
  List, Option, Returns, Run, [], arith, false, returns, subst, sym, true, ℕ, ◌%◌, ◌+◌, ◌-◌, ◌<◌,
  ◌>>=◌, ◌^◌, ◌||◌, ◌∷◌, ◌≡◌,
}
use utk.MemoryManager.{put_block, bytes, add_block, merge_block, MemRange}
use utk.MemoryManager.Pool.{total, contains-Clear, inside, contains, IsPool}
use utk.MemoryManager.Merge.{
  alone, merged, Fits, push_prio-Pool, contains-push_prio, total-push_prio, Merging,
  merge_block-Merging,
}

-- The list gains the block, which was not free.
pub record Given (first limit : ℕ) (list rest : List MemRange) : Type 0 where
  pub pool : IsPool rest
  pub joins : (a : ℕ) → contains a rest ≡ (inside first limit a || contains a list)
  pub sum : total rest ≡ total list + (limit - first)

-- add_block
pub add_block-Given :
    (list : List MemRange) (first count : ℕ)
    → IsPool list
    → 0 < bytes count
    → first + bytes count < 2 ^ 32
    → ((a : ℕ) → inside first (first + bytes count) a ≡ true → contains a list ≡ false)
    → Returns (Given first (first + bytes count) list) (add_block list first count true)
unfolding add_block
add_block-Given list first count pool positive low taken =
    let limit = first + bytes count in
    let sum : (first + bytes count) % 2 ^ 32 ≡ limit = omega (arith, low) in
    let lt : first < limit = omega (arith, positive) in
    let step =
      merge_block-Merging first limit lt [] list (2 ^ 32) low (start list pool) pool
        (contains-Clear first limit (2 ^ 32) list lt pool taken) in
    subst
      (λ l.
        Returns (Given first limit list)
          (merge_block first l [] list >>= put_block list first l true))
      (sym sum) (go limit lt low (merge_block first limit [] list) step)
  where
    start : (list : List MemRange) → IsPool list → Fits [] list
    start [] pool = tt
    start (r ∷ rs) pool = pool.0

    go :
        (limit : ℕ) (lt : first < limit)
        → limit < 2 ^ 32
        → (o : Run (Option (List MemRange))) → Merging first limit lt [] list o
        → Returns (Given first limit list) (o >>= put_block list first limit true)
    go limit lt low _ (merged pool' same sum) =
        returns
          (record { pool = pool'; joins = λ a. ground (arith, same a); sum = omega (arith, sum) })
    go limit lt low _ (alone apart) = returns (record {
      pool = push_prio-Pool first limit lt (2 ^ 32) list low pool apart;
      joins = λ a. contains-push_prio first limit lt a list;
      sum = total-push_prio first limit lt list;
    })
