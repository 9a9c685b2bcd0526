-- ===== src/MemoryManager.antt =====
-- The lists of free memory of Kernel/Sources/arch/cpu/i386/src/memmgt.c: frames of physical memory
-- and pages of virtual memory. A list is a kqueue, from the head to the tail, and a node is kept
-- with the range that it points to.
pub mod Pool
pub mod Take
pub mod Merge
pub mod Give
pub mod Canonical
pub mod Frames
pub mod Accounting
pub mod References
use utk.Prelude.{
  Bool, Error, List, Option, Run, [], false, if◌then◌else◌, leb, ltb, malloc_failed, no_err,
  no_more_free_mem, none, ok, panicked, reverse_aux, some, true, unauthorized_action, ℕ, ◌%◌, ◌&&◌,
  ◌*◌, ◌+◌, ◌-◌, ◌==◌, ◌>>=◌, ◌^◌, ◌∷◌,
}
use utk.Sequence.{push_prio}

abbrev pub frame_size : ℕ
frame_size = 4096

-- `mem_range_t`, without its type, and the priority of the node that holds it.
pub record MemRange : Type 0 where
  pub base : ℕ
  pub limit : ℕ
  pub priority : ℕ

-- `MEM_ALLOC_START_E`
pub data AllocStart : Type 0 where
  beginning ending : AllocStart

-- `range->limit - range->base`
abbrev pub range_size : MemRange → ℕ
range_size r = (r.limit + 2 ^ 32 - r.base) % 2 ^ 32

-- The total that get_free_mem counts, from `total` on.
unfoldable pub get_free_mem : (total : ℕ) → List MemRange → ℕ
get_free_mem total [] = total
get_free_mem total (r ∷ rs) = get_free_mem ((total + range_size r) % 2 ^ 32) rs

-- A range that is used up leaves the list.
abbrev pub kept : MemRange → List MemRange → List MemRange
kept r rs = if r.base == r.limit then rs else r ∷ rs

-- get_block from the head on: the first range that is large enough gives its beginning.
unfoldable pub take_beginning : (size : ℕ) → List MemRange → Option (ℕ × List MemRange)
take_beginning size [] = none
take_beginning size (r ∷ rs) =
    let base = (r.base + size) % 2 ^ 32 in
    let later : Option (ℕ × List MemRange) = elim (take_beginning size rs) [
      | none ↦ none
      | some (address, rest) ↦ some (address, r ∷ rest)
    ] in
    if leb size (range_size r)
    then some (r.base, kept (record r { base = base; priority = base }) rs)
    else later

-- get_block from the tail on: the last range that is large enough gives its end.
unfoldable pub take_ending : (size : ℕ) → List MemRange → Option (ℕ × List MemRange)
take_ending size [] = none
take_ending size (r ∷ rs) = elim (take_ending size rs) [
  | some (address, rest) ↦ some (address, r ∷ rest)
  | none ↦
      let address = (r.limit + 2 ^ 32 - size) % 2 ^ 32 in
      if leb size (range_size r)
      then some (address, kept (record r { limit = address }) rs)
      else none
]

-- `length * KERNEL_FRAME_SIZE`
abbrev pub bytes : (count : ℕ) → ℕ
bytes count = count * frame_size % 2 ^ 32

abbrev pub answer_of : List MemRange → Option (ℕ × List MemRange) → Error × ℕ × List MemRange
answer_of list none = (no_more_free_mem, 0, list)
answer_of list (some (address, rest)) = (no_err, address, rest)

-- get_block, with an `err` that is not NULL: the error, the address, NULL where there is none, and the
-- list that it leaves.
unfoldable pub get_block : List MemRange → (count : ℕ) → AllocStart → Error × ℕ × List MemRange
get_block list count beginning = answer_of list (take_beginning (bytes count) list)
get_block list count ending = answer_of list (take_ending (bytes count) list)

-- The range `r` gains the block that ends at its base, and the next range with it if they meet.
abbrev pub merge_below : (first : ℕ) → MemRange → List MemRange → List MemRange
merge_below first r [] = record r { base = first; priority = first } ∷ []
merge_below first r (n ∷ rs) =
    if n.limit == first
    then record r { base = n.base; priority = n.base } ∷ rs
    else record r { base = first; priority = first } ∷ n ∷ rs

-- The range `r` gains the block that begins at its limit, and the last range, the first of `passed`,
-- with it if they meet.
abbrev pub merge_above :
    (limit : ℕ) → MemRange → (passed : List MemRange) → List MemRange → List MemRange
merge_above limit r [] rs = record r { limit = limit } ∷ rs
merge_above limit r (l ∷ passed) rs =
    if l.base == limit
    then reverse_aux passed (record r { limit = l.limit } ∷ rs)
    else reverse_aux (l ∷ passed) (record r { limit = limit } ∷ rs)

-- The loop of add_block, with the ranges that it has passed, the last one first; none where no range
-- meets the block.
unfoldable pub merge_block :
    (first limit : ℕ) (passed : List MemRange) → List MemRange → Run (Option (List MemRange))
merge_block first limit passed [] = ok none
merge_block first limit passed (r ∷ rs) =
    let later = merge_block first limit (r ∷ passed) rs in
    if r.base == limit
    then ok (some (reverse_aux passed (merge_below first r rs)))
    else if r.limit == first
    then ok (some (merge_above limit r passed rs))
    else if leb r.base first && ltb first r.limit
    then panicked unauthorized_action
    else if ltb r.limit first
    then ok none
    else later

-- The end of add_block: a block that was merged with no range is put into the list.
abbrev pub put_block :
    List MemRange
    → (first limit : ℕ) (allocated : Bool) → Option (List MemRange)
    → Run (List MemRange)
put_block list first limit allocated (some found) = ok found
put_block list first limit true none =
    ok (push_prio (λ n. n.priority) (record { base = first; limit = limit; priority = first }) list)
put_block list first limit false none = panicked malloc_failed

-- add_block, on a list that is not NULL: `allocated` says whether the node and the range of a block
-- that meets no other could be allocated.
unfoldable pub add_block :
    List MemRange → (first count : ℕ) (allocated : Bool) → Run (List MemRange)
unfolding merge_block
add_block list first count allocated =
    let limit = (first + bytes count) % 2 ^ 32 in
    merge_block first limit [] list >>= put_block list first limit allocated

abbrev pub pages_of : Error × ℕ × List MemRange → Run (ℕ × List MemRange)
pages_of (no_err, address, rest) = ok (address, rest)
pages_of (err, address, rest) = panicked err

-- memory_alloc_pages_from: the address, and the list.
unfoldable pub memory_alloc_pages_from :
    List MemRange → (page_count : ℕ) → AllocStart → Run (ℕ × List MemRange)
memory_alloc_pages_from page_table page_count start =
    pages_of (get_block page_table page_count start)

-- memory_free_pages_to
unfoldable pub memory_free_pages_to :
    List MemRange → (page_addr page_count : ℕ) (allocated : Bool) → Run (List MemRange)
memory_free_pages_to page_table page_addr page_count allocated =
    add_block page_table page_addr page_count allocated
