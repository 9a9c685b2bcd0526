-- ===== src/Memory.antt =====
-- What the containers of Kernel/Sources/lib/libstruct use of memory: an allocator that their
-- client supplies (`vector_alloc_t`, `uhashtable_alloc_t`), blocks of 32-bit words, and `memcpy`.
pub mod Laws
use utk.Prelude.{
  List, Option, Run, [], drop, fault, get_elem?, if◌then◌else◌, leb, length, ltb, none, ok, set,
  some, suc, take, zero, ℕ, ◌%◌, ◌&&◌, ◌*◌, ◌++◌, ◌/◌, ◌^◌, ◌∷◌,
}

-- A block that an allocation returned, with the words that it holds.
pub record Block : Type 0 where
  pub address : ℕ
  pub words : List ℕ

-- `malloc` returns an address, or none for NULL; `rest` is what a word of fresh memory happens to
-- hold. The allocator's own state is threaded through every call.
pub record Allocator : Type 1 where
  pub Heap : Type 0
  pub malloc : Heap → ℕ → Option ℕ × Heap
  pub rest : Heap → ℕ → ℕ
  pub free : Heap → Option ℕ → Heap

-- The size in bytes of `n` pointers, as a 32-bit `size_t`.
abbrev pub pointer_bytes : ℕ → ℕ
pointer_bytes n = (n * 4) % 2 ^ 32

unfoldable pub tabulate : ℕ → (ℕ → ℕ) → List ℕ
tabulate zero f = []
tabulate (suc n) f = f n ∷ tabulate n f

-- Memory accesses by index into a block's words.
unfoldable pub load : List ℕ → ℕ → Run ℕ
load xs i = elim (get_elem? xs i) [ none ↦ fault | some x ↦ ok x ]

unfoldable pub store : List ℕ → ℕ → ℕ → Run (List ℕ)
store xs i x = if ltb i (length xs) then ok (set xs i x) else fault

-- `memcpy` of `n` elements.
unfoldable pub copy : List ℕ → List ℕ → ℕ → Run (List ℕ)
copy dst src n =
    if leb n (length src) && leb n (length dst) then ok (take n src ++ drop n dst) else fault

-- `memcpy(dst, src, n * sizeof(void*))`, of as many bytes as a 32-bit `size_t` counts.
unfoldable pub memcpy : List ℕ → List ℕ → ℕ → Run (List ℕ)
unfolding copy
memcpy dst src n = copy dst src (pointer_bytes n / 4)

abbrev pub words_of : Option Block → List ℕ
words_of none = []
words_of (some b) = b.words

abbrev pub address_of : Option Block → Option ℕ
address_of none = none
address_of (some b) = some b.address

module _ (a : Allocator) where
  open a use {Heap, malloc, rest}

  abbrev pub block_at : ℕ → Option ℕ × Heap → Option Block × Heap
  block_at bytes (none, h) = (none, h)
  block_at bytes (some p, h) =
      (some (record { address = p; words = tabulate (bytes / 4) (rest h) }), h)

  -- An allocation of `bytes` bytes that holds words.
  unfoldable pub allocate : Heap → ℕ → Option Block × Heap
  allocate h bytes = block_at bytes (malloc h bytes)
