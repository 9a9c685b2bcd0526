-- ===== src/Memory/Laws.antt =====
-- Accesses within the bounds of a block succeed, and fresh blocks have the size asked for.
use utk.Prelude.{
  List, Option, ap, arith, drop, fault, get_elem?, get_elem?-append, length, length-append,
  length-drop, length-take, none, ok, refl, set, set-append, some, suc, take, take-append, zero, ℕ,
  ◌*◌, ◌++◌, ◌/◌, ◌<◌, ◌^◌, ◌∷◌, ◌≡◌, ◌≤◌,
}
use utk.Memory.{
  Block, Allocator, pointer_bytes, tabulate, load, store, copy, memcpy, block_at, allocate,
}

pub length-tabulate : (n : ℕ) (f : ℕ → ℕ) → length (tabulate n f) ≡ n
unfolding tabulate
length-tabulate zero f = refl
length-tabulate (suc n) f = ap suc (length-tabulate n f)

pub load-append : (us vs : List ℕ) (x n : ℕ) → n ≡ length us → load (us ++ x ∷ vs) n ≡ ok x
unfolding load
load-append us vs x n e = rw (get_elem?-append us vs x n e, load)

pub store-set : (xs : List ℕ) (i x : ℕ) → i < length xs → store xs i x ≡ ok (set xs i x)
unfolding store
store-set xs i x h = ground arith

pub store-append :
    (us vs : List ℕ) (y x n : ℕ) → n ≡ length us → store (us ++ y ∷ vs) n x ≡ ok (us ++ x ∷ vs)
store-append us vs y x n e =
    rw (store-set (us ++ y ∷ vs) n x (omega (arith, length-append us (y ∷ vs))))
      (ap ok (set-append us vs y x n e))

pub copy-ok :
    (dst src : List ℕ) (n : ℕ)
    → n ≤ length src
    → n ≤ length dst
    → copy dst src n ≡ ok (take n src ++ drop n dst)
unfolding copy
copy-ok dst src n p q = ground arith

-- The number of elements whose bytes do not wrap.
pointer_bytes_words : (n : ℕ) → n * 4 < 2 ^ 32 → pointer_bytes n / 4 ≡ n
pointer_bytes_words n low = omega arith

pub memcpy-ok :
    (dst src : List ℕ) (n : ℕ)
    → n * 4 < 2 ^ 32
    → n ≤ length src
    → n ≤ length dst
    → memcpy dst src n ≡ ok (take n src ++ drop n dst)
unfolding memcpy
memcpy-ok dst src n low p q = rw (pointer_bytes_words n low) (copy-ok dst src n p q)

-- The copy keeps the block's size, and its first `n` words are the source's.
pub length-memcpy :
    (dst src : List ℕ) (n : ℕ)
    → n ≤ length src
    → n ≤ length dst
    → length (take n src ++ drop n dst) ≡ length dst
length-memcpy dst src n p q =
    omega (arith, length-append (take n src) (drop n dst), length-take n src, length-drop n dst)

pub take-memcpy :
    (dst src : List ℕ) (n : ℕ) → n ≤ length src → take n (take n src ++ drop n dst) ≡ take n src
take-memcpy dst src n p = take-append (take n src) (drop n dst) n (omega (arith, length-take n src))

-- A fresh block has as many words as fit into the bytes asked for.
pub allocate_size :
    (a : Allocator) (h : a.Heap) (bytes : ℕ) {b : Block}
    → (allocate a h bytes).0 ≡ some b
    → length b.words ≡ bytes / 4
unfolding allocate
allocate_size a h bytes {b} e = go (a.malloc h bytes) e
  where
    go : (r : Option ℕ × a.Heap) → (block_at a bytes r).0 ≡ some b → length b.words ≡ bytes / 4
    go (none, g) e = ground arith
    go (some p, g) e = ground (arith, length-tabulate (bytes / 4) (a.rest g))

pub load-some : (xs : List ℕ) (i x : ℕ) → get_elem? xs i ≡ some x → load xs i ≡ ok x
unfolding load
load-some xs i x e = rw (e, load)

-- A copy of more elements than there are is a fault.
pub copy-fault : (dst src : List ℕ) (n : ℕ) → length src < n → copy dst src n ≡ fault
unfolding copy
copy-fault dst src n p = ground arith

pub memcpy-fault :
    (dst src : List ℕ) (n : ℕ) → n * 4 < 2 ^ 32 → length src < n → memcpy dst src n ≡ fault
unfolding memcpy
memcpy-fault dst src n low p = rw (pointer_bytes_words n low) (copy-fault dst src n p)
