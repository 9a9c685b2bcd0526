-- ===== src/MemoryManager/Accounting.antt =====
-- memmgt.c keeps count of the free frames and of the references to the others.
use utk.Prelude.{
  ==_refl, ==→eq, Bool, Bool-cases, List, Option, Returns, Run, [], ap, arith, bind, false,
  if◌then◌else◌, inl, inr, mono, no_more_free_mem, none, ok, panicked, refl, returns, some, subst,
  suc, sym, zero, ℕ, ◌%◌, ◌&&◌, ◌+◌, ◌-◌, ◌<◌, ◌==◌, ◌^◌, ◌∙◌, ◌≡◌, ◌≤◌,
}
use utk.MemoryManager.{
  Error, ◌∷◌, true, range_size, get_free_mem, beginning, get_block, bytes, MemRange,
}
use utk.MemoryManager.Pool.{
  range_size-Sound, Pool, total-IsPool, contains, inside, total-Pool, total, IsPool,
}
use utk.MemoryManager.Take.{get_block-Answer, given, refused, Answer, Small, Taken}
use utk.MemoryManager.Give.{add_block-Given, Given}
use utk.MemoryManager.Frames.{
  memory_free_frames, ref_count_of, clear_ref_count, allocation, set_in, entry_in, table_entry,
  put_entry, entry_of, memory_alloc_frames, dir_entry, Frames,
}

-- The counter says how much of the memory is free.
pub record IsFrames (s : Frames) : Type 0 where
  pub pool : IsPool s.free_memory_map
  pub counter : s.available_memory ≡ total s.free_memory_map

abbrev pub same_slot : (a b : ℕ) → Bool
same_slot a b = dir_entry a == dir_entry b && table_entry a == table_entry b

-- The counts but for that of one frame.
pub entry_of-put_entry :
    (s : Frames) (a b v : ℕ)
    → (entry_of s b == 0) ≡ false
    → entry_of (put_entry s b v) a ≡ (if same_slot a b then v else entry_of s a)
entry_of-put_entry s a b v present = elim (Bool-cases (dir_entry a == dir_entry b)) [
  | inl same ↦ rw same (
      ap (λ d. entry_in (set_in (s.frame_ref_dir d) (table_entry b) v) (table_entry a))
        (==→eq (dir_entry a) (dir_entry b) same)
      ∙ go (s.frame_ref_dir (dir_entry b)) present
      ∙ ap
          (λ d.
            if table_entry a == table_entry b
            then v
            else entry_in (s.frame_ref_dir d) (table_entry a))
          (sym (==→eq (dir_entry a) (dir_entry b) same)))
  | inr other ↦ rw other refl
]
  where
    go :
        (o : Option (ℕ → ℕ))
        → (entry_in o (table_entry b) == 0) ≡ false
        → entry_in (set_in o (table_entry b) v) (table_entry a)
          ≡ (if table_entry a == table_entry b then v else entry_in o (table_entry a))
    go none e = absurd cc
    go (some table) e = refl

-- What memory_alloc_frames does: it takes a block out of the map, or halts because no range is large
-- enough.
pub data Allocating (s : Frames) (size : ℕ) : Run (ℕ × Frames) → Type 0 where
  allocated :
      {address : ℕ} {s' : Frames}
      → IsFrames s'
      → Taken (2 ^ 32) size s.free_memory_map address s'.free_memory_map
      → ((a : ℕ) → entry_of s' a ≡ entry_of s a)
      → Allocating s size (ok (address, s'))
  exhausted : Small size s.free_memory_map → Allocating s size (panicked no_more_free_mem)

-- memory_alloc_frames, from a state in order and for a size that is not 0 modulo 2^32, hands out
-- a block that was free and is no longer, with everything else as free as it was, the counter
-- right and the reference entries unchanged, in a state in order; or no range is large enough,
-- and the kernel halts with no_more_free_mem.
pub memory_alloc_frames-Allocating :
    (s : Frames) (frame_count : ℕ)
    → IsFrames s
    → 0 < bytes frame_count
    → Allocating s (bytes frame_count) (memory_alloc_frames s frame_count)
unfolding memory_alloc_frames
memory_alloc_frames-Allocating s frame_count is positive =
    go (get_block s.free_memory_map frame_count beginning)
      (get_block-Answer s.free_memory_map frame_count beginning is.pool positive)
  where
    go :
        (r : Error × ℕ × List MemRange)
        → Answer (bytes frame_count) s.free_memory_map r
        → Allocating s (bytes frame_count) (allocation s frame_count r)
    go _ (refused small) = exhausted small
    go _ (given {address} {rest} t) =
        allocated
          (record {
            pool = t.pool;
            counter =
                omega (arith, is.counter, t.total, total-Pool (2 ^ 32) s.free_memory_map is.pool);
          })
          t (λ a. refl)

pub same_slot_refl : (a : ℕ) → same_slot a a ≡ true
same_slot_refl a = ground (arith, ==_refl (dir_entry a), ==_refl (table_entry a))

-- What clearing the count of a frame leaves alone.
record Cleared (rounds a : ℕ) (s s' : Frames) : Type 0 where
  map : s'.free_memory_map ≡ s.free_memory_map
  counter : s'.available_memory ≡ s.available_memory
  others : (b : ℕ) → same_slot b a ≡ false → entry_of s' b ≡ entry_of s b
  flags : entry_of s' a - ref_count_of (entry_of s' a) ≡ entry_of s a - ref_count_of (entry_of s a)
  unused : 0 < rounds → ref_count_of (entry_of s' a) ≡ 0
  none_left : ref_count_of (entry_of s a) ≡ 0 → ref_count_of (entry_of s' a) ≡ 0

clear_ref_count-Cleared :
    (rounds a : ℕ) (s : Frames)
    → 2 ^ 24 ≤ entry_of s a
    → Returns (Cleared rounds a s) (clear_ref_count rounds a s)
unfolding clear_ref_count
clear_ref_count-Cleared zero a s present = returns (record {
  map = refl;
  counter = refl;
  others = λ b _. refl;
  flags = refl;
  unused = λ lt. absurd (omega (arith, lt));
  none_left = λ e. e;
})
clear_ref_count-Cleared (suc rounds) a s present =
    let e = entry_of s a in
    let v = e - ref_count_of e + 0 % 2 ^ 24 in
    let s1 = put_entry s a v in
    let there : (e == 0) ≡ false = ground (arith, present) in
    let own : entry_of s1 a ≡ v = entry_of-put_entry s a a v there ∙ rw (same_slot_refl a) refl in
    let cleared : ref_count_of v ≡ 0 = omega arith in
    rw there (
      mono
        (clear_ref_count-Cleared rounds a s1
          (subst (λ n. 2 ^ 24 ≤ n) (sym own) (omega (arith, present))))
        (λ s' c. record {
          map = c.map;
          counter = c.counter;
          others = λ b other. c.others b other ∙ entry_of-put_entry s b a v there ∙ rw other refl;
          flags = c.flags ∙ ap (λ n. n - ref_count_of n) own ∙ omega arith;
          unused = λ _. c.none_left (ap ref_count_of own ∙ cleared);
          none_left = λ _. c.none_left (ap ref_count_of own ∙ cleared);
        }))

-- The block is free again, and its first frame has no reference.
pub record Freed (address size : ℕ) (s s' : Frames) : Type 0 where
  pub frames : IsFrames s'
  pub given : Given address (address + size) s.free_memory_map s'.free_memory_map
  pub unused : ref_count_of (entry_of s' address) ≡ 0
  pub others : (b : ℕ) → same_slot b address ≡ false → entry_of s' b ≡ entry_of s b

-- memory_free_frames, from a state in order, of a block whose size is not 0, that ends below
-- 2^32, of which no address is free and whose first frame is present in the reference table,
-- ends in a state in order when a node and a range can be allocated: the block is free and
-- nothing else has changed in that, the counter is right, the first frame has no reference and
-- the entries of the other frames are as they were.
pub memory_free_frames-Freed :
    (s : Frames) (address frame_count : ℕ)
    → IsFrames s
    → 0 < bytes frame_count
    → address + bytes frame_count < 2 ^ 32
    → ((a : ℕ)
        → inside address (address + bytes frame_count) a ≡ true
        → contains a s.free_memory_map ≡ false)
    → 2 ^ 24 ≤ entry_of s address
    → Returns (Freed address (bytes frame_count) s) (memory_free_frames s address frame_count true)
unfolding memory_free_frames
memory_free_frames-Freed s address frame_count is positive low taken present =
    bind _ (add_block-Given s.free_memory_map address frame_count is.pool positive low taken)
      (λ list g.
        bind _
          (clear_ref_count-Cleared frame_count address (record s { free_memory_map = list })
            present)
          (λ s' c. returns (record {
            frames = record {
              pool = subst IsPool (sym c.map) g.pool;
              counter =
                  omega
                    (arith, c.counter, is.counter, g.sum, total-IsPool list g.pool, ap total c.map);
            };
            given =
                subst (λ l. Given address (address + bytes frame_count) s.free_memory_map l)
                  (sym c.map) g;
            unused = c.unused (ground (arith, positive));
            others = c.others;
          })))

-- get_free_mem
pub get_free_mem-total :
    (b sum : ℕ) (rs : List MemRange)
    → b ≤ 2 ^ 32
    → Pool b rs
    → sum + total rs < 2 ^ 32
    → get_free_mem sum rs ≡ sum + total rs
unfolding get_free_mem
get_free_mem-total b sum [] le p low = omega arith
get_free_mem-total b sum (r ∷ rs) le p low =
    let size = range_size-Sound r p.1.0 (omega (arith, p.0, le)) in
    let step : (sum + range_size r) % 2 ^ 32 ≡ sum + (r.limit - r.base) =
      omega (arith, size, low) in
    rw step (
      get_free_mem-total r.base (sum + (r.limit - r.base)) rs (omega (arith, p.0, p.1.0, le)) p.2
        (omega (arith, low))
      ∙ omega arith)
