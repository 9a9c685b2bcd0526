-- ===== src/Tests/FreeMemory.antt =====
-- Two ranges of free memory, of 4 and of 2 frames, run through memmgt.c.
use utk.Prelude.{
  List, Returns, [], arith, false, if◌then◌else◌, ok, refl, some, true, ℕ, ◌*◌, ◌+◌, ◌==◌, ◌>>=◌,
  ◌^◌, ◌∷◌, ◌≡◌,
}
use utk.MemoryManager.{
  ending, take_ending, get_block, memory_free_pages_to, memory_alloc_pages_from, MemRange,
}
use utk.MemoryManager.Pool.{contains, inside, IsPool}
use utk.MemoryManager.Frames.{
  memory_free_frames, memory_release_ref, memory_acquire_ref, memory_alloc_frames, entry_of, Frames,
}
use utk.MemoryManager.Accounting.{
  memory_alloc_frames-Allocating, memory_free_frames-Freed, IsFrames, Allocating, Freed,
}
use utk.MemoryManager.Canonical.{alloc_pages-free_pages}
use utk.MemoryManager.References.{acquire-release, release_last}

abbrev range_of : (first count : ℕ) → MemRange
range_of first count = record {
  base = first * 4096;
  limit = (first + count) * 4096;
  priority = first * 4096;
}

abbrev two_ranges : List MemRange
two_ranges = range_of 16 4 ∷ range_of 8 2 ∷ []

two_ranges-IsPool : IsPool two_ranges
two_ranges-IsPool =
    ((omega arith), ((omega arith), refl), ((omega arith), ((omega arith), refl), tt))

-- The frames 16 to 19 and 8 and 9 are free, 12 is in use once and is memory.
abbrev some_frames : Frames
some_frames = record {
  free_memory_map = two_ranges;
  available_memory = 6 * 4096;
  frame_ref_dir = λ d. some (λ i. if i == 12 then 2 ^ 31 + 1 else 2 ^ 31);
}

some_frames-IsFrames : IsFrames some_frames
some_frames-IsFrames = record { pool = two_ranges-IsPool; counter = refl }

not_free : (b : ℕ) → inside 49152 53248 b ≡ true → contains b two_ranges ≡ false
not_free b i = ground (arith, i)

memory_alloc_frames-Allocating_example :
    Allocating some_frames 8192 (memory_alloc_frames some_frames 2)
memory_alloc_frames-Allocating_example =
    memory_alloc_frames-Allocating some_frames 2 some_frames-IsFrames (omega arith)

memory_free_frames-Freed_example :
    Returns (Freed 49152 4096 some_frames) (memory_free_frames some_frames 49152 1 true)
memory_free_frames-Freed_example =
    memory_free_frames-Freed some_frames 49152 1 some_frames-IsFrames (omega arith) (omega arith)
      not_free (omega arith)

release_last_example :
    Returns (Freed 49152 4096 some_frames) (memory_release_ref some_frames 49152 true)
release_last_example =
    release_last some_frames 49152 (omega arith) (omega arith) some_frames-IsFrames refl refl
      (omega arith) not_free

acquire-release_example :
    Returns
      (λ s'.
        (s'.free_memory_map ≡ two_ranges)
        × (s'.available_memory ≡ 6 * 4096)
        × ((b : ℕ) → entry_of s' b ≡ entry_of some_frames b))
      (memory_acquire_ref some_frames 49152 >>= λ s1. memory_release_ref s1 49152 true)
acquire-release_example =
    acquire-release some_frames 49152 true (omega arith) (omega arith) (omega arith) (omega arith)

taken_from_the_end :
    memory_alloc_pages_from two_ranges 1 ending ≡ ok (36864, range_of 16 4 ∷ range_of 8 1 ∷ [])
unfolding memory_alloc_pages_from get_block take_ending
taken_from_the_end = refl

alloc_pages-free_pages_example :
    memory_free_pages_to (range_of 16 4 ∷ range_of 8 1 ∷ []) 36864 1 true ≡ ok two_ranges
alloc_pages-free_pages_example =
    alloc_pages-free_pages two_ranges 1 ending 36864 (range_of 16 4 ∷ range_of 8 1 ∷ [])
      two_ranges-IsPool (omega arith) taken_from_the_end
