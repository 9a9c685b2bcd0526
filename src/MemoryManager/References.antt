-- ===== src/MemoryManager/References.antt =====
-- The references to a frame in memmgt.c: the last one that is released frees it.
use utk.Prelude.{
  ==→eq, Bool, Bool-cases, Returns, ap, ap₂, arith, false, inl, inr, mono, refl, returns, sym, true,
  ℕ, ◌%◌, ◌+◌, ◌-◌, ◌<◌, ◌==◌, ◌>>=◌, ◌^◌, ◌∙◌, ◌≡◌, ◌≤◌,
}
use utk.MemoryManager.Frames.{
  table_entry, dir_entry, entry_in, is_memory, ref_count_of, memory_acquire_ref, put_entry,
  memory_release_ref, entry_of, Frames,
}
use utk.MemoryManager.Accounting.{
  same_slot, memory_free_frames-Freed, same_slot_refl, entry_of-put_entry, IsFrames, Freed,
}
use utk.MemoryManager.{ok, frame_size}
use utk.MemoryManager.Pool.{contains, inside}

module _ (s : Frames) (a : ℕ) (present : 2 ^ 24 ≤ entry_of s a) (word : entry_of s a < 2 ^ 32) where
  abbrev e : ℕ
  e = entry_of s a

  there : (e == 0) ≡ false
  there = ground (arith, present)

  own : (v : ℕ) → entry_of (put_entry s a v) a ≡ v
  own v = entry_of-put_entry s a a v there ∙ rw (same_slot_refl a) refl

  -- Not the last reference.
  release_other :
      (allocated : Bool)
      → 1 < ref_count_of e
      → memory_release_ref s a allocated ≡ ok (put_entry s a (e - 1))
  unfolding memory_release_ref
  release_other allocated more =
      let less : (e + 2 ^ 32 - 1) % 2 ^ 32 ≡ e - 1 = omega (arith, word, present) in
      let used : (ref_count_of e == 0) ≡ false = ground (arith, more) in
      let left : 0 < ref_count_of (e - 1) = omega (arith, more, present) in
      let still : (ref_count_of (e - 1) == 0) ≡ false = ground (arith, left) in
      rw (there, less, used, still) refl

  acquire : ref_count_of e + 2 < 2 ^ 24 → memory_acquire_ref s a ≡ ok (put_entry s a (e + 1))
  unfolding memory_acquire_ref
  acquire few =
      let more : (e + 1) % 2 ^ 32 ≡ e + 1 = omega (arith, few, word, present) in
      let count : ref_count_of (e + 1) < 2 ^ 24 - 1 = omega (arith, few) in
      let under : (ref_count_of (e + 1) == 2 ^ 24 - 1) ≡ false = ground (arith, count) in
      rw (there, more, under) refl

  -- memory_release_ref of the last reference to a frame that ends below 2^32, is present, is
  -- memory and has no free address, from a state in order and with a node and a range to
  -- allocate, ends in a state in order: the frame is free, it has no reference, and the entries
  -- of the other frames are as they were.
  pub release_last :
      IsFrames s
      → ref_count_of e ≡ 1
      → is_memory (e - 1) ≡ true
      → a + frame_size < 2 ^ 32
      → ((b : ℕ) → inside a (a + frame_size) b ≡ true → contains b s.free_memory_map ≡ false)
      → Returns (Freed a frame_size s) (memory_release_ref s a true)
  unfolding memory_release_ref
  release_last is one memory low used =
      let less : (e + 2 ^ 32 - 1) % 2 ^ 32 ≡ e - 1 = omega (arith, word, present) in
      let s1 = put_entry s a (e - 1) in
      let held : (ref_count_of e == 0) ≡ false = ground (arith, one) in
      let gone : ref_count_of (e - 1) ≡ 0 = omega (arith, one) in
      rw (there, less, held, gone, memory)
        (mono
          (memory_free_frames-Freed s1 a 1 (record { pool = is.pool; counter = is.counter })
            (omega arith) low used (omega (arith, own (e - 1), one, present)))
          (λ s' f. record {
            frames = f.frames;
            given = f.given;
            unused = f.unused;
            others = λ b other.
                f.others b other ∙ entry_of-put_entry s b a (e - 1) there ∙ rw other refl;
          }))

entry_of-same : (s : Frames) (b a : ℕ) → same_slot b a ≡ true → entry_of s b ≡ entry_of s a
entry_of-same s b a same =
    ap₂ (λ d i. entry_in (s.frame_ref_dir d) i)
      (==→eq (dir_entry b) (dir_entry a) (ground (arith, same)))
      (==→eq (table_entry b) (table_entry a) (ground (arith, same)))

-- memory_acquire_ref and then memory_release_ref of a frame that is present and has a reference,
-- with two more below the largest count, leave the free memory, the counter and every entry as
-- they were.
pub acquire-release :
    (s : Frames) (a : ℕ) (allocated : Bool)
    → 2 ^ 24 ≤ entry_of s a
    → entry_of s a < 2 ^ 32
    → 0 < ref_count_of (entry_of s a)
    → ref_count_of (entry_of s a) + 2 < 2 ^ 24
    → Returns
        (λ s'.
          (s'.free_memory_map ≡ s.free_memory_map)
          × (s'.available_memory ≡ s.available_memory)
          × ((b : ℕ) → entry_of s' b ≡ entry_of s b))
        (memory_acquire_ref s a >>= λ s1. memory_release_ref s1 a allocated)
acquire-release s a allocated present word held few =
    let e = entry_of s a in
    let s1 = put_entry s a (e + 1) in
    let s2 = put_entry s1 a (entry_of s1 a - 1) in
    let own1 = own s a present word (e + 1) in
    let present1 : 2 ^ 24 ≤ entry_of s1 a = omega (arith, own1, present) in
    let word1 : entry_of s1 a < 2 ^ 32 = omega (arith, own1, word, few) in
    let more : 1 < ref_count_of (entry_of s1 a) = rw own1 (omega (arith, held, few)) in
    rw (acquire s a present word few, release_other s1 a present1 word1 allocated more)
      (returns (
        refl,
        refl,
        λ b.
            entry_of-put_entry s1 b a (entry_of s1 a - 1) (there s1 a present1 word1)
            ∙ (elim (Bool-cases (same_slot b a)) [
              | inl self ↦
                  rw self
                    (ap (λ n. n - 1) own1 ∙ omega (arith, present) ∙ sym (entry_of-same s b a self))
              | inr other ↦
                  rw other
                    (entry_of-put_entry s b a (e + 1) (there s a present word) ∙ rw other refl)
            ]),
      ))
