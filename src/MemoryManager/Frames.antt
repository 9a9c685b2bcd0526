-- ===== src/MemoryManager/Frames.antt =====
-- The frames of physical memory that memmgt.c hands out, and the counts of the references to them.
use utk.Prelude.{
  Bool, List, Option, Run, if◌then◌else◌, no_err, none, ok, panicked, some, suc,
  unauthorized_action, zero, ℕ, ◌%◌, ◌&&◌, ◌+◌, ◌-◌, ◌/◌, ◌==◌, ◌>>=◌, ◌^◌,
}
use utk.MemoryManager.{Error, beginning, bytes, get_block, add_block, MemRange}

-- An entry of a reference table: 2^31 says that the frame is present, 2^30 that it is hardware, and
-- the low 24 bits count the references.
abbrev pub ref_count_of : ℕ → ℕ
ref_count_of entry = entry % 2 ^ 24

-- `(entry & FRAME_REF_IS_HW) == 0`
abbrev pub is_memory : ℕ → Bool
is_memory entry = entry / 2 ^ 30 % 2 == 0

-- The globals. `frame_ref_dir` holds a table or NULL.
pub record Frames : Type 0 where
  pub free_memory_map : List MemRange
  pub available_memory : ℕ
  pub frame_ref_dir : ℕ → Option (ℕ → ℕ)

abbrev pub dir_entry : (phys_addr : ℕ) → ℕ
dir_entry phys_addr = phys_addr / 2 ^ 22

abbrev pub table_entry : (phys_addr : ℕ) → ℕ
table_entry phys_addr = phys_addr / 2 ^ 12 % 2 ^ 10

-- The entry of an address, 0 where its table is missing: the code asks for both together.
abbrev pub entry_in : Option (ℕ → ℕ) → ℕ → ℕ
entry_in none i = 0
entry_in (some table) i = table i

abbrev pub entry_of : Frames → (phys_addr : ℕ) → ℕ
entry_of s phys_addr = entry_in (s.frame_ref_dir (dir_entry phys_addr)) (table_entry phys_addr)

abbrev pub set_in : Option (ℕ → ℕ) → ℕ → ℕ → Option (ℕ → ℕ)
set_in none i entry = none
set_in (some table) i entry = some (λ j. if j == i then entry else table j)

abbrev pub put_entry : Frames → (phys_addr entry : ℕ) → Frames
put_entry s phys_addr entry = record s {
  frame_ref_dir = λ d.
      if d == dir_entry phys_addr
      then set_in (s.frame_ref_dir d) (table_entry phys_addr) entry
      else s.frame_ref_dir d;
}

-- memory_get_ref_count
unfoldable pub memory_get_ref_count : Frames → (phys_addr : ℕ) → Run ℕ
memory_get_ref_count s phys_addr =
    let entry = entry_of s phys_addr in
    if entry == 0 then panicked unauthorized_action else ok (ref_count_of entry)

-- memory_set_ref_count
unfoldable pub memory_set_ref_count : Frames → (phys_addr count : ℕ) → Run Frames
memory_set_ref_count s phys_addr count =
    let entry = entry_of s phys_addr in
    if entry == 0
    then panicked unauthorized_action
    else ok (put_entry s phys_addr (entry - ref_count_of entry + count % 2 ^ 24))

-- memory_acquire_ref
unfoldable pub memory_acquire_ref : Frames → (phys_addr : ℕ) → Run Frames
memory_acquire_ref s phys_addr =
    let entry = entry_of s phys_addr in
    let more = (entry + 1) % 2 ^ 32 in
    if entry == 0
    then panicked unauthorized_action
    else if ref_count_of more == 2 ^ 24 - 1
    then panicked unauthorized_action
    else ok (put_entry s phys_addr more)

-- The end of memory_alloc_frames, from the answer of get_block.
abbrev pub allocation : Frames → (frame_count : ℕ) → Error × ℕ × List MemRange → Run (ℕ × Frames)
allocation s frame_count (no_err, address, rest) = ok (
  address,
  record s {
    free_memory_map = rest;
    available_memory = (s.available_memory + 2 ^ 32 - bytes frame_count) % 2 ^ 32;
  },
)
allocation s frame_count (err, address, rest) = panicked err

-- memory_alloc_frames: the address, and the state.
unfoldable pub memory_alloc_frames : Frames → (frame_count : ℕ) → Run (ℕ × Frames)
memory_alloc_frames s frame_count =
    allocation s frame_count (get_block s.free_memory_map frame_count beginning)

-- The loop of memory_free_frames, which sets the count of `frame_addr` in every round.
unfoldable pub clear_ref_count : (rounds : ℕ) → (frame_addr : ℕ) → Frames → Run Frames
unfolding memory_set_ref_count
clear_ref_count zero frame_addr s = ok s
clear_ref_count (suc rounds) frame_addr s =
    memory_set_ref_count s frame_addr 0 >>= clear_ref_count rounds frame_addr

-- memory_free_frames
unfoldable pub memory_free_frames :
    Frames → (frame_addr frame_count : ℕ) (allocated : Bool) → Run Frames
unfolding clear_ref_count
memory_free_frames s frame_addr frame_count allocated =
    add_block s.free_memory_map frame_addr frame_count allocated >>= λ list.
    clear_ref_count frame_count frame_addr (record s { free_memory_map = list }) >>= λ s'.
    ok (record s' { available_memory = (s'.available_memory + bytes frame_count) % 2 ^ 32 })

-- memory_release_ref
unfoldable pub memory_release_ref : Frames → (phys_addr : ℕ) (allocated : Bool) → Run Frames
unfolding memory_free_frames
memory_release_ref s phys_addr allocated =
    let entry = entry_of s phys_addr in
    let less = (entry + 2 ^ 32 - 1) % 2 ^ 32 in
    let s' = put_entry s phys_addr less in
    if entry == 0
    then panicked unauthorized_action
    else if ref_count_of entry == 0
    then panicked unauthorized_action
    else if ref_count_of less == 0 && is_memory less
    then memory_free_frames s' phys_addr 1 allocated
    else ok s'
