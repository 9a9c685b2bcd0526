-- ===== src/Ustar.antt =====
-- Reading files of Kernel/Sources/fs/src/ustar_fs.c. A header block is its 512 bytes,
-- `USTAR_BLOCK_SIZE`; the device is a parameter, with the bytes that it writes at the buffer that it
-- is given.
pub mod Blocks
pub mod Read
pub mod Next
use utk.Prelude.{
  Bool, Error, List, Option, Run, [], drop, endless, false, fault, file_not_found, get_elem?,
  if◌then◌else◌, is_no_err, leb, ltb, malloc_failed, no_err, none, not, null_pointer, ok, set, some,
  take, true, wrong_partition_type, zero, ℕ, ◌%◌, ◌&&◌, ◌*◌, ◌+◌, ◌-◌, ◌/◌, ◌==◌, ◌>>=◌, ◌^◌, ◌||◌,
  ◌∷◌,
}
use utk.Memory.{copy}
use Prim.Native.Nat.{suc, bit_or}

-- What the file system uses of `vfs_device_t` and `vfs_partition_t`.
pub record Device : Type 0 where
  pub block_size : ℕ
  pub read_blocks : (block size offset : ℕ) → Error × List ℕ

pub record Partition : Type 0 where
  pub first_block : ℕ
  pub device : Device

-- `VFS_FILE_TYPE_E`
pub data FileType : Type 0 where
  file folder hard_link sym_link char_dev block_dev dir named_pipe other : FileType

-- `(uint32_t)(c - '0')` of a signed character that is kept as a byte.
abbrev pub digit_value : ℕ → ℕ
digit_value c = (if ltb c 128 then c + 2 ^ 32 - 48 else c + 2 ^ 32 - 304) % 2 ^ 32

-- oct2uint from `out` on, over the field; it stops at a 0.
unfoldable pub oct2uint : (out : ℕ) → List ℕ → ℕ
oct2uint out [] = out
oct2uint out (c ∷ oct) =
    let rest = oct2uint (bit_or (out * 8 % 2 ^ 32) (digit_value c)) oct in
    if c == 0 then out else rest

-- The fields of `ustar_block_t` that are read.
abbrev pub field : (first size : ℕ) → List ℕ → List ℕ
field first size block = take size (drop first block)

abbrev pub size_field : List ℕ → List ℕ
size_field block = field 124 12 block

abbrev pub type_field : List ℕ → Option ℕ
type_field block = get_elem? block 156

abbrev pub magic_field : List ℕ → List ℕ
magic_field block = field 257 6 block

-- `strncmp` with USTAR_MAGIC, which has no 0 among its six characters.
abbrev pub same_bytes : List ℕ → List ℕ → Bool
same_bytes [] [] = true
same_bytes [] (y ∷ ys) = false
same_bytes (x ∷ xs) [] = false
same_bytes (x ∷ xs) (y ∷ ys) = (x == y) && same_bytes xs ys

abbrev pub ustar_magic : List ℕ
ustar_magic = 117 ∷ 115 ∷ 116 ∷ 97 ∷ 114 ∷ 32 ∷ []

unfoldable pub ustar_check_block : List ℕ → Error
ustar_check_block block =
    if same_bytes (magic_field block) ustar_magic then no_err else wrong_partition_type

unfoldable pub ustar_to_vfs_type : ℕ → FileType
ustar_to_vfs_type c =
    if c == 48
    then file
    else if c == 49
    then hard_link
    else if c == 50
    then sym_link
    else if c == 51
    then char_dev
    else if c == 52
    then block_dev
    else if c == 53
    then dir
    else if c == 54
    then named_pipe
    else other

abbrev pub is_file : FileType → Bool
is_file file = true
is_file _ = false

-- ustar_access_blocks_from_device for USTAR_DEV_OP_READ; a block size of 0 divides by zero, and one
-- between the size of a header block and its double makes the second divisor 1.
unfoldable pub ustar_read_blocks : Partition → (inode block_counts : ℕ) → Run (Error × List ℕ)
ustar_read_blocks p inode block_counts =
    let size = p.device.block_size in
    let block = (p.first_block + inode * 512 % 2 ^ 32 / size) % 2 ^ 32 in
    let offset = if ltb 512 size then inode % (size / 512) * 512 else 0 in
    if size == 0
    then fault
    else ok (p.device.read_blocks block (block_counts * 512 % 2 ^ 32) (offset % 2 ^ 32))

-- The number of blocks that ustar_read_file reads.
unfoldable pub blocks_to_read : (offset size : ℕ) → ℕ
blocks_to_read offset size =
    let whole = if size % 512 == 0 then size / 512 else size / 512 + 1 in
    if ltb 512 (offset % 512 + size % 512) then whole + 1 else whole

-- What ustar_read_file returns, writes at `actual_size` when that is not NULL, and leaves in the
-- buffer.
abbrev pub Reading : Type 0
Reading = Error × Option ℕ × List ℕ

-- The last part of ustar_read_file, for a size within the file.
unfoldable pub read_data :
    Partition → (granted : Bool) → (inode offset size : ℕ) → List ℕ → Run Reading
read_data p granted inode offset size buffer =
    let blocks = blocks_to_read offset size in
    let real_inode = (inode + 1 + offset / 512) % 2 ^ 32 in
    let answer : Run Reading = ustar_read_blocks p real_inode blocks >>= λ (err, bytes).
    if is_no_err err
    then (copy buffer (drop (offset % 512) bytes) size >>= λ filled. ok (no_err, some size, filled))
    else ok (err, none, buffer) in
    if granted then answer else ok (malloc_failed, none, buffer)

-- `if(offset + size > file_size)`
unfoldable pub clamp : (offset size file_size : ℕ) → ℕ
clamp offset size file_size =
    if ltb file_size ((offset + size) % 2 ^ 32) then file_size - offset else size

-- The part of ustar_read_file behind the checks of the header.
unfoldable pub read_within :
    Partition → (granted : Bool) → (inode cursor size file_size : ℕ) → List ℕ → Run Reading
read_within p granted inode cursor size file_size buffer =
    if leb file_size cursor || (size == 0)
    then ok (no_err, some 0, buffer)
    else read_data p granted inode cursor (clamp cursor size file_size) buffer

abbrev pub is_file_block : List ℕ → Bool
is_file_block block = elim (type_field block) [
  | none ↦ false
  | some c ↦ is_file (ustar_to_vfs_type c)
]

-- ustar_read_file; `granted` is whether kmalloc has the memory, and no buffer is NULL.
unfoldable pub ustar_read_file :
    Partition → (granted : Bool) → (inode cursor size : ℕ) → Option (List ℕ) → Run Reading
ustar_read_file p granted inode cursor size none = ok (null_pointer, none, [])
ustar_read_file p granted inode cursor size (some buffer) =
    ustar_read_blocks p inode 1 >>= λ (err, block).
    if is_no_err err
    then if is_no_err (ustar_check_block block)
      then if is_file_block block
        then read_within p granted inode cursor size (oct2uint 0 (size_field block)) buffer
        else ok (file_not_found, none, buffer)
      else ok (ustar_check_block block, none, buffer)
    else ok (err, none, buffer)

-- `block->file_name[0] != 0`
abbrev pub is_named : List ℕ → Bool
is_named [] = false
is_named (c ∷ cs) = not (c == 0)

-- The size in bytes that ustar_get_next_file goes on by.
abbrev pub step_size : (file_size : ℕ) → ℕ
step_size file_size =
    let size = (file_size + 512) % 2 ^ 32 in if size % 512 == 0 then size else (size + 512) % 2 ^ 32

-- The inode that it reads next; its size field has 11 characters.
unfoldable pub next_inode : (inode : ℕ) → (block : List ℕ) → ℕ
next_inode inode block = (inode + step_size (oct2uint 0 (field 124 11 block)) / 512) % 2 ^ 32

-- ustar_get_next_file, for at most so many rounds of its loop: the block and the inode that it
-- leaves. A device that fails leaves the block as it was.
unfoldable pub ustar_get_next_file :
    (rounds : ℕ) → Partition → (block : List ℕ) → (inode : ℕ) → Run (List ℕ × ℕ)
ustar_get_next_file zero p block inode = endless
ustar_get_next_file (suc left) p block inode =
    let next = next_inode inode block in
    let answer : Run (List ℕ × ℕ) = ustar_read_blocks p next 1 >>= λ (err, header).
    let again = ustar_get_next_file left p header next in
    if is_no_err err
    then if is_named header then ok (header, next) else again
    else ok (set block 0 0, next) in
    if is_no_err (ustar_check_block block) then answer else ok (set block 0 0, inode)
