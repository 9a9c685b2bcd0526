-- ===== src/Ustar/Blocks.antt =====
-- Where the blocks that ustar_fs.c reads lie on the device.
use utk.Prelude.{
  List, Returns, ap, arith, drop, false, if◌then◌else◌, is_no_err, length, ltb, no_err, ok, returns,
  suc, sym, take, zero, ℕ, ◌%◌, ◌*◌, ◌+◌, ◌/◌, ◌<◌, ◌==◌, ◌^◌, ◌∙◌, ◌≡◌, ◌≤◌,
}
use utk.Ustar.{Partition, ustar_read_blocks}
use native.Mathlib.Nat.{
  le-mul_of_pos_right, mul_comm, zero-mul, mul-zero, mul_comm, mul-div-mul_right, mul-div_cancel,
  mul_assoc, div-add-mod', div-le_self,
}

-- The blocks of the device are whole numbers of header blocks, or the other way round.
pub data Aligned (size : ℕ) : Type 0 where
  whole : (k : ℕ) → 0 < k → size ≡ k * 512 → Aligned size
  parts : (k : ℕ) → size * k ≡ 512 → Aligned size

-- The device answers the bytes of `disk`, which begin at the partition's first block.
pub record Serves (p : Partition) (disk : List ℕ) : Type 0 where
  pub aligned : Aligned p.device.block_size
  pub addressable : p.first_block + length disk < 2 ^ 32
  pub serve :
      (block size offset : ℕ)
      → block * p.device.block_size + offset + size ≤ length disk
      → p.device.read_blocks (p.first_block + block) size offset
        ≡ (no_err, take size (drop (block * p.device.block_size + offset) disk))

-- The device refuses to read beyond the end of `disk`.
pub record Ends (p : Partition) (disk : List ℕ) : Type 0 where
  pub refuse :
      (block size offset : ℕ)
      → length disk < block * p.device.block_size + offset + size
      → is_no_err (p.device.read_blocks (p.first_block + block) size offset).0 ≡ false

-- The offset into the device's block that ustar_access_blocks_from_device computes.
abbrev pub offset_in : (size inode : ℕ) → ℕ
offset_in size inode = if ltb 512 size then inode % (size / 512) * 512 else 0

-- The block and the offset together make the address of the header block.
offset_in-address :
    (size inode : ℕ)
    → Aligned size
    → (inode * 512 / size * size + offset_in size inode ≡ inode * 512) × ((size == 0) ≡ false)
offset_in-address size inode (whole k positive e) =
    let quotient = mul-div-mul_right {m = 512} inode k (omega arith) in
    let ratio = mul-div_cancel k {n = 512} (omega arith) in
    let product = mul_assoc (inode / k) k 512 in
    let parts = div-add-mod' inode k in rw e (rw (quotient, ratio) (ground arith))
offset_in-address zero inode (parts k e) = ground (arith, e, zero-mul k)
offset_in-address (suc n) inode (parts zero e) = ground (arith, e, mul-zero (suc n))
offset_in-address (suc n) inode (parts (suc k) e) =
    let size = suc n in
    let scaled : inode * 512 ≡ inode * suc k * size =
      ap (λ m. inode * m) (sym e ∙ mul_comm size (suc k)) ∙ sym (mul_assoc inode (suc k) size) in
    let quotient = mul-div_cancel (inode * suc k) {n = size} (omega arith) in
    let small : size ≤ size * suc k = le-mul_of_pos_right size (omega arith) in
    rw scaled (rw quotient (ground arith))

-- ustar_access_blocks_from_device reads the header blocks from `inode` on.
pub ustar_read_blocks-Serves :
    (p : Partition) (disk : List ℕ) (inode block_counts : ℕ)
    → Serves p disk
    → (inode + block_counts) * 512 ≤ length disk
    → ustar_read_blocks p inode block_counts
      ≡ ok (no_err, take (block_counts * 512) (drop (inode * 512) disk))
unfolding ustar_read_blocks
ustar_read_blocks-Serves p disk inode block_counts s within =
    let size = p.device.block_size in
    let (address, positive) = offset_in-address size inode s.aligned in
    let few = div-le_self (inode * 512) size in
    let block = inode * 512 / size in
    let offset = offset_in size inode in
    let addressable = s.addressable in
    let low : inode * 512 % 2 ^ 32 ≡ inode * 512 = omega arith in
    let first : (p.first_block + block) % 2 ^ 32 ≡ p.first_block + block = omega arith in
    let counted : block_counts * 512 % 2 ^ 32 ≡ block_counts * 512 = omega arith in
    let inner : offset % 2 ^ 32 ≡ offset = omega arith in
    rw (positive, low, first, counted, inner)
      (ap ok (
        s.serve block (block_counts * 512) offset (omega arith)
        ∙ ap (λ a. (no_err, take (block_counts * 512) (drop a disk))) address))

-- Beyond the end of the device, which is below 2^32, it returns the device's error.
pub ustar_read_blocks-Ends :
    (p : Partition) (disk : List ℕ) (inode : ℕ)
    → Serves p disk
    → Ends p disk
    → inode * 512 ≤ length disk
    → length disk < (inode + 1) * 512
    → Returns (λ r. is_no_err r.0 ≡ false) (ustar_read_blocks p inode 1)
unfolding ustar_read_blocks
ustar_read_blocks-Ends p disk inode s ends inside beyond =
    let size = p.device.block_size in
    let (address, positive) = offset_in-address size inode s.aligned in
    let few = div-le_self (inode * 512) size in
    let block = inode * 512 / size in
    let offset = offset_in size inode in
    let addressable = s.addressable in
    let low : inode * 512 % 2 ^ 32 ≡ inode * 512 = omega arith in
    let first : (p.first_block + block) % 2 ^ 32 ≡ p.first_block + block = omega arith in
    let inner : offset % 2 ^ 32 ≡ offset = omega arith in
    rw (positive, low, first, inner) (returns (ends.refuse block 512 offset (omega arith)))
