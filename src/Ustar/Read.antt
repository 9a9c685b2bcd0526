-- ===== src/Ustar/Read.antt =====
-- What ustar_read_file of ustar_fs.c reads.
use utk.Prelude.{
  Bool, Bool-cases, List, [], ap, arith, drop, false, fault, if◌then◌else◌, inl, inr, leb, length,
  length-drop, length-take, ltb, lt→ltb, min, no_err, ok, refl, some, suc, take, true, zero, ℕ, ◌%◌,
  ◌&&◌, ◌*◌, ◌++◌, ◌+◌, ◌-◌, ◌/◌, ◌<◌, ◌==◌, ◌>>=◌, ◌^◌, ◌||◌, ◌∙◌, ◌∷◌, ◌≡◌, ◌≤◌,
}
use utk.Ustar.{
  is_file_block, ustar_check_block, size_field, read_within, oct2uint, ustar_read_file, copy,
  read_data, Partition, blocks_to_read, clamp,
}
use utk.Ustar.Blocks.{ustar_read_blocks-Serves, Serves}
use utk.Memory.Laws.{copy-ok, copy-fault}

module _ {ℓ} {A : Type ℓ} where
  drop-drop : (m n : ℕ) (xs : List A) → drop m (drop n xs) ≡ drop (n + m) xs
  drop-drop m zero xs = ap (λ k. drop k xs) (omega arith)
  drop-drop zero (suc n) [] = ap (λ k. drop k []) {x = suc n} (omega arith)
  drop-drop (suc m) (suc n) [] = ap (λ k. drop k []) {x = suc (n + suc m)} (omega arith)
  drop-drop m (suc n) (x ∷ xs) =
      drop-drop m n xs ∙ ap (λ k. drop k (x ∷ xs)) {x = suc (n + m)} (omega arith)

  take-drop-take :
      (n o m : ℕ) (xs : List A) → o + n ≤ m → take n (drop o (take m xs)) ≡ take n (drop o xs)
  take-drop-take zero o m xs h = refl
  take-drop-take (suc n) o zero xs h = absurd (omega arith)
  take-drop-take (suc n) zero (suc m) [] h = refl
  take-drop-take (suc n) (suc o) (suc m) [] h = refl
  take-drop-take (suc n) zero (suc m) (x ∷ xs) h =
      ap (λ ys. x ∷ ys) (take-drop-take n zero m xs (omega arith))
  take-drop-take (suc n) (suc o) (suc m) (x ∷ xs) h = take-drop-take (suc n) o m xs (omega arith)

-- The end of the data is not covered: the size is a multiple of the block's, and the offset is not.
abbrev pub one_block_short : (offset size : ℕ) → Bool
one_block_short offset size = ltb 0 (offset % 512) && (size % 512 == 0)

blocks_to_read_cover :
    (offset size : ℕ)
    → one_block_short offset size ≡ false
    → offset % 512 + size ≤ blocks_to_read offset size * 512
unfolding blocks_to_read
blocks_to_read_cover offset size enough = ground arith

blocks_to_read_short :
    (offset size : ℕ)
    → one_block_short offset size ≡ true
    → blocks_to_read offset size * 512 < offset % 512 + size
unfolding blocks_to_read
blocks_to_read_short offset size short = ground arith

-- The blocks that are read belong to the file.
blocks_to_read_within :
    (offset size file_size : ℕ)
    → offset + size ≤ file_size
    → offset / 512 + blocks_to_read offset size ≤ (file_size + 511) / 512
unfolding blocks_to_read
blocks_to_read_within offset size file_size h = ground arith

clamp-min :
    (offset size file_size : ℕ)
    → offset + size < 2 ^ 32
    → offset < file_size
    → clamp offset size file_size ≡ min size (file_size - offset)
unfolding clamp
clamp-min offset size file_size low inside = ground arith

at_end :
    (cursor size file_size : ℕ)
    → leb file_size cursor || (size == 0) ≡ true
    → min size (file_size - cursor) ≡ 0
at_end cursor size file_size ended = ground arith

not_at_end :
    (cursor size file_size : ℕ)
    → leb file_size cursor || (size == 0) ≡ false
    → (cursor < file_size) × (0 < size)
not_at_end cursor size file_size more = ground arith

module _ (p : Partition) (disk : List ℕ) (serves : Serves p disk) (inode : ℕ) where
  -- The copy of the data out of the blocks.
  read_data_copies :
      (offset size : ℕ) (buffer : List ℕ)
      → (inode + 1 + (offset / 512 + blocks_to_read offset size)) * 512 ≤ length disk
      → read_data p true inode offset size buffer
        ≡ copy buffer
            (drop (offset % 512) (
              take
                (blocks_to_read offset size * 512)
                (drop ((inode + 1 + offset / 512) * 512) disk)))
            size
          >>= λ filled. ok (no_err, some size, filled)
  unfolding read_data
  read_data_copies offset size buffer within =
      let addressable = serves.addressable in
      let low : (inode + 1 + offset / 512) % 2 ^ 32 ≡ inode + 1 + offset / 512 = omega arith in
      rw
        (
          low,
          ustar_read_blocks-Serves p disk (inode + 1 + offset / 512) (blocks_to_read offset size)
              serves (omega arith),
        )
        refl

  -- Where the byte `offset` of the file stands on the disk.
  abbrev pub data_at : (offset : ℕ) → ℕ
  data_at offset = (inode + 1) * 512 + offset

  copied_length :
      (offset blocks : ℕ)
      → (inode + 1 + (offset / 512 + blocks)) * 512 ≤ length disk
      → length
          (drop (offset % 512) (take (blocks * 512) (drop ((inode + 1 + offset / 512) * 512) disk)))
        ≡ blocks * 512 - offset % 512
  copied_length offset blocks within =
      let start = (inode + 1 + offset / 512) * 512 in
      omega (
        arith,
        length-drop (offset % 512) (take (blocks * 512) (drop start disk)),
        length-take (blocks * 512) (drop start disk),
        length-drop start disk,
      )

  copied_bytes :
      (offset size blocks : ℕ)
      → offset % 512 + size ≤ blocks * 512
      → take size
          (drop (offset % 512) (take (blocks * 512) (drop ((inode + 1 + offset / 512) * 512) disk)))
        ≡ take size (drop (data_at offset) disk)
  copied_bytes offset size blocks cover =
      let start = (inode + 1 + offset / 512) * 512 in
      take-drop-take size (offset % 512) (blocks * 512) (drop start disk) cover
      ∙ ap (take size) (drop-drop (offset % 512) start disk)
      ∙ ap (λ a. take size (drop a disk)) (omega arith)

  read_data_lem :
      (offset size : ℕ) (buffer : List ℕ)
      → (inode + 1 + (offset / 512 + blocks_to_read offset size)) * 512 ≤ length disk
      → size ≤ length buffer
      → 0 < size
      → read_data p true inode offset size buffer ≡ (
          if one_block_short offset size
          then fault
          else ok (no_err, some size, take size (drop (data_at offset) disk) ++ drop size buffer))
  read_data_lem offset size buffer within room positive =
      let blocks = blocks_to_read offset size in
      let bytes =
        drop (offset % 512) (take (blocks * 512) (drop ((inode + 1 + offset / 512) * 512) disk)) in
      let measured = copied_length offset blocks within in
      read_data_copies offset size buffer within ∙ elim (Bool-cases (one_block_short offset size)) [
        | inl short ↦
            let beyond = blocks_to_read_short offset size short in
            rw (short, copy-fault buffer bytes size (omega (arith, measured, beyond))) refl
        | inr enough ↦
            let cover = blocks_to_read_cover offset size enough in
            rw
              (
                enough,
                copy-ok buffer bytes size (omega (arith, measured, cover)) room,
                copied_bytes offset size blocks cover,
              )
              refl
      ]

  -- The header block of the file, and the size that it says.
  abbrev pub header : List ℕ
  header = take 512 (drop (inode * 512) disk)

  abbrev pub file_size : ℕ
  file_size = oct2uint 0 (size_field header)

  ustar_read_file-read_within :
      (cursor size : ℕ) (buffer : List ℕ)
      → (inode + 1) * 512 ≤ length disk
      → ustar_check_block header ≡ no_err
      → is_file_block header ≡ true
      → ustar_read_file p true inode cursor size (some buffer)
        ≡ read_within p true inode cursor size file_size buffer
  unfolding ustar_read_file
  ustar_read_file-read_within cursor size buffer within magic is_file =
      rw (ustar_read_blocks-Serves p disk inode 1 serves within, magic, is_file) refl

  -- ustar_read_file of a header that is good and of the type of a file, whose data lie on a disk
  -- below 2^32 bytes that the device serves, with memory for its blocks, a cursor and a size
  -- that do not sum up to 2^32 and a buffer of the size, copies n bytes of the file from the
  -- cursor on to the front of the buffer and returns no_err and n, the size or what is left of
  -- the file. If n is a positive multiple of 512 and the cursor is not one, it reads one block
  -- too few and copies beyond the end of its own memory.
  pub ustar_read_file_lem :
      (cursor size : ℕ) (buffer : List ℕ)
      → (inode + 1 + (file_size + 511) / 512) * 512 ≤ length disk
      → ustar_check_block header ≡ no_err
      → is_file_block header ≡ true
      → cursor + size < 2 ^ 32
      → size ≤ length buffer
      → ustar_read_file p true inode cursor size (some buffer) ≡ (
          let n = min size (file_size - cursor) in
          if ltb 0 n && one_block_short cursor n
          then fault
          else ok (no_err, some n, take n (drop (data_at cursor) disk) ++ drop n buffer))
  unfolding read_within
  ustar_read_file_lem cursor size buffer within magic is_file low room =
      let n = min size (file_size - cursor) in
      ustar_read_file-read_within cursor size buffer (omega arith) magic is_file
      ∙ elim (Bool-cases (leb file_size cursor || (size == 0))) [
        | inl ended ↦ rw (ended, at_end cursor size file_size ended) refl
        | inr more ↦
            let (inside, positive) = not_at_end cursor size file_size more in
            let clamped = clamp-min cursor size file_size low inside in
            let some_left : ltb 0 n ≡ true = lt→ltb 0 n (omega arith) in
            let part = blocks_to_read_within cursor n file_size (omega arith) in
            rw
              (
                more,
                clamped,
                some_left,
                read_data_lem cursor n buffer (omega (arith, part)) (omega arith) (omega arith),
              )
              refl
      ]
