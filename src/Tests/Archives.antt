-- ===== src/Tests/Archives.antt =====
-- An archive of ustar_fs.c on a disk of five blocks.
use utk.Prelude.{
  Bool, Bool-cases, List, Returns, [], ap, arith, drop, false, fault, gt→leb, if◌then◌else◌, inl,
  inr, is_no_err, leb, leb→le, length, le→leb, ltb, ltb→le, ltb→lt, no_err, not, ok, out_of_bound,
  refl, replicate, some, suc, sym, take, true, wrong_partition_type, zero, ℕ, ◌&&◌, ◌*◌, ◌++◌, ◌+◌,
  ◌-◌, ◌<◌, ◌||◌, ◌∙◌, ◌∷◌, ◌≡◌, ◌≤◌,
}
use mathlib.Core.Bool.{true≢false, false≢true}
use utk.Memory.{copy}
use utk.Ustar.{
  read_within, read_data, blocks_to_read, clamp, ustar_to_vfs_type, next_inode, Partition,
  ustar_magic, ustar_read_file, ustar_get_next_file, ustar_read_blocks, ustar_check_block, oct2uint,
}
use utk.Ustar.Blocks.{Serves, Ends, whole}
use utk.Ustar.Read.{ustar_read_file_lem}
use utk.Ustar.Next.{IsArchive, NextFile, header_at, behind, ustar_get_next_file-NextFile}

-- A header block with a name of one character.
abbrev header_of : (name : ℕ) → (size : List ℕ) → List ℕ
header_of name size =
    (name ∷ replicate 123 0)
    ++ size
    ++ replicate 21 0
    ++ (48 ∷ replicate 100 0)
    ++ ustar_magic
    ++ replicate 249 0

abbrev size_0 : List ℕ
size_0 = replicate 11 48

-- 513 in octal.
abbrev size_513 : List ℕ
size_513 = replicate 7 48 ++ 49 ∷ 48 ∷ 48 ∷ 49 ∷ []

-- A file of 513 bytes, a removed one and an empty one.
abbrev disk : List ℕ
disk = header_of 65 size_513 ++ replicate 1024 7 ++ header_of 0 size_0 ++ header_of 66 size_0

abbrev drive : Partition
drive = record {
  first_block = 1;
  device = record {
    block_size = 512;
    read_blocks = λ block size offset.
        let at = (block - 1) * 512 + offset in
        if leb (at + size) (length disk)
        then (no_err, take size (drop at disk))
        else (out_of_bound, []);
  };
}

length-disk : length disk ≡ 2560
length-disk = refl

drive-Serves : Serves drive disk
drive-Serves = record {
  aligned = whole 1 (omega arith) refl;
  addressable = omega (arith, length-disk);
  serve = λ block size offset inside.
      let same : 1 + block - 1 ≡ block = omega arith in
      rw (same, le→leb (block * 512 + offset + size) (length disk) inside) refl;
}

drive-Ends : Ends drive disk
drive-Ends = record {
  refuse = λ block size offset beyond.
      let same : 1 + block - 1 ≡ block = omega arith in
      rw (same, gt→leb (block * 512 + offset + size) (length disk) beyond) refl;
}

-- A test that all numbers below a bound pass.
abbrev all_below : ℕ → (ℕ → Bool) → Bool
all_below zero test = true
all_below (suc n) test = test n && all_below n test

all_below_lem : (n : ℕ) (test : ℕ → Bool) (i : ℕ) → all_below n test ≡ true → i < n → test i ≡ true
all_below_lem zero test i h low = absurd (omega arith)
all_below_lem (suc n) test i h low = ground (arith, all_below_lem n test i)

-- A header that is good has its data on the disk.
abbrev fits : ℕ → Bool
fits inode =
    not (is_no_err (ustar_check_block (header_at disk inode)))
    || leb (behind disk inode * 512) (length disk)

fits_below : all_below 5 fits ≡ true
unfolding ustar_check_block oct2uint
fits_below = refl

drop_all : (n : ℕ) (xs : List ℕ) → length xs ≤ n → drop n xs ≡ []
drop_all zero [] h = refl
drop_all zero (x ∷ xs) h = absurd (omega arith)
drop_all (suc n) [] h = refl
drop_all (suc n) (x ∷ xs) h = drop_all n xs (omega arith)

nothing_beyond :
    (inode : ℕ) → 5 ≤ inode → ustar_check_block (header_at disk inode) ≡ wrong_partition_type
unfolding ustar_check_block
nothing_beyond inode high = rw (drop_all (inode * 512) disk (omega (arith, length-disk))) refl

implied : (a b : Bool) → (not a || b) ≡ true → a ≡ true → b ≡ true
implied true b h good = h
implied false b h good = absurd (false≢true good)

disk-IsArchive : IsArchive disk
disk-IsArchive = record {
  contained = λ inode good. elim (Bool-cases (ltb inode 5)) [
    | inl low ↦
        leb→le _ _ (implied _ _ (all_below_lem 5 fits inode fits_below (ltb→lt inode 5 low)) good)
    | inr high ↦
        absurd (true≢false (sym good ∙ ap is_no_err (nothing_beyond inode (ltb→le inode 5 high))))
  ];
}

ustar_read_file_lem_example :
    ustar_read_file drive true 0 510 10 (some (replicate 10 0))
    ≡ ok (no_err, some 3, replicate 3 7 ++ replicate 7 0)
unfolding oct2uint ustar_check_block ustar_to_vfs_type
ustar_read_file_lem_example =
    ustar_read_file_lem drive disk drive-Serves 0 510 10 (replicate 10 0)
      (omega (arith, length-disk)) refl refl (omega arith) (omega arith)

-- 512 bytes that begin inside of a block: one block too few is read.
overrun : ustar_read_file drive true 0 1 512 (some (replicate 512 0)) ≡ fault
unfolding ustar_read_file read_within read_data blocks_to_read clamp ustar_read_blocks
    ustar_check_block ustar_to_vfs_type oct2uint copy
overrun = refl

ustar_get_next_file-NextFile_example :
    Returns (NextFile disk 0) (ustar_get_next_file 6 drive (header_at disk 0) 0)
ustar_get_next_file-NextFile_example =
    ustar_get_next_file-NextFile drive disk drive-Serves drive-Ends disk-IsArchive 6 0
      (omega (arith, length-disk)) (omega (arith, length-disk))

-- The removed file is passed over.
next_file : ustar_get_next_file 6 drive (header_at disk 0) 0 ≡ ok (header_of 66 size_0, 4)
unfolding ustar_get_next_file ustar_read_blocks ustar_check_block oct2uint next_inode
next_file = refl
