-- ===== src/Ustar/Next.antt =====
-- The file that ustar_get_next_file of ustar_fs.c goes on to, and that its loop ends.
use utk.Prelude.{
  Bool, Bool-cases, List, Returns, arith, bind, drop, false, inl, inr, is_no_err, leb, leb→gt,
  leb→le, length, mono, returns, set, suc, take, true, zero, ℕ, ◌*◌, ◌+◌, ◌/◌, ◌<◌, ◌^◌, ◌≡◌, ◌≤◌,
}
use utk.Ustar.{
  Partition, field, oct2uint, ustar_check_block, is_named, step_size, next_inode,
  ustar_get_next_file,
}
use utk.Ustar.Blocks.{Serves, Ends, ustar_read_blocks-Serves, ustar_read_blocks-Ends}

step_size_blocks :
    (file_size : ℕ)
    → file_size + 1024 ≤ 2 ^ 32
    → step_size file_size / 512 ≡ 1 + (file_size + 511) / 512
step_size_blocks file_size low = ground arith

module _ (disk : List ℕ) where
  -- The header block at `inode`, the size of its file and the inode behind its data.
  abbrev pub header_at : (inode : ℕ) → List ℕ
  header_at inode = take 512 (drop (inode * 512) disk)

  abbrev pub file_size_at : (inode : ℕ) → ℕ
  file_size_at inode = oct2uint 0 (field 124 11 (header_at inode))

  abbrev pub behind : (inode : ℕ) → ℕ
  behind inode = inode + 1 + (file_size_at inode + 511) / 512

  -- Every header has its data on the disk.
  pub record IsArchive : Type 0 where
    pub contained :
        (inode : ℕ)
        → is_no_err (ustar_check_block (header_at inode)) ≡ true
        → behind inode * 512 ≤ length disk

  abbrev pub is_good : (inode : ℕ) → Bool
  is_good inode = is_no_err (ustar_check_block (header_at inode))

  -- From a header to itself or a later one, past good headers; those behind the first have no name.
  pub data Passes : (from to : ℕ) → Type 0 where
    stay : {from : ℕ} → Passes from from
    skip :
        {from to : ℕ}
        → is_good from ≡ true
        → is_named (header_at (behind from)) ≡ false
        → Passes (behind from) to
        → Passes from to

  -- The block and the inode of the next file, or, with its name cleared, the last header that was
  -- read: it is not good, or the disk ends behind its data. No header in between has a name.
  pub data NextFile (from : ℕ) : List ℕ × ℕ → Type 0 where
    found :
        {last : ℕ}
        → Passes from last
        → is_good last ≡ true
        → (behind last + 1) * 512 ≤ length disk
        → is_named (header_at (behind last)) ≡ true
        → NextFile from (header_at (behind last), behind last)
    not_good :
        {last : ℕ}
        → Passes from last
        → is_good last ≡ false
        → NextFile from (set (header_at last) 0 0, last)
    ended :
        {last : ℕ}
        → Passes from last
        → is_good last ≡ true
        → length disk < (behind last + 1) * 512
        → NextFile from (set (header_at last) 0 0, behind last)

  skip_header :
      {from : ℕ}
      → is_good from ≡ true
      → is_named (header_at (behind from)) ≡ false
      → (r : List ℕ × ℕ) → NextFile (behind from) r
      → NextFile from r
  skip_header good unnamed _ (found p g within named) = found (skip good unnamed p) g within named
  skip_header good unnamed _ (not_good p g) = not_good (skip good unnamed p) g
  skip_header good unnamed _ (ended p g beyond) = ended (skip good unnamed p) g beyond

  next_inode-behind :
      (inode : ℕ)
      → behind inode * 512 ≤ length disk
      → length disk < 2 ^ 32
      → next_inode inode (header_at inode) ≡ behind inode
  unfolding next_inode
  next_inode-behind inode within low =
      let blocks = step_size_blocks (file_size_at inode) (omega arith) in omega (arith, blocks)

module _ (p : Partition) (disk : List ℕ) (serves : Serves p disk) (ends : Ends p disk)
    (archive : IsArchive disk) where
  -- From a header on a disk below 2^32 bytes that the device serves, and beyond which it refuses
  -- to read, ustar_get_next_file ends, within as many rounds as there are blocks from the header
  -- to beyond the end of the disk, if every good header has its data on the disk. It gives the
  -- first header behind that has a name, if the headers up to it are good and on the disk.
  -- Otherwise it gives the last header before that, with its name cleared: one that is not good,
  -- or one whose data end where no block of the disk follows.
  pub ustar_get_next_file-NextFile :
      (rounds inode : ℕ)
      → length disk < (inode + rounds) * 512
      → (inode + 1) * 512 ≤ length disk
      → Returns (NextFile disk inode) (ustar_get_next_file rounds p (header_at disk inode) inode)
  unfolding ustar_get_next_file
  ustar_get_next_file-NextFile zero inode enough inside = absurd (omega arith)
  ustar_get_next_file-NextFile (suc left) inode enough inside =
      elim (Bool-cases (is_good disk inode)) [
        | inr other ↦ rw other (returns (not_good stay other))
        | inl good ↦
            let within = archive.contained inode good in
            let addressable = serves.addressable in
            let to = behind disk inode in
            let read = next_inode-behind disk inode within (omega arith) in
            elim (Bool-cases (leb ((to + 1) * 512) (length disk))) [
              | inr beyond ↦
                  let over = leb→gt ((to + 1) * 512) (length disk) beyond in
                  rw (good, read)
                    (bind _ (ustar_read_blocks-Ends p disk to serves ends within over)
                      (λ (err, block) failed. rw failed (returns (ended stay good over))))
              | inl more ↦
                  let fits = leb→le ((to + 1) * 512) (length disk) more in
                  rw (good, read, ustar_read_blocks-Serves p disk to 1 serves fits)
                    (elim (Bool-cases (is_named (header_at disk to))) [
                      | inl named ↦ rw named (returns (found stay good fits named))
                      | inr unnamed ↦ rw unnamed (
                          mono (ustar_get_next_file-NextFile left to (omega arith) fits)
                            (skip_header disk good unnamed))
                    ])
            ]
      ]
