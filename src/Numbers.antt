-- ===== src/Numbers.antt =====
-- Division and printing of numbers, Kernel/Sources/lib/libc/src/udivmoddi4.c, uitoa.c and itoa.c. A
-- 64-bit number is below 2^64; a signed one is in two's complement.
pub mod Division
pub mod Digits
use utk.Prelude.{
  List, Option, Run, [], endless, fault, if◌then◌else◌, leb, ltb, none, ok, some, suc, zero, ℕ, ◌%◌,
  ◌&&◌, ◌*◌, ◌+◌, ◌-◌, ◌/◌, ◌==◌, ◌>>=◌, ◌^◌, ◌||◌, ◌∷◌,
}

-- `while((int64_t)den >= 0)`: the denominator and the bit that stands for it, moved to the left.
unfoldable pub left_justify : ℕ → (den qbit : ℕ) → Run (ℕ × ℕ)
left_justify zero den qbit = endless
left_justify (suc left) den qbit =
    let moved = left_justify left (den * 2 % 2 ^ 64) (qbit * 2 % 2 ^ 64) in
    if ltb den (2 ^ 63) then moved else ok (den, qbit)

-- `while(qbit)`: the quotient and the remainder.
unfoldable pub subtract_bits : ℕ → (num den qbit quot : ℕ) → Run (ℕ × ℕ)
subtract_bits zero num den qbit quot = endless
subtract_bits (suc left) num den qbit quot =
    let fits = leb den num in
    let rest =
      subtract_bits left (if fits then num - den else num) (den / 2) (qbit / 2)
        (if fits then (quot + qbit) % 2 ^ 64 else quot) in
    if qbit == 0 then ok (quot, num) else rest

-- __udivmoddi4, the quotient and the remainder that it writes; a division by zero is a fault.
unfoldable pub udivmoddi4 : (num den : ℕ) → Run (ℕ × ℕ)
udivmoddi4 num den =
    if den == 0
    then fault
    else left_justify 64 den 1 >>= λ (den', qbit). subtract_bits 65 num den' qbit 0

-- `hex_table`
abbrev pub hex_table : ℕ → ℕ
hex_table d = if ltb d 10 then 48 + d else 55 + d

-- `while(i != 0)`: the characters in `tmp`, the last one first, with room for so many more.
unfoldable pub fill_tmp : (room : ℕ) → (i base : ℕ) → (tmp : List ℕ) → Run (List ℕ)
fill_tmp zero i base tmp = if i == 0 then ok tmp else fault
fill_tmp (suc room) i base tmp =
    let rest = fill_tmp room (i / base) base (hex_table (i % base) ∷ tmp) in
    if i == 0 then ok tmp else if base == 0 then fault else rest

-- uitoa: the characters that it writes at `buf`, the terminating 0 left out. The copy loop reads
-- `tmp` from the last character on.
unfoldable pub uitoa : (i base : ℕ) → Run (List ℕ)
uitoa i base = if i == 0 || ltb 16 base then ok (48 ∷ []) else fill_tmp 128 i base []

-- itoa: the characters, none where it writes nothing.
unfoldable pub itoa : (i base : ℕ) → Run (Option (List ℕ))
itoa i base =
    if ltb 16 base
    then ok none
    else if base == 10 && leb (2 ^ 63) i
    then (uitoa ((2 ^ 64 - i) % 2 ^ 64) base >>= λ s. ok (some (45 ∷ s)))
    else uitoa i base >>= λ s. ok (some s)
