-- ===== src/Numbers/Digits.antt =====
-- What uitoa.c and itoa.c print reads back as the number.
use utk.Prelude.{
  ==→eq, Bool, Bool-cases, List, Returns, [], ap, arith, false, if◌then◌else◌, inl, inr, ltb, mono,
  none, not, refl, returns, subst, suc, sym, true, zero, ℕ, ◌%◌, ◌*◌, ◌+◌, ◌-◌, ◌/◌, ◌<◌, ◌==◌, ◌^◌,
  ◌∙◌, ◌∷◌, ◌≡◌, ◌≤◌,
}
use utk.Numbers.{some, Option, hex_table, fill_tmp, uitoa}
use native.Mathlib.Nat.{pow-suc, div-add-mod', pow-zero, mul-le-mul_left, div-mul-le_self, mod-lt}

-- The digit that a character of `hex_table` stands for.
abbrev pub digit_of : ℕ → ℕ
digit_of c = if ltb c 58 then c - 48 else c - 55

-- The number that a string stands for, read on from `v`.
abbrev pub reads : (base v : ℕ) → List ℕ → ℕ
reads base v [] = v
reads base v (c ∷ s) = reads base (v * base + digit_of c) s

abbrev pub AllDigits : (base : ℕ) → List ℕ → Type 0
AllDigits base [] = Unit {0}
AllDigits base (c ∷ s) = (48 ≤ c) × (digit_of c < base) × AllDigits base s

-- The first character is not 0.
abbrev pub leads : List ℕ → Bool
leads [] = false
leads (c ∷ s) = not (c == 48)

digit_of-hex_table : (d : ℕ) → d < 16 → digit_of (hex_table d) ≡ d
digit_of-hex_table d low = ground (arith, low)

module _ (base : ℕ) (two : 2 ≤ base) (sixteen : base ≤ 16) where
  record Filled (i : ℕ) (tmp s : List ℕ) : Type 0 where
    number : reads base 0 s ≡ reads base i tmp
    digits : AllDigits base tmp → AllDigits base s
    first : ((i == 0) ≡ true → leads tmp ≡ true) → leads s ≡ true

  quotient_small : (i room : ℕ) → i < 2 ^ suc room → i / base < 2 ^ room
  quotient_small i room low =
      let a = div-mul-le_self i base in
      let b = mul-le-mul_left (i / base) two in omega (arith, a, b, low, pow-suc 2 room)

  not_zero :
      (i : ℕ) → (i == 0) ≡ false → (i / base == 0) ≡ true → not (hex_table (i % base) == 48) ≡ true
  not_zero i more last =
      let quotient = ==→eq (i / base) 0 last in
      let whole : 0 * base + i % base ≡ i =
        subst (λ q. q * base + i % base ≡ i) quotient (div-add-mod' i base) in
      let same : i % base ≡ i = omega (arith, whole) in ground (arith, same, more)

  fill_tmp-Filled :
      (room i : ℕ) (tmp : List ℕ) → i < 2 ^ room → Returns (Filled i tmp) (fill_tmp room i base tmp)
  unfolding fill_tmp
  fill_tmp-Filled zero i tmp low =
      let nothing : i ≡ 0 = omega (arith, low, pow-zero 2) in
      rw nothing (returns (record { number = refl; digits = λ d. d; first = λ f. f refl }))
  fill_tmp-Filled (suc room) i tmp low = elim (Bool-cases (i == 0)) [
    | inl nothing ↦ rw nothing (
        returns (record {
          number = ap (λ n. reads base n tmp) (sym (==→eq i 0 nothing));
          digits = λ d. d;
          first = λ f. f nothing;
        }))
    | inr more ↦
        let remainder : i % base < base = mod-lt i (omega (arith, two)) in
        let digit = digit_of-hex_table (i % base) (omega (arith, remainder, sixteen)) in
        let some_base : (base == 0) ≡ false = ground (arith, two) in
        rw (more, some_base)
          (mono
            (fill_tmp-Filled room (i / base) (hex_table (i % base) ∷ tmp)
              (quotient_small i room low))
            (λ s f. record {
              number =
                  f.number
                  ∙ ap (λ n. reads base n tmp)
                      (ap (λ d. i / base * base + d) digit ∙ div-add-mod' i base);
              digits =
                  λ d. f.digits ((ground arith), subst (λ n. n < base) (sym digit) remainder, d);
              first = λ _. f.first (λ last. not_zero i more last);
            }))
  ]

  -- uitoa
  pub record Printed (i : ℕ) (s : List ℕ) : Type 0 where
    pub number : reads base 0 s ≡ i
    pub digits : AllDigits base s
    pub first : leads s ≡ not (i == 0)

  -- uitoa of a 64-bit number in a base from 2 to 16 ends without a write past its buffer. What
  -- it prints are digits of the base, reads back as the number, and does not begin with 0 unless
  -- the number is 0.
  pub uitoa-Printed : (i : ℕ) → i < 2 ^ 64 → Returns (Printed i) (uitoa i base)
  unfolding uitoa
  uitoa-Printed i low =
      let known : ltb 16 base ≡ false = ground (arith, sixteen) in
      elim (Bool-cases (i == 0)) [
        | inl zero_i ↦ rw zero_i (
            returns (record {
              number = omega (arith, ==→eq i 0 zero_i);
              digits = ((ground arith), (ground (arith, two)), tt);
              first = rw zero_i refl;
            }))
        | inr more ↦
            rw (more, known)
              (mono (fill_tmp-Filled 128 i [] (omega (arith, low))) (λ s f. record {
                number = f.number;
                digits = f.digits tt;
                first = f.first (λ e. absurd (cc (more, e))) ∙ rw more refl;
              }))
      ]

-- The number that a string with a sign stands for.
abbrev pub signed : (base : ℕ) → List ℕ → ℕ
signed base [] = 0
signed base (c ∷ s) = if c == 45 then (2 ^ 64 - reads base 0 s) % 2 ^ 64 else reads base 0 (c ∷ s)

abbrev pub Prints : (base i : ℕ) → Option (List ℕ) → Type 0
Prints base i none = ⊥
Prints base i (some s) = signed base s ≡ i
