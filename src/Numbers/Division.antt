-- ===== src/Numbers/Division.antt =====
-- __udivmoddi4 of udivmoddi4.c divides.
use utk.Prelude.{
  Bool-cases, Returns, ap, ap₂, arith, false, inl, inr, leb, ltb, ltb→le, mono, refl, returns,
  subst₂, suc, sym, zero, ℕ, ◌%◌, ◌*◌, ◌+◌, ◌-◌, ◌/◌, ◌<◌, ◌==◌, ◌>>=◌, ◌^◌, ◌∙◌, ◌≡◌, ◌≤◌,
}
use utk.Numbers.{Run, ok, subtract_bits, left_justify, udivmoddi4}
use native.Mathlib.Nat.{
  pow-le-pow_right, pow-suc, mul-add-div_right, add-mul, mul-add-mod_self_right, mod-eq_of_lt,
  div-eq_of_lt,
}

-- A number moved to the left.
abbrev pub shl : ℕ → ℕ → ℕ
shl d zero = d
shl d (suc k) = shl d k + shl d k

shl-pos : (d k : ℕ) → 0 < d → 0 < shl d k
shl-pos d zero lt = lt
shl-pos d (suc k) lt = omega (arith, shl-pos d k lt)

shl-mul : (d k : ℕ) → shl 1 k * d ≡ shl d k
shl-mul d zero = omega arith
shl-mul d (suc k) = add-mul (shl 1 k) (shl 1 k) d ∙ ap₂ (λ a b. a + b) (shl-mul d k) (shl-mul d k)

shl-double : (x k : ℕ) → shl (x + x) k ≡ shl x k + shl x k
shl-double x zero = refl
shl-double x (suc k) = omega (arith, shl-double x k)

shl-pow : (k : ℕ) → shl 1 k ≡ 2 ^ k
shl-pow zero = omega arith
shl-pow (suc k) = omega (arith, shl-pow k, pow-suc 2 k)

-- The denominator and the bit, moved to the left so far that the top bit is set.
abbrev Justified : (d : ℕ) → ℕ × ℕ → Type 0
Justified d (den, qbit) =
    (k : ℕ) × (den ≡ shl d k) × (qbit ≡ shl 1 k) × (2 ^ 63 ≤ den) × (den < 2 ^ 64)

module _ (d : ℕ) (positive : 0 < d) where
  shl_one_le : (k : ℕ) → shl 1 k ≤ shl d k
  shl_one_le zero = positive
  shl_one_le (suc k) = omega (arith, shl_one_le k)

  far : (k : ℕ) → 2 ^ k ≤ shl d k
  far k = omega (arith, shl_one_le k, shl-pow k)

  -- The bit leaves no more room than the rounds.
  left_justify-Justified :
      (left k : ℕ)
      → shl d k < 2 ^ 64
      → 2 ^ 64 ≤ shl (shl d k) left
      → Returns (Justified d) (left_justify left (shl d k) (shl 1 k))
  unfolding left_justify
  left_justify-Justified zero k low high = absurd (omega (arith, low, high))
  left_justify-Justified (suc left) k low high = elim (Bool-cases (ltb (shl d k) (2 ^ 63))) [
    | inl under ↦
        let den : shl d k * 2 % 2 ^ 64 ≡ shl d (suc k) = ground (arith, under) in
        let qbit : shl 1 k * 2 % 2 ^ 64 ≡ shl 1 (suc k) = ground (arith, under, shl_one_le k) in
        rw (under, den, qbit)
          (left_justify-Justified left (suc k) (ground (arith, under))
            (omega (arith, high, shl-double (shl d k) left)))
    | inr over ↦ rw over (returns (k, refl, refl, ltb→le (shl d k) (2 ^ 63) over, low))
  ]

  -- The quotient gains `t`, with which the division of what is left comes out.
  abbrev Divided : (num quot : ℕ) → ℕ × ℕ → Type 0
  Divided num quot (q, r) = (t : ℕ) × (q ≡ quot + t) × (t * d + r ≡ num) × (r < d)

  half : (x : ℕ) → (x + x) / 2 ≡ x
  half x = omega arith

  subtract_bits-Divided :
      (k left num quot : ℕ)
      → k < left
      → num < shl d k
      → quot + shl 1 k ≤ 2 ^ 64
      → Returns (Divided num quot) (subtract_bits left num (shl d k / 2) (shl 1 k / 2) quot)
  unfolding subtract_bits
  subtract_bits-Divided k zero num quot enough below room = absurd (omega (arith, enough))
  subtract_bits-Divided zero (suc left) num quot enough below room =
      returns (0, omega arith, omega arith, below)
  subtract_bits-Divided (suc k) (suc left) num quot enough below room =
      let x = shl d k in
      let b = shl 1 k in
      let go_on : (b == 0) ≡ false = ground (arith, shl-pos 1 k (omega arith)) in
      elim (Bool-cases (leb x num)) [
        | inl fits ↦
            let sum : (quot + b) % 2 ^ 64 ≡ quot + b =
              omega (arith, room, shl-pos 1 k (omega arith)) in
            rw (half x, half b, fits, go_on, sum)
              (mono
                (subtract_bits-Divided k left (num - x) (quot + b) (omega (arith, enough))
                  (ground (arith, below, fits)) (omega (arith, room)))
                (λ (q, r) (t, quotient, product, low). (
                  b + t,
                  omega (arith, quotient),
                  ap (λ n. n + r) (add-mul b t d) ∙ ground (arith, product, shl-mul d k, fits),
                  low,
                )))
        | inr over ↦
            rw (half x, half b, over, go_on)
              (subtract_bits-Divided k left num quot (omega (arith, enough)) (ground (arith, over))
                (omega (arith, room)))
      ]

-- A quotient and a remainder are determined.
quotient_of : (num d q r : ℕ) → 0 < d → q * d + r ≡ num → r < d → num / d ≡ q
quotient_of num d q r positive e low =
    ap (λ n. n / d) (sym e)
    ∙ mul-add-div_right positive q r
    ∙ ap (λ n. q + n) (div-eq_of_lt low)
    ∙ omega arith

remainder_of : (num d q r : ℕ) → 0 < d → q * d + r ≡ num → r < d → num % d ≡ r
remainder_of num d q r positive e low =
    ap (λ n. n % d) (sym e) ∙ mul-add-mod_self_right q d r ∙ mod-eq_of_lt low

one_bit_fits : (k : ℕ) → shl 1 k < 2 ^ 64 → (k < 64) × (shl 1 (suc k) ≤ 2 ^ 64)
one_bit_fits k low = elim (Bool-cases (ltb k 64)) [
  | inl under ↦
      let le =
        pow-le-pow_right {n = 2} (omega arith) {i = suc k} {j = 64} (ground (arith, under)) in
      (ground (arith, under), omega (arith, shl-pow (suc k), le))
  | inr over ↦
      let le = pow-le-pow_right {n = 2} (omega arith) {i = 64} {j = k} (ground (arith, over)) in
      absurd (omega (arith, shl-pow k, le, low))
]

-- For a numerator and a denominator of 64 bits, the denominator not 0, __udivmoddi4 ends, within
-- 64 rounds of its first loop and 64 of its second, with the quotient and the remainder.
pub udivmoddi4-divides :
    (num den : ℕ)
    → num < 2 ^ 64
    → 0 < den
    → den < 2 ^ 64
    → udivmoddi4 num den ≡ ok (num / den, num % den)
unfolding udivmoddi4
udivmoddi4-divides num den num_low positive den_low =
    let nonzero : (den == 0) ≡ false = ground (arith, positive) in
    rw nonzero (
      go (left_justify 64 den 1)
        (left_justify-Justified den positive 64 0 den_low (far den positive 64)))
  where
    fits :
        {den' : ℕ} (k : ℕ) → den' ≡ shl den k → den' < 2 ^ 64 → (k < 64) × (shl 1 (suc k) ≤ 2 ^ 64)
    fits k is_den low = one_bit_fits k (omega (arith, shl_one_le den positive k, is_den, low))

    finish :
        (r : Run (ℕ × ℕ)) → Returns (Divided den positive num 0) r → r ≡ ok (num / den, num % den)
    finish _ (returns (t, quotient, product, low)) =
        ap₂ (λ q r. ok (q, r))
          (quotient ∙ omega arith ∙ sym (quotient_of num den t _ positive product low))
          (sym (remainder_of num den t _ positive product low))

    go :
        (r : Run (ℕ × ℕ))
        → Returns (Justified den) r
        → (r >>= λ (den', qbit). subtract_bits 65 num den' qbit 0) ≡ ok (num / den, num % den)
    go _ (returns (k, is_den, is_bit, high, low)) = finish _ (
        subst₂ (λ a b. Returns (Divided den positive num 0) (subtract_bits 65 num a b 0))
          (half den positive (shl den k) ∙ sym is_den) (half den positive (shl 1 k) ∙ sym is_bit)
          (subtract_bits-Divided den positive (suc k) 65 num 0
            (omega (arith, (fits k is_den low).0)) (omega (arith, is_den, high, num_low))
            (omega (arith, (fits k is_den low).1))))
