-- ===== src/Tests/Numerals.antt =====
-- Numbers divided and printed by the libc.
use utk.Prelude.{Returns, [], arith, fault, ok, refl, some, ◌%◌, ◌-◌, ◌/◌, ◌^◌, ◌∷◌, ◌≡◌}
use utk.Numbers.{fill_tmp, uitoa, itoa, udivmoddi4}
use utk.Numbers.Division.{udivmoddi4-divides}
use utk.Numbers.Digits.{Printed, uitoa-Printed}

udivmoddi4-divides_example : udivmoddi4 1000 7 ≡ ok (1000 / 7, 1000 % 7)
udivmoddi4-divides_example = udivmoddi4-divides 1000 7 (omega arith) (omega arith) (omega arith)

uitoa-Printed_example : Returns (Printed 16 (omega arith) (omega arith) 48879) (uitoa 48879 16)
uitoa-Printed_example = uitoa-Printed 16 (omega arith) (omega arith) 48879 (omega arith)

beef : uitoa 48879 16 ≡ ok (66 ∷ 69 ∷ 69 ∷ 70 ∷ [])
unfolding uitoa fill_tmp
beef = refl

minus_42 : itoa (2 ^ 64 - 42) 10 ≡ ok (some (45 ∷ 52 ∷ 50 ∷ []))
unfolding itoa uitoa fill_tmp
minus_42 = refl

-- In base 1 the buffer overflows.
overflow : uitoa 5 1 ≡ fault
unfolding uitoa fill_tmp
overflow = refl
