-- ===== src/Mutex/Elevation.antt =====
-- The priority that a mutex of mutex.c gives to the thread that takes it.
use Prim.Native.Nat.{bit_or, bit_or-bitwise, digits}
use utk.Prelude.{
  Bool-cases, Error, Option, ap, arith, inl, inr, is_no_err, le→ltb, max, no_err, none, refl, some,
  subst, suc, sym, zero, ℕ, ◌%◌, ◌*◌, ◌/◌, ◌<◌, ◌^◌, ◌∙◌, ◌≡◌, ◌≤◌,
}
use utk.Mutex.{Mutex, Reply, elevation, lock_raise, mutex_init, request, sched_set_params}

-- The digits of `a | b` are no more than those of `a` and `b`.
digits-lt : (k n a b : ℕ) → a ≤ n → a < 2 ^ k → b < 2 ^ k → digits (λ b. b) max n a b < 2 ^ k
digits-lt k zero a b le la lb = lb
digits-lt k (suc n) zero b le la lb = lb
digits-lt zero (suc n) (suc a) b le la lb = absurd (omega arith)
digits-lt (suc k) (suc n) (suc a) b le la lb =
    let rest = digits-lt k n (suc a / 2) (b / 2) (omega arith) (omega arith) (omega arith) in
    omega arith

bit_or-lt : (k a b : ℕ) → a < 2 ^ k → b < 2 ^ k → bit_or a b < 2 ^ k
bit_or-lt k a b la lb =
    subst (λ n. n < 2 ^ k) (sym (λ i. bit_or-bitwise a b i)) (digits-lt k a a b (omega arith) la lb)

abbrev flags_of : Error × Option Mutex → ℕ
flags_of (e, none) = 0
flags_of (e, some m) = m.flags

mutex_init-flags :
    (m : Mutex) (flags priority : ℕ) (r : Reply)
    → priority ≤ 63
    → flags_of (mutex_init (some m) flags priority r) ≡ bit_or flags (priority * 2 ^ 8)
unfolding mutex_init
mutex_init-flags m flags priority r le = elim (Bool-cases (is_no_err r.error)) [
  | inl it ↦ rw (le→ltb 63 priority le, it) refl
  | inr other ↦ rw (le→ltb 63 priority le, other) refl
]

-- A mutex that mutex_init made with any priority of a thread and flags of eight bits asks for
-- priority 0 whenever it is taken: the shift by eight bits is made twice.
pub mutex_init-request :
    (m m' : Mutex) (flags priority : ℕ) (r p : Reply)
    → flags < 2 ^ 8
    → priority ≤ 63
    → mutex_init (some m) flags priority r ≡ (no_err, some m')
    → request m' (lock_raise p) ≡ some (sched_set_params 0)
unfolding request elevation
mutex_init-request m m' flags priority r p lf lp made =
    let word = bit_or flags (priority * 2 ^ 8) in
    let small : word < 2 ^ 16 = bit_or-lt 16 flags (priority * 2 ^ 8) (omega arith) (omega arith) in
    let flags' : m'.flags ≡ word =
      sym (ap flags_of made) ∙ mutex_init-flags m flags priority r lp in
    let zero' : (m'.flags / 2 ^ 8) % 2 ^ 16 / 2 ^ 8 ≡ 0 = omega (arith, flags', small) in
    ap (λ n. some (sched_set_params n)) zero'
