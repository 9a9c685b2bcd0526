-- ===== src/Prelude/Outcome.antt =====
-- The error codes of Kernel/Sources/lib/libapi/includes/kernel_error.h, and the outcome of code
-- that reads and writes memory.
use mathlib.Core.Bool.{Bool, true, false}

-- `OS_RETURN_E`
pub data Error : Type 0 where
  no_err null_pointer malloc_failed wrong_signature : Error
  checksum_failed not_supported no_such_irq not_initialized : Error
  incorrect_value no_such_id unauthorized_action no_more_free_mem : Error
  out_of_bound memory_not_mapped mapping_already_exists syscall_unknown : Error
  interrupt_already_registered interrupt_not_registered : Error
  forbidden_priority unauthorized_interrupt_line : Error
  align wrong_partition_type file_not_found dir_not_empty : Error
  name_too_long res_destroyed owner_died div_by_zero : Error

abbrev pub is_no_err : Error → Bool
is_no_err no_err = true
is_no_err _ = false

-- `fault` is an access outside the memory that the code owns, or through a null pointer; `panicked`
-- is a failed kernel assertion, which halts the machine; `endless` is a loop that never ends.
pub data Run {ℓ} (A : Type ℓ) : Type ℓ where
  ok : A → Run A
  fault : Run A
  panicked : Error → Run A
  endless : Run A

infixl 5 ◌>>=◌
abbrev pub ◌>>=◌ {ℓ κ} : {A : Type ℓ} {B : Type κ} → Run A → (A → Run B) → Run B
ok a >>= f = f a
fault >>= f = fault
panicked e >>= f = panicked e
endless >>= f = endless

-- Total correctness: the run ends with no fault and no panic, in a result that `P` holds of.
pub data Returns {ℓ κ} {A : Type ℓ} (P : A → Type κ) : Run A → Type (ℓ ⊔ κ) where
  returns : {a : A} → P a → Returns P (ok a)

pub bind {ℓ κ ι ο} :
    {A : Type ℓ} {B : Type κ} {P : A → Type ι} {Q : B → Type ο} {r : Run A} (f : A → Run B)
    → Returns P r
    → ((a : A) → P a → Returns Q (f a))
    → Returns Q (r >>= f)
bind f (returns p) next = next _ p

pub mono {ℓ κ ι} :
    {A : Type ℓ} {P : A → Type κ} {Q : A → Type ι} {r : Run A}
    → Returns P r
    → ((a : A) → P a → Q a)
    → Returns Q r
mono (returns p) weaken = returns (weaken _ p)

-- What a run that returned must have satisfied.
pub result_of {ℓ κ} : {A : Type ℓ} {P : A → Type κ} {a : A} → Returns P (ok a) → P a
result_of (returns p) = p
