-- ===== src/Interrupts.antt =====
-- The interrupt manager, Kernel/Sources/core/src/interrupts.c, and the exception manager,
-- Kernel/Sources/core/src/exceptions.c, which share the table of handlers. The manager is a record;
-- the functions take it and return it as it is afterwards.
pub mod Dispatch
pub mod Exceptions
use utk.Prelude.{
  Bool, Error, Option, Run, div_by_zero, false, if◌then◌else◌, incorrect_value,
  interrupt_already_registered, interrupt_not_registered, is_no_err, leb, ltb, no_err, no_such_irq,
  none, not, null_pointer, ok, panicked, some, true, unauthorized_interrupt_line, ℕ, ◌%◌, ◌&&◌, ◌+◌,
  ◌==◌, ◌^◌, ◌||◌,
}

-- A function in the table of handlers: the two of the kernel, or any other at its address.
pub data Handler : Type 0 where
  panic_handler div_by_zero_handler : Handler
  handler_at : (address : ℕ) → Handler

-- `interrupt_driver_t`; a field is none where its pointer is NULL. `set_irq_mask` and `set_irq_eoi`
-- act on the hardware, so only their presence is kept. A line is an `int32_t` as its bits.
pub record Driver : Type 0 where
  pub get_irq_int_line : Option (ℕ → ℕ)
  pub handle_spurious : Option (ℕ → Bool)
  pub set_irq_eoi : Bool
  pub set_irq_mask : Bool

-- The globals of interrupts.c, and the interrupt flag of the processor. The driver's functions are
-- those of a driver with no NULL pointer.
pub record Manager : Type 0 where
  pub handlers : ℕ → Option Handler
  pub int_line : ℕ → ℕ
  pub is_spurious : ℕ → Bool
  pub spurious_interrupt : ℕ
  pub enabled : Bool

abbrev pub entry_count : ℕ
entry_count = 256

abbrev pub min_interrupt_line : ℕ
min_interrupt_line = 32

abbrev pub max_exception_line : ℕ
max_exception_line = 31

abbrev pub scheduler_sw_int_line : ℕ
scheduler_sw_int_line = 33

abbrev pub panic_int_line : ℕ
panic_int_line = 42

-- The state of the flag before the call, and the manager with the flag off.
unfoldable pub kernel_interrupt_disable : Manager → Bool × Manager
kernel_interrupt_disable m =
    if not m.enabled then (false, m) else (true, record m { enabled = false })

unfoldable pub kernel_interrupt_restore : Bool → Manager → Manager
kernel_interrupt_restore prev_state m = if prev_state then record m { enabled = true } else m

-- `kernel_interrupt_handlers[line].handler = handler`
abbrev pub with_handler : Manager → ℕ → Option Handler → Manager
with_handler m line handler = record m {
  handlers = λ i. if i == line then handler else m.handlers i;
}

-- The critical section of the functions that register a handler.
unfoldable pub add_handler : Manager → ℕ → Handler → Error × Manager
unfolding kernel_interrupt_disable kernel_interrupt_restore
add_handler m line handler =
    let (int_state, m') = kernel_interrupt_disable m in
    elim (m'.handlers line) [
      | some h ↦ (interrupt_already_registered, kernel_interrupt_restore int_state m')
      | none ↦ (no_err, kernel_interrupt_restore int_state (with_handler m' line (some handler)))
    ]

-- The critical section of the functions that remove a handler.
pub drop_handler : Manager → ℕ → Error × Manager
unfolding kernel_interrupt_disable kernel_interrupt_restore
drop_handler m line =
    let (int_state, m') = kernel_interrupt_disable m in
    elim (m'.handlers line) [
      | none ↦ (interrupt_not_registered, kernel_interrupt_restore int_state m')
      | some h ↦ (no_err, kernel_interrupt_restore int_state (with_handler m' line none))
    ]

unfoldable pub is_interrupt_line : ℕ → Bool
is_interrupt_line line = not (ltb line min_interrupt_line || ltb 255 line)

unfoldable pub kernel_interrupt_register_int_handler :
    Manager → ℕ → Option Handler → Error × Manager
unfolding add_handler is_interrupt_line
kernel_interrupt_register_int_handler m line none =
    if not (is_interrupt_line line) then (unauthorized_interrupt_line, m) else (null_pointer, m)
kernel_interrupt_register_int_handler m line (some h) =
    if not (is_interrupt_line line) then (unauthorized_interrupt_line, m) else add_handler m line h

pub kernel_interrupt_remove_int_handler : Manager → ℕ → Error × Manager
unfolding drop_handler is_interrupt_line
kernel_interrupt_remove_int_handler m line =
    if not (is_interrupt_line line) then (unauthorized_interrupt_line, m) else drop_handler m line

-- A negative line is one of the upper half of the bits.
pub kernel_interrupt_register_irq_handler : Manager → ℕ → Option Handler → Error × Manager
unfolding kernel_interrupt_register_int_handler
kernel_interrupt_register_irq_handler m irq_number handler =
    if leb (2 ^ 31) (m.int_line irq_number)
    then (no_such_irq, m)
    else kernel_interrupt_register_int_handler m (m.int_line irq_number) handler

pub kernel_interrupt_remove_irq_handler : Manager → ℕ → Error × Manager
unfolding kernel_interrupt_remove_int_handler
kernel_interrupt_remove_irq_handler m irq_number =
    if leb (2 ^ 31) (m.int_line irq_number)
    then (no_such_irq, m)
    else kernel_interrupt_remove_int_handler m (m.int_line irq_number)

-- The drivers' functions until a driver is set.
pub kernel_interrupt_init : Manager → Manager
unfolding kernel_interrupt_disable
kernel_interrupt_init m =
    let cleared = record m {
      handlers = λ i. if i == panic_int_line then some panic_handler else none;
    } in
    let (_, m') = kernel_interrupt_disable cleared in
    record m' { spurious_interrupt = 0; int_line = λ irq. 0; is_spurious = λ int. false }

set_driver : Manager → (ℕ → ℕ) → (ℕ → Bool) → Manager
unfolding kernel_interrupt_disable kernel_interrupt_restore
set_driver m get_irq_int_line handle_spurious =
    let (int_state, m') = kernel_interrupt_disable m in
    kernel_interrupt_restore int_state
      (record m' { int_line = get_irq_int_line; is_spurious = handle_spurious })

pub kernel_interrupt_set_driver : Manager → Option Driver → Error × Manager
unfolding set_driver
kernel_interrupt_set_driver m none = (null_pointer, m)
kernel_interrupt_set_driver m (some d) =
    if not (d.set_irq_eoi && d.set_irq_mask) then (null_pointer, m) else (elim d.handle_spurious [
      | none ↦ (null_pointer, m)
      | some spurious ↦ elim d.get_irq_int_line [
        | none ↦ (null_pointer, m)
        | some line ↦ (no_err, set_driver m line spurious)
      ]
    ])

-- What becomes of an interrupt.
pub data Outcome : Type 0 where
  blocked : Outcome
  spurious : Outcome
  runs : Handler → Outcome

-- The handler of the table, or the panic handler.
pub select_handler : Manager → ℕ → Handler
select_handler m int_id = elim (m.handlers int_id) [
  | none ↦ panic_handler
  | some h ↦ if ltb int_id entry_count then h else panic_handler
]

-- `was_enabled` is the interrupt flag of the interrupted code. panic_handler does not return.
pub kernel_interrupt_handler : Manager → (was_enabled : Bool) → (int_id : ℕ) → Outcome × Manager
unfolding select_handler
kernel_interrupt_handler m was_enabled int_id =
    if not was_enabled
      && not (int_id == panic_int_line)
      && not (int_id == scheduler_sw_int_line)
      && leb min_interrupt_line int_id
    then (blocked, m)
    else if int_id == panic_int_line
    then (runs panic_handler, m)
    else if m.is_spurious int_id
    then (spurious, record m { spurious_interrupt = (m.spurious_interrupt + 1) % 2 ^ 32 })
    else (runs (select_handler m int_id), m)

-- `(int32_t)exception_line < MIN_EXCEPTION_LINE || exception_line > MAX_EXCEPTION_LINE`
pub is_exception_line : ℕ → Bool
is_exception_line line = not (leb (2 ^ 31) line || ltb max_exception_line line)

pub kernel_exception_register_handler : Manager → ℕ → Option Handler → Error × Manager
unfolding add_handler is_exception_line
kernel_exception_register_handler m line none =
    if not (is_exception_line line) then (unauthorized_interrupt_line, m) else (null_pointer, m)
kernel_exception_register_handler m line (some h) =
    if not (is_exception_line line) then (unauthorized_interrupt_line, m) else add_handler m line h

pub kernel_exception_remove_handler : Manager → ℕ → Error × Manager
unfolding drop_handler is_exception_line
kernel_exception_remove_handler m line =
    if not (is_exception_line line) then (unauthorized_interrupt_line, m) else drop_handler m line

abbrev pub div_by_zero_line : ℕ
div_by_zero_line = 0

pub kernel_exception_init : Manager → Run Manager
unfolding kernel_exception_register_handler
kernel_exception_init m =
    let (err, m') =
      kernel_exception_register_handler m div_by_zero_line (some div_by_zero_handler) in
    if is_no_err err then ok m' else panicked err

-- The body of div_by_zero_handler; `in_process` says that there is a current process.
pub run_div_by_zero_handler : (int_id : ℕ) → (in_process : Bool) → Run Bool
run_div_by_zero_handler int_id in_process =
    if int_id == div_by_zero_line
    then panicked incorrect_value
    else if in_process
    then ok true
    else panicked div_by_zero
