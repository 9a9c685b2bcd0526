-- ===== src/Interrupts/Exceptions.antt =====
-- The division by zero of exceptions.c.
use utk.Prelude.{
  Bool, Bool-cases, arith, false, incorrect_value, inl, inr, none, ok, panicked, refl, some, ◌≡◌,
}
use utk.Interrupts.{
  Manager, div_by_zero_handler, div_by_zero_line, is_exception_line, kernel_exception_init,
  kernel_exception_register_handler, kernel_interrupt_disable, kernel_interrupt_handler,
  kernel_interrupt_init, run_div_by_zero_handler, runs, with_handler,
}
use utk.Interrupts.Dispatch.{add_handler-free, select_handler-same}

init-blank : (m : Manager) → (kernel_interrupt_init m).handlers 0 ≡ none
unfolding kernel_interrupt_init kernel_interrupt_disable
init-blank m = elim (Bool-cases m.enabled) [ inl on ↦ rw on refl | inr off ↦ rw off refl ]

init-regular : (m : Manager) → (kernel_interrupt_init m).is_spurious 0 ≡ false
unfolding kernel_interrupt_init
init-regular m = refl

exception_init-free :
    (m : Manager)
    → m.handlers 0 ≡ none
    → kernel_exception_init m ≡ ok (with_handler m 0 (some div_by_zero_handler))
unfolding kernel_exception_init kernel_exception_register_handler is_exception_line
exception_init-free m free = rw (add_handler-free m 0 div_by_zero_handler free) refl

-- The handler of the division by zero is reached with the line that it asserts it is not reached
-- with: after kernel_interrupt_init and kernel_exception_init, every division by zero halts the
-- kernel with incorrect_value, one in a process too.
pub div_by_zero_panics :
    (m : Manager) (was_enabled in_process : Bool)
    → (m' : Manager) × (kernel_exception_init (kernel_interrupt_init m) ≡ ok m')
      × (kernel_interrupt_handler m' was_enabled div_by_zero_line ≡ (runs div_by_zero_handler, m'))
      × (run_div_by_zero_handler div_by_zero_line in_process ≡ panicked incorrect_value)
unfolding kernel_interrupt_handler run_div_by_zero_handler
div_by_zero_panics m was_enabled in_process =
    let m0 = kernel_interrupt_init m in
    let m1 = with_handler m0 0 (some div_by_zero_handler) in
    (
      m1,
      exception_init-free m0 (init-blank m),
      elim (Bool-cases was_enabled) [
        | inl on ↦
            rw (on, init-regular m, select_handler-same m0 0 div_by_zero_handler (omega arith)) refl
        | inr off ↦
            rw (off, init-regular m, select_handler-same m0 0 div_by_zero_handler (omega arith))
              refl
      ],
      refl,
    )
