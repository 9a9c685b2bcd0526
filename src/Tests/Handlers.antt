-- ===== src/Tests/Handlers.antt =====
-- interrupts.c and exceptions.c on an empty table of handlers.
use utk.Prelude.{
  Bool, arith, incorrect_value, no_err, none, ok, panicked, refl, some, true, ℕ, ◌+◌, ◌==◌, ◌≡◌,
  ◌≢◌,
}
use utk.Interrupts.{
  Handler, Manager, add_handler, div_by_zero_handler, div_by_zero_line, handler_at,
  is_interrupt_line, kernel_exception_init, kernel_interrupt_disable, kernel_interrupt_handler,
  kernel_interrupt_init, kernel_interrupt_register_int_handler, kernel_interrupt_remove_int_handler,
  kernel_interrupt_restore, run_div_by_zero_handler, runs, with_handler,
}
use utk.Interrupts.Dispatch.{
  Registration, register_int-Registration, register_int_runs, remove-register,
}
use utk.Interrupts.Exceptions.{div_by_zero_panics}

abbrev blank : Manager
blank = record {
  handlers = λ i. none;
  int_line = λ irq. irq + 32;
  is_spurious = λ int. int == 39;
  spurious_interrupt = 0;
  enabled = true;
}

abbrev timer : Handler
timer = handler_at 4096

abbrev with_timer : Manager
with_timer = with_handler blank 40 (some timer)

timer_added : kernel_interrupt_register_int_handler blank 40 (some timer) ≡ (no_err, with_timer)
unfolding kernel_interrupt_register_int_handler is_interrupt_line add_handler
    kernel_interrupt_disable kernel_interrupt_restore
timer_added = refl

register_int-Registration_example :
    Registration blank 32 255 40 timer (kernel_interrupt_register_int_handler blank 40 (some timer))
register_int-Registration_example = register_int-Registration blank 40 timer

register_int_runs_example :
    (kernel_interrupt_handler with_timer true 40 ≡ (runs timer, with_timer))
    × ((was_enabled : Bool) (i : ℕ)
        → i ≢ 40
        → (kernel_interrupt_handler with_timer was_enabled i).0
          ≡ (kernel_interrupt_handler blank was_enabled i).0)
register_int_runs_example =
    register_int_runs blank with_timer 40 timer timer_added (omega arith) refl

remove-register_example : kernel_interrupt_remove_int_handler with_timer 40 ≡ (no_err, blank)
remove-register_example = remove-register blank with_timer 40 timer timer_added

div_by_zero_panics_example :
    (m' : Manager) × (kernel_exception_init (kernel_interrupt_init blank) ≡ ok m')
    × (kernel_interrupt_handler m' true div_by_zero_line ≡ (runs div_by_zero_handler, m'))
    × (run_div_by_zero_handler div_by_zero_line true ≡ panicked incorrect_value)
div_by_zero_panics_example = div_by_zero_panics blank true true
