-- ===== src/Interrupts/Dispatch.antt =====
-- What kernel_interrupt_handler runs after a handler is registered or removed.
use utk.Prelude.{
  ==_refl, ==→eq, Bool, Bool-cases, Error, Option, Option-cases, ap, arith, false, if◌then◌else◌,
  inl, inr, interrupt_already_registered, leb, lt→ltb, ne→==, no_err, none, not, refl, some, subst,
  sym, true, unauthorized_interrupt_line, ℕ, ◌&&◌, ◌<◌, ◌==◌, ◌∙◌, ◌≡◌, ◌≢◌, ◌≤◌, ◌⊎◌,
}
use utk.Interrupts.{
  Handler, Manager, Outcome, add_handler, blocked, drop_handler, is_exception_line,
  is_interrupt_line, kernel_exception_register_handler, kernel_interrupt_disable,
  kernel_interrupt_handler, kernel_interrupt_register_int_handler,
  kernel_interrupt_remove_int_handler, kernel_interrupt_restore, min_interrupt_line, panic_handler,
  panic_int_line, runs, scheduler_sw_int_line, select_handler, spurious, with_handler,
}

pub add_handler-free :
    (m : Manager) (line : ℕ) (h : Handler)
    → m.handlers line ≡ none
    → add_handler m line h ≡ (no_err, with_handler m line (some h))
unfolding add_handler kernel_interrupt_disable kernel_interrupt_restore
add_handler-free m line h free = elim (Bool-cases m.enabled) [
  | inl on ↦ rw (on, free) refl
  | inr off ↦ rw (off, free) refl
]

add_handler-occupied :
    (m : Manager) (line : ℕ) (h g : Handler)
    → m.handlers line ≡ some g
    → add_handler m line h ≡ (interrupt_already_registered, m)
unfolding add_handler kernel_interrupt_disable kernel_interrupt_restore
add_handler-occupied m line h g there = elim (Bool-cases m.enabled) [
  | inl on ↦ rw (on, there) refl
  | inr off ↦ rw (off, there) refl
]

drop_handler-occupied :
    (m : Manager) (line : ℕ) (g : Handler)
    → m.handlers line ≡ some g
    → drop_handler m line ≡ (no_err, with_handler m line none)
unfolding drop_handler kernel_interrupt_disable kernel_interrupt_restore
drop_handler-occupied m line g there = elim (Bool-cases m.enabled) [
  | inl on ↦ rw (on, there) refl
  | inr off ↦ rw (off, there) refl
]

-- What a registration on a line ends in, where the lines from `low` to `high` can have a handler.
pub data Registration (m : Manager) (low high line : ℕ) (h : Handler)
    : Error × Manager → Type 0 where
  outside :
      (line < low) ⊎ (high < line) → Registration m low high line h (unauthorized_interrupt_line, m)
  occupied :
      (g : Handler)
      → low ≤ line
      → line ≤ high
      → m.handlers line ≡ some g
      → Registration m low high line h (interrupt_already_registered, m)
  added :
      low ≤ line
      → line ≤ high
      → m.handlers line ≡ none
      → Registration m low high line h (no_err, with_handler m line (some h))

-- A test for the lines from `low` to `high`.
abbrev Tests : (low high line : ℕ) → Bool → Type 0
Tests low high line valid =
    (valid ≡ true → (low ≤ line) × (line ≤ high)) × (valid ≡ false → (line < low) ⊎ (high < line))

is_interrupt_line-Tests : (line : ℕ) → Tests 32 255 line (is_interrupt_line line)
unfolding is_interrupt_line
is_interrupt_line-Tests line = (λ e. ground arith, λ e. ground arith)

is_exception_line-Tests : (line : ℕ) → Tests 0 31 line (is_exception_line line)
unfolding is_exception_line
is_exception_line-Tests line = (λ e. ground arith, λ e. ground arith)

add_handler-Registration :
    (m : Manager) (low high : ℕ) (valid : Bool) (line : ℕ) (h : Handler)
    → Tests low high line valid
    → Registration m low high line h
        (if not valid then (unauthorized_interrupt_line, m) else add_handler m line h)
add_handler-Registration m low high false line h (inside, beyond) = outside (beyond refl)
add_handler-Registration m low high true line h (inside, beyond) =
    let (from, to) = inside refl in
    elim (Option-cases (m.handlers line)) [
      | inl free ↦
          subst (Registration m low high line h) (sym (add_handler-free m line h free))
            (added from to free)
      | inr (g, there) ↦
          subst (Registration m low high line h) (sym (add_handler-occupied m line h g there))
            (occupied g from to there)
    ]

-- kernel_interrupt_register_int_handler puts the handler on the line and changes nothing else,
-- if the line is one of 32 to 255 and has none; otherwise it leaves the manager as it is, with
-- unauthorized_interrupt_line for a line below 32 or above 255, or interrupt_already_registered.
-- The interrupt flag is restored.
pub register_int-Registration :
    (m : Manager) (line : ℕ) (h : Handler)
    → Registration m 32 255 line h (kernel_interrupt_register_int_handler m line (some h))
unfolding kernel_interrupt_register_int_handler
register_int-Registration m line h =
    add_handler-Registration m 32 255 (is_interrupt_line line) line h (is_interrupt_line-Tests line)

-- kernel_exception_register_handler puts the handler on the line and changes nothing else, if
-- the line is one of 0 to 31 and has none; otherwise it leaves the manager as it is, with
-- unauthorized_interrupt_line or interrupt_already_registered. The interrupt flag is restored.
pub register_exception-Registration :
    (m : Manager) (line : ℕ) (h : Handler)
    → Registration m 0 31 line h (kernel_exception_register_handler m line (some h))
unfolding kernel_exception_register_handler
register_exception-Registration m line h =
    add_handler-Registration m 0 31 (is_exception_line line) line h (is_exception_line-Tests line)

-- What a successful registration leaves.
registered :
    (m : Manager) (low high line : ℕ) (h : Handler) (m' : Manager)
    → Registration m low high line h (no_err, m')
    → ((low ≤ line) × (line ≤ high))
      × (m.handlers line ≡ none)
      × (with_handler m line (some h) ≡ m')
registered m low high line h _ (added from to free) = ((from, to), free, refl)

pub select_handler-same :
    (m : Manager) (line : ℕ) (h : Handler)
    → line < 256
    → select_handler (with_handler m line (some h)) line ≡ h
unfolding select_handler
select_handler-same m line h small = rw (select_handler, ==_refl line, lt→ltb line 256 small) refl

select_handler-other :
    (m : Manager) (line : ℕ) (o : Option Handler) (i : ℕ)
    → i ≢ line
    → select_handler (with_handler m line o) i ≡ select_handler m i
unfolding select_handler
select_handler-other m line o i ne = rw (select_handler, ne→== i line ne) refl

is_interrupt_line-of_bounds :
    (line : ℕ) → (32 ≤ line) × (line ≤ 255) → is_interrupt_line line ≡ true
unfolding is_interrupt_line
is_interrupt_line-of_bounds line (from, to) = ground arith

if-first :
    {A B : Type 0} (b : Bool) (x y : A × B) → (if b then x else y).0 ≡ (if b then x.0 else y.0)
if-first true x y = refl
if-first false x y = refl

-- The outcome of an interrupt, given the handler that is selected for it.
abbrev outcome_with : Manager → Bool → ℕ → Handler → Outcome
outcome_with m was_enabled i g =
    if not was_enabled
      && not (i == panic_int_line)
      && not (i == scheduler_sw_int_line)
      && leb min_interrupt_line i
    then blocked
    else if i == panic_int_line
    then runs panic_handler
    else if m.is_spurious i
    then spurious
    else runs g

handler-outcome_with :
    (m : Manager) (was_enabled : Bool) (i : ℕ)
    → (kernel_interrupt_handler m was_enabled i).0
      ≡ outcome_with m was_enabled i (select_handler m i)
unfolding kernel_interrupt_handler
handler-outcome_with m was_enabled i =
    let c =
      not was_enabled
      && not (i == panic_int_line)
      && not (i == scheduler_sw_int_line)
      && leb min_interrupt_line i in
    if-first c _ _
    ∙ ap (λ o. if c then blocked else o)
        (if-first (i == panic_int_line) _ _
          ∙ ap (λ o. if i == panic_int_line then runs panic_handler else o)
              (if-first (m.is_spurious i) _ _))

-- Once a handler is registered, an interrupt on its line that is not spurious, nor the panic
-- interrupt, runs it, when interrupts were enabled; every other interrupt has the outcome it had.
pub register_int_runs :
    (m m' : Manager) (line : ℕ) (h : Handler)
    → kernel_interrupt_register_int_handler m line (some h) ≡ (no_err, m')
    → line ≢ panic_int_line
    → m.is_spurious line ≡ false
    → (kernel_interrupt_handler m' true line ≡ (runs h, m'))
      × ((was_enabled : Bool) (i : ℕ)
          → i ≢ line
          → (kernel_interrupt_handler m' was_enabled i).0
            ≡ (kernel_interrupt_handler m was_enabled i).0)
unfolding kernel_interrupt_handler
register_int_runs m m' line h e no_panic regular =
    let (inside, free, at) =
      registered m 32 255 line h m'
        (subst (Registration m 32 255 line h) e (register_int-Registration m line h)) in
    subst
      (λ n.
        (kernel_interrupt_handler n true line ≡ (runs h, n))
        × ((was_enabled : Bool) (i : ℕ)
            → i ≢ line
            → (kernel_interrupt_handler n was_enabled i).0
              ≡ (kernel_interrupt_handler m was_enabled i).0))
      at
      (
        rw
            (
              ne→== line panic_int_line no_panic,
              regular,
              select_handler-same m line h (omega (arith, inside.1)),
            )
            refl,
        λ was_enabled i ne.
            handler-outcome_with (with_handler m line (some h)) was_enabled i
            ∙ ap (outcome_with m was_enabled i) (select_handler-other m line (some h) i ne)
            ∙ sym (handler-outcome_with m was_enabled i),
      )

with_handler-undo :
    (m : Manager) (line : ℕ) (h : Handler)
    → m.handlers line ≡ none
    → with_handler (with_handler m line (some h)) line none ≡ m
with_handler-undo m line h free = ap (λ f. record m { handlers = f }) (λ k i. back i k)
  where
    back :
        (i : ℕ)
        → (if i == line then none else (if i == line then some h else m.handlers i)) ≡ m.handlers i
    back i = elim (Bool-cases (i == line)) [
      | inl it ↦ rw it (sym (ap m.handlers (==→eq i line it) ∙ free))
      | inr other ↦ rw other refl
    ]

-- Removing the handler that was just registered gives the manager back as it was.
pub remove-register :
    (m m' : Manager) (line : ℕ) (h : Handler)
    → kernel_interrupt_register_int_handler m line (some h) ≡ (no_err, m')
    → kernel_interrupt_remove_int_handler m' line ≡ (no_err, m)
unfolding kernel_interrupt_remove_int_handler
remove-register m m' line h e =
    let (inside, free, at) =
      registered m 32 255 line h m'
        (subst (Registration m 32 255 line h) e (register_int-Registration m line h)) in
    subst (λ n. kernel_interrupt_remove_int_handler n line ≡ (no_err, m)) at
      (rw (is_interrupt_line-of_bounds line inside) (
        drop_handler-occupied (with_handler m line (some h)) line h (rw (==_refl line) refl)
        ∙ ap (λ n. (no_err, n)) (with_handler-undo m line h free)))
