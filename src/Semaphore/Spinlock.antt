-- ===== src/Semaphore/Spinlock.antt =====
-- The spinlock of semaphore.c: no two threads are between SPINLOCK_LOCK and SPINLOCK_UNLOCK.
use utk.Prelude.{
  ==→eq, Bool, Error, arith, false, is_no_err, not, refl, sym, true, ℕ, ◌&&◌, ◌==◌, ◌∙◌, ◌≡◌, ◌≤◌,
}
use utk.Threads.{World, Reaches}
use utk.Threads.Exclusion.{
  Lock, Effect, taken, given_back, same, Effect-if, Locking, IsExclusive, Reaches-IsExclusive,
}
use utk.Semaphore.{
  Point, Semaphore, acquired, checked, destroy_check, destroy_close, destroy_spin, destroy_step,
  destroy_wake, finished, idle, is_positive, pend_check, pend_respin, pend_sleep, pend_spin,
  pend_step, pend_test, pend_woken, plus_one, post_check, post_raise, post_spin, post_step,
  post_wake, refused, sem_step, spin, try_check, try_spin, try_test, trypend_step,
}
use utk.Semaphore.Threads.{
  Calls, Outside, acquired_outside, call_destroy, call_pend, call_post, call_trypend,
  finished_outside, idle_outside, refused_outside, sem_program, start,
}

-- The points between the two.
unfoldable pub inside : Point → Bool
inside pend_test = true
inside (pend_woken e) = true
inside post_raise = true
inside post_wake = true
inside try_test = true
inside destroy_close = true
inside _ = false

abbrev spinlock : Lock sem_program
spinlock = record { owns = inside; Free = λ s. s.lock ≡ 0; Valid = λ s. s.lock ≤ 1 }

abbrev SpinEffect : Semaphore → Point → Semaphore × Point → Type 0
SpinEffect = Effect sem_program spinlock

module _ (s : Semaphore) (valid : s.lock ≤ 1) where
  stay : {pc pc' : Point} → inside pc' ≡ inside pc → SpinEffect s pc (s, pc')
  stay e = same e (λ z. z) valid

  checked-Effect :
      (pc pc' : Point) → inside pc ≡ false → inside pc' ≡ false → SpinEffect s pc (checked s pc')
  unfolding checked inside
  checked-Effect pc pc' out out' =
      Effect-if s.init (λ _. stay (out' ∙ sym out)) (λ _. stay (sym out))

  spin-Effect : (pc pc' : Point) → SpinEffect s pc (spin s pc pc')
  unfolding spin
  spin-Effect pc pc' =
      Effect-if (s.lock == 0) (λ e. taken (==→eq s.lock 0 e) (omega arith) (omega arith))
        (λ _. stay refl)

  sem_step-Effect : (pc : Point) (r : Error) → SpinEffect s pc (sem_step s pc r)
  unfolding sem_step pend_step post_step trypend_step destroy_step inside
  sem_step-Effect idle r = stay refl
  sem_step-Effect pend_check r = checked-Effect pend_check pend_spin refl refl
  sem_step-Effect pend_spin r = spin-Effect pend_spin pend_test
  sem_step-Effect pend_test r =
      Effect-if (is_positive s.level) (λ _. given_back refl refl (omega arith))
        (λ _. given_back refl refl (omega arith))
  sem_step-Effect (pend_sleep val) r = stay refl
  sem_step-Effect (pend_respin e) r = spin-Effect (pend_respin e) (pend_woken e)
  sem_step-Effect (pend_woken e) r =
      Effect-if (not (is_no_err e)) (λ _. given_back refl refl (omega arith))
        λ _.
          Effect-if (not s.init) (λ _. given_back refl refl (omega arith))
            (λ _. same refl (λ z. z) valid)
  sem_step-Effect post_check r = checked-Effect post_check post_spin refl refl
  sem_step-Effect post_spin r = spin-Effect post_spin post_raise
  sem_step-Effect post_raise r =
      Effect-if (is_positive (plus_one s.level) && is_positive s.waiters)
        (λ _. same refl (λ z. z) valid) (λ _. given_back refl refl (omega arith))
  sem_step-Effect post_wake r = given_back refl refl (omega arith)
  sem_step-Effect try_check r = checked-Effect try_check try_spin refl refl
  sem_step-Effect try_spin r = spin-Effect try_spin try_test
  sem_step-Effect try_test r =
      Effect-if (is_positive s.level) (λ _. given_back refl refl (omega arith))
        (λ _. given_back refl refl (omega arith))
  sem_step-Effect destroy_check r = checked-Effect destroy_check destroy_spin refl refl
  sem_step-Effect destroy_spin r = spin-Effect destroy_spin destroy_close
  sem_step-Effect destroy_close r =
      Effect-if (is_positive s.waiters) (λ _. given_back refl refl (omega arith))
        (λ _. given_back refl refl (omega arith))
  sem_step-Effect (destroy_wake val) r = stay refl
  sem_step-Effect (acquired value) r = stay refl
  sem_step-Effect (refused value) r = stay refl
  sem_step-Effect (finished e) r = stay refl

Outside-inside : {pc : Point} → Outside pc → inside pc ≡ false
unfolding inside
Outside-inside idle_outside = refl
Outside-inside (acquired_outside value) = refl
Outside-inside (refused_outside value) = refl
Outside-inside (finished_outside e) = refl

Calls-inside : {pc pc' : Point} → Calls pc pc' → inside pc' ≡ inside pc
unfolding inside
Calls-inside (call_pend pc o) = sym (Outside-inside o)
Calls-inside (call_post pc o) = sym (Outside-inside o)
Calls-inside (call_trypend pc o) = sym (Outside-inside o)
Calls-inside (call_destroy pc o) = sym (Outside-inside o)

abbrev spinlock_laws : Locking sem_program
spinlock_laws = record {
  lock = spinlock;
  step-Effect = λ s pc r valid. sem_step-Effect s valid pc r;
  Calls-owns = λ pc pc' c. Calls-inside c;
}

start-IsExclusive : (s : Semaphore) → s.lock ≡ 0 → IsExclusive sem_program spinlock_laws (start s)
unfolding inside
start-IsExclusive s z = record {
  valid = omega (arith, z);
  free = λ _ i. refl;
  alone = λ i j oi oj. absurd cc;
}

-- Whatever the order of the threads and the answers of the kernel, no two threads are in the part
-- of the code that the spinlock protects, and none is while the spinlock is open, for a semaphore
-- whose spinlock began open with every thread outside the code.
pub spinlock_exclusion :
    (s : Semaphore) (w : World sem_program)
    → s.lock ≡ 0
    → Reaches sem_program (start s) w
    → ((i j : ℕ) → inside (w.threads i) ≡ true → inside (w.threads j) ≡ true → i ≡ j)
      × (w.shared.lock ≡ 0 → (i : ℕ) → inside (w.threads i) ≡ false)
spinlock_exclusion s w z path =
    let is = Reaches-IsExclusive sem_program spinlock_laws path (start-IsExclusive s z) in
    (is.alone, is.free)
