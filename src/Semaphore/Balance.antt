-- ===== src/Semaphore/Balance.antt =====
-- The level of a semaphore of semaphore.c over any sequence of steps: it counts the units that were
-- posted and not yet taken.
use utk.Prelude.{
  Bool, Error, arith, false, if◌then◌else◌, is_no_err, not, refl, sym, true, ℕ, ◌&&◌, ◌+◌, ◌<◌,
  ◌==◌, ◌^◌, ◌∙◌, ◌≡◌,
}
use utk.Threads.{World, Reaches, call, run, here, later}
use utk.Semaphore.{
  Point, Semaphore, acquired, checked, destroy_check, destroy_close, destroy_spin, destroy_step,
  destroy_wake, finished, idle, is_positive, minus_one, pend_check, pend_respin, pend_sleep,
  pend_spin, pend_step, pend_test, pend_woken, plus_one, post_check, post_raise, post_spin,
  post_step, post_wake, refused, sem_step, spin, try_check, try_spin, try_test, trypend_step,
}
use utk.Semaphore.Threads.{sem_program}

-- Whether a step takes a unit: it ends a sem_pend or a sem_trypend with the semaphore acquired.
unfoldable pub took : Point → Point → ℕ
took pend_test (acquired value) = 1
took try_test (acquired value) = 1
took _ _ = 0

-- Whether a step gives a unit: it is the increment of sem_post.
unfoldable pub gave : Point → ℕ
gave post_raise = 1
gave _ = 0

-- How often a path takes and gives a unit.
unfoldable pub taken_units : {u w : World sem_program} → Reaches sem_program u w → ℕ
taken_units (here w) = 0
taken_units (later u _ _ path (call v i pc c)) = taken_units path
taken_units (later u _ _ path (run v i r)) =
    taken_units path + took (v.threads i) ((sem_step v.shared (v.threads i) r).1)

unfoldable pub given_units : {u w : World sem_program} → Reaches sem_program u w → ℕ
given_units (here w) = 0
given_units (later u _ _ path (call v i pc c)) = given_units path
given_units (later u _ _ path (run v i r)) = given_units path + gave (v.threads i)

-- What one step does to the level, while the semaphore is not destroyed.
record Balanced (s : Semaphore) (pc : Point) (x : Semaphore × Point) : Type 0 where
  balance :
      x.0.init ≡ true → s.level + gave pc < 2 ^ 31 → x.0.level + took pc (x.1) ≡ s.level + gave pc
  lives : x.0.init ≡ true → s.init ≡ true

Balanced-if :
    {s : Semaphore} {pc : Point} {x y : Semaphore × Point} (b : Bool)
    → (b ≡ true → Balanced s pc x)
    → (b ≡ false → Balanced s pc y)
    → Balanced s pc (if b then x else y)
Balanced-if true f g = f refl
Balanced-if false f g = g refl

is_positive→lt : (n : ℕ) → is_positive n ≡ true → 0 < n
unfolding is_positive
is_positive→lt n e = ground arith

module _ (s : Semaphore) where
  -- A step that leaves the level and `init`, and neither takes nor gives.
  level :
      (s' : Semaphore) (pc pc' : Point)
      → s'.level ≡ s.level
      → s'.init ≡ s.init
      → took pc pc' ≡ 0
      → gave pc ≡ 0
      → Balanced s pc (s', pc')
  level s' pc pc' same kept no_took no_gave = record {
    balance = λ alive small. omega (arith, same, no_took, no_gave);
    lives = λ alive. sym kept ∙ alive;
  }

  taking :
      (s' : Semaphore) (pc : Point)
      → is_positive s.level ≡ true
      → s'.level ≡ minus_one s.level
      → s'.init ≡ s.init
      → took pc (acquired (minus_one s.level)) ≡ 1
      → gave pc ≡ 0
      → Balanced s pc (s', acquired (minus_one s.level))
  taking s' pc positive less kept takes no_gave = record {
    balance = λ alive small.
        let more = is_positive→lt s.level positive in omega (arith, less, takes, no_gave, more);
    lives = λ alive. sym kept ∙ alive;
  }

  giving :
      (s' : Semaphore) (pc' : Point)
      → s'.level ≡ plus_one s.level
      → s'.init ≡ s.init
      → took post_raise pc' ≡ 0
      → Balanced s post_raise (s', pc')
  unfolding gave
  giving s' pc' more kept no_took = record {
    balance = λ alive small. omega (arith, more, no_took);
    lives = λ alive. sym kept ∙ alive;
  }

  closed : (s' : Semaphore) (pc pc' : Point) → s'.init ≡ false → Balanced s pc (s', pc')
  closed s' pc pc' dead = record { balance = λ alive small. absurd cc; lives = λ alive. absurd cc }

  sem_step-Balanced : (pc : Point) (r : Error) → Balanced s pc (sem_step s pc r)
  unfolding sem_step pend_step post_step trypend_step destroy_step took gave checked spin
  sem_step-Balanced idle r = level s idle idle refl refl refl refl
  sem_step-Balanced pend_check r =
      Balanced-if s.init (λ _. level s _ _ refl refl refl refl)
        (λ _. level s _ _ refl refl refl refl)
  sem_step-Balanced pend_spin r =
      Balanced-if (s.lock == 0) (λ _. level _ _ _ refl refl refl refl)
        (λ _. level _ _ _ refl refl refl refl)
  sem_step-Balanced pend_test r =
      Balanced-if (is_positive s.level) (λ e. taking _ pend_test e refl refl refl refl)
        (λ _. level _ _ _ refl refl refl refl)
  sem_step-Balanced (pend_sleep val) r = level _ _ _ refl refl refl refl
  sem_step-Balanced (pend_respin e) r =
      Balanced-if (s.lock == 0) (λ _. level _ _ _ refl refl refl refl)
        (λ _. level _ _ _ refl refl refl refl)
  sem_step-Balanced (pend_woken e) r =
      Balanced-if (not (is_no_err e)) (λ _. level _ _ _ refl refl refl refl)
        λ _.
          Balanced-if (not s.init) (λ _. level _ _ _ refl refl refl refl)
            (λ _. level _ _ _ refl refl refl refl)
  sem_step-Balanced post_check r =
      Balanced-if s.init (λ _. level s _ _ refl refl refl refl)
        (λ _. level s _ _ refl refl refl refl)
  sem_step-Balanced post_spin r =
      Balanced-if (s.lock == 0) (λ _. level _ _ _ refl refl refl refl)
        (λ _. level _ _ _ refl refl refl refl)
  sem_step-Balanced post_raise r =
      Balanced-if (is_positive (plus_one s.level) && is_positive s.waiters)
        (λ _. giving _ _ refl refl refl) (λ _. giving _ _ refl refl refl)
  sem_step-Balanced post_wake r = level _ _ _ refl refl refl refl
  sem_step-Balanced try_check r =
      Balanced-if s.init (λ _. level s _ _ refl refl refl refl)
        (λ _. level s _ _ refl refl refl refl)
  sem_step-Balanced try_spin r =
      Balanced-if (s.lock == 0) (λ _. level _ _ _ refl refl refl refl)
        (λ _. level _ _ _ refl refl refl refl)
  sem_step-Balanced try_test r =
      Balanced-if (is_positive s.level) (λ e. taking _ try_test e refl refl refl refl)
        (λ _. level _ _ _ refl refl refl refl)
  sem_step-Balanced destroy_check r =
      Balanced-if s.init (λ _. level s _ _ refl refl refl refl)
        (λ _. level s _ _ refl refl refl refl)
  sem_step-Balanced destroy_spin r =
      Balanced-if (s.lock == 0) (λ _. level _ _ _ refl refl refl refl)
        (λ _. level _ _ _ refl refl refl refl)
  sem_step-Balanced destroy_close r =
      Balanced-if (is_positive s.waiters) (λ _. closed _ _ _ refl) (λ _. closed _ _ _ refl)
  sem_step-Balanced (destroy_wake val) r = level _ _ _ refl refl refl refl
  sem_step-Balanced (acquired value) r = level _ _ _ refl refl refl refl
  sem_step-Balanced (refused value) r = level _ _ _ refl refl refl refl
  sem_step-Balanced (finished e) r = level _ _ _ refl refl refl refl

-- Over every sequence of steps of any threads that does not destroy the semaphore, with fewer than
-- 2^31 units in all, the level is what it was at first plus the posts and minus the acquisitions:
-- no unit is lost or taken twice.
pub sem_balance :
    (u w : World sem_program) (path : Reaches sem_program u w)
    → w.shared.init ≡ true
    → u.shared.level + given_units path < 2 ^ 31
    → w.shared.level + taken_units path ≡ u.shared.level + given_units path
unfolding taken_units given_units
sem_balance u _ (here w) alive small = refl
sem_balance u _ (later _ _ _ path (call v i pc c)) alive small = sem_balance u v path alive small
sem_balance u _ (later _ _ _ path (run v i r)) alive small =
    let given = given_units path in
    let gain = gave (v.threads i) in
    let one = sem_step-Balanced v.shared (v.threads i) r in
    let before = sem_balance u v path (one.lives alive) (omega arith) in
    let now = one.balance alive (omega (arith, before)) in omega (arith, before, now)
