-- ===== src/Mutex/Alone.antt =====
-- The calls of mutex.c by a thread that no other thread interrupts.
use utk.Prelude.{List, [], false, is_no_err, ne→==, no_err, true, ◌==◌, ◌∷◌, ◌≡◌, ◌≢◌}
use utk.Mutex.{
  Mutex, Point, Reply, Taking, cas_failed, elevation, finished, in_use, is_recursive, lock_check,
  lock_step, no_elevation, refused, step, trying, unlock_ended, unlock_step, unlocked,
}

-- One step for each answer of the kernel.
pub go : List Reply → Mutex → Point → Mutex × Point
go [] m pc = (m, pc)
go (r ∷ rs) m pc = let (m', pc') = step m pc r in go rs m' pc'

module _ (m : Mutex) (r1 r2 : Reply) where
  -- mutex_trylock of a mutex that is taken, and neither recursive nor elevates priorities, fails in
  -- two steps with the state as the value and the mutex unchanged.
  pub trylock_refused :
      in_use m.state ≡ true
      → m.state ≢ unlocked
      → elevation m.flags ≡ no_elevation
      → is_recursive m.flags ≡ false
      → go (r1 ∷ r2 ∷ []) m (lock_check trying) ≡ (m, refused m.state)
  unfolding go step lock_step cas_failed
  trylock_refused valid taken plain once = simp (valid, plain, once, ne→== m.state unlocked taken)

module _ (m : Mutex) (r1 params r3 r4 r5 raised r7 params' restored r10 r11 : Reply)
    (c : Taking) where
  -- Where the kernel refuses the new priority, mutex_lock and mutex_trylock of a free mutex that
  -- elevates priorities unlock it again and then return no_err, the result of mutex_unlock: the
  -- caller is told that it has a lock which is free.
  pub lock_refused_priority :
      m.state ≡ unlocked
      → (elevation m.flags == no_elevation) ≡ false
      → is_recursive m.flags ≡ false
      → is_no_err params.error ≡ true
      → is_no_err raised.error ≡ false
      → is_no_err params'.error ≡ true
      → is_no_err restored.error ≡ true
      → go
          (r1 ∷ params ∷ r3 ∷ r4 ∷ r5 ∷ raised ∷ r7 ∷ params' ∷ restored ∷ r10 ∷ r11 ∷ [])
          m
          (lock_check c)
        ≡ (
          record m {
            state = unlocked;
            locker_tid = 4294967295;
            acquired_thread_priority = params.priority;
          },
          finished no_err,
        )
  unfolding go step lock_step unlock_step in_use unlock_ended
  lock_refused_priority free elevates once got not_raised got' back =
      simp (free, elevates, once, got, not_raised, got', back)
