-- ===== src/Mutex/Runs.antt =====
-- A thread of mutex.c that no other thread interrupts, with the system calls that it makes.
use utk.Prelude.{List, [], ap, no_err, none, refl, some, suc, zero, ◌∷◌, ◌≡◌}
use utk.Mutex.{ℕ, Syscall, request, unset, Mutex, Point, Reply, finished, held, lock_step, step}

abbrev asked : Syscall → List Syscall × Mutex × Point → List Syscall × Mutex × Point
asked call (calls, m, pc) = (call ∷ calls, m, pc)

-- At most so many steps under a kernel that answers each system call as `kernel` says: the system
-- calls that are made, and what is left.
pub run_alone : ℕ → (kernel : Syscall → Reply) → Mutex → Point → List Syscall × Mutex × Point
run_alone zero kernel m pc = ([], m, pc)
run_alone (suc left) kernel m pc = elim (request m pc) [
  | none ↦ run_alone left kernel (step m pc unset).0 (step m pc unset).1
  | some call ↦
      asked call (run_alone left kernel (step m pc (kernel call)).0 (step m pc (kernel call)).1)
]

module _ (kernel : Syscall → Reply) {calls : List Syscall} {m'' : Mutex} {pc'' : Point} where
  -- A step without a system call, and one with.
  pub quietly :
      (left : ℕ) (m : Mutex) (pc : Point) (m' : Mutex) (pc' : Point)
      → request m pc ≡ none
      → step m pc unset ≡ (m', pc')
      → run_alone left kernel m' pc' ≡ (calls, m'', pc'')
      → run_alone (suc left) kernel m pc ≡ (calls, m'', pc'')
  unfolding run_alone
  quietly left m pc m' pc' none_asked goes rest = rw (run_alone, none_asked, goes) rest

  pub asking :
      (left : ℕ) (m : Mutex) (pc : Point) (m' : Mutex) (pc' : Point) (call : Syscall)
      → request m pc ≡ some call
      → step m pc (kernel call) ≡ (m', pc')
      → run_alone left kernel m' pc' ≡ (calls, m'', pc'')
      → run_alone (suc left) kernel m pc ≡ (call ∷ calls, m'', pc'')
  unfolding run_alone
  asking left m pc m' pc' call asks goes rest = rw (run_alone, asks, goes) (ap (asked call) rest)

pub held_stays :
    (left : ℕ) (kernel : Syscall → Reply) (m : Mutex) → run_alone left kernel m held ≡ ([], m, held)
unfolding run_alone request step lock_step
held_stays zero kernel m = refl
held_stays (suc left) kernel m = held_stays left kernel m

pub finished_stays :
    (left : ℕ) (kernel : Syscall → Reply) (m : Mutex)
    → run_alone left kernel m (finished no_err) ≡ ([], m, finished no_err)
unfolding run_alone request step lock_step
finished_stays zero kernel m = refl
finished_stays (suc left) kernel m = finished_stays left kernel m
