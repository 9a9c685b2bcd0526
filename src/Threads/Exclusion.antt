-- ===== src/Threads/Exclusion.antt =====
-- Mutual exclusion for any code that keeps a lock, from what each of its steps does to the lock.
use utk.Prelude.{
  ==→eq, ==→ne, Bool, Bool-cases, ap, false, if◌then◌else◌, inl, inr, refl, sym, true, ℕ, ◌==◌, ◌∙◌,
  ◌≡◌, ◌≢◌,
}
use utk.Threads.{Program, World, Step, Reaches, moved, call, run, here, later}

-- How a program keeps a lock: which points own it, when it is free, and what else every step keeps.
pub record Lock (p : Program) : Type 1 where
  pub owns : p.Point → Bool
  pub Free : p.Shared → Type 0
  pub Valid : p.Shared → Type 0

-- What a step does to the lock: it takes the lock when it is free, gives it back, or keeps owning as
-- it was and does not free the lock.
pub data Effect (p : Program) (l : Lock p) (s : p.Shared) (pc : p.Point)
    : p.Shared × p.Point → Type 0 where
  taken :
      {s' : p.Shared} {pc' : p.Point}
      → l.Free s
      → ¬ l.Free s'
      → l.Valid s'
      → Effect p l s pc (s', pc')
  given_back :
      {s' : p.Shared} {pc' : p.Point}
      → l.owns pc ≡ true
      → l.owns pc' ≡ false
      → l.Valid s'
      → Effect p l s pc (s', pc')
  same :
      {s' : p.Shared} {pc' : p.Point}
      → l.owns pc' ≡ l.owns pc
      → (l.Free s' → l.Free s)
      → l.Valid s'
      → Effect p l s pc (s', pc')

pub Effect-if :
    {p : Program} {l : Lock p} {s : p.Shared} {pc : p.Point} {x y : p.Shared × p.Point} (b : Bool)
    → (b ≡ true → Effect p l s pc x)
    → (b ≡ false → Effect p l s pc y)
    → Effect p l s pc (if b then x else y)
Effect-if true f g = f refl
Effect-if false f g = g refl

-- The laws that a program proves of its lock.
pub record Locking (p : Program) : Type 1 where
  pub lock : Lock p
  pub step-Effect :
      (s : p.Shared) (pc : p.Point) (r : p.Reply)
      → lock.Valid s
      → Effect p lock s pc (p.step s pc r)
  pub Calls-owns : (pc pc' : p.Point) → p.Calls pc pc' → lock.owns pc' ≡ lock.owns pc

module _ {ℓ} {A : Type ℓ} (owns : A → Bool) (threads : ℕ → A) (k : ℕ) (pc : A) where
  -- Where a moved thread owns the lock as before, so does every thread.
  moved-owns : owns pc ≡ owns (threads k) → (i : ℕ) → owns (moved threads k pc i) ≡ owns (threads i)
  moved-owns e i = elim (Bool-cases (i == k)) [
    | inl it ↦ rw it (e ∙ ap (λ j. owns (threads j)) (sym (==→eq i k it)))
    | inr other ↦ rw other refl
  ]

  -- Where a moved thread does not own the lock, an owner is another thread, which owned it before.
  moved-other :
      owns pc ≡ false
      → (i : ℕ) → owns (moved threads k pc i) ≡ true
      → (i ≢ k) × (owns (threads i) ≡ true)
  moved-other e i own = elim (Bool-cases (i == k)) [
    | inl it ↦ absurd cc
    | inr other ↦ (==→ne i k other, ap (λ b. owns (if b then pc else threads i)) (sym other) ∙ own)
  ]

  -- Where no other thread owns the lock, an owner is the moved thread.
  moved-own :
      ((i : ℕ) → owns (threads i) ≡ false) → (i : ℕ) → owns (moved threads k pc i) ≡ true → i ≡ k
  moved-own none_owns i own = elim (Bool-cases (i == k)) [
    | inl it ↦ ==→eq i k it
    | inr other ↦ absurd (cc (none_owns i, other))
  ]

module _ (p : Program) (laws : Locking p) where
  open p use {Shared, Point}

  abbrev owns : Point → Bool
  owns = laws.lock.owns

  -- The lock is free only when no thread owns it, and no two threads own it.
  pub record IsExclusive (w : World p) : Type 0 where
    pub valid : laws.lock.Valid w.shared
    pub free : laws.lock.Free w.shared → (i : ℕ) → owns (w.threads i) ≡ false
    pub alone : (i j : ℕ) → owns (w.threads i) ≡ true → owns (w.threads j) ≡ true → i ≡ j

  moved-IsExclusive :
      (w : World p)
      → IsExclusive w
      → (k : ℕ) (s : Shared) (pc : Point) → Effect p laws.lock w.shared (w.threads k) (s, pc)
      → IsExclusive (record { shared = s; threads = moved w.threads k pc })
  moved-IsExclusive w is k s pc (taken z nz ok') = record {
    valid = ok';
    free = λ z' i. absurd (nz z');
    alone = λ i j oi oj.
        moved-own owns w.threads k pc (is.free z) i oi
        ∙ sym (moved-own owns w.threads k pc (is.free z) j oj);
  }
  moved-IsExclusive w is k s pc (given_back own lost ok') = record {
    valid = ok';
    free = λ z i. elim (Bool-cases (owns (moved w.threads k pc i))) [
      | inl it ↦
          let (ne, before) = moved-other owns w.threads k pc lost i it in
          absurd (ne (is.alone i k before own))
      | inr other ↦ other
    ];
    alone = λ i j oi oj.
        is.alone i j ((moved-other owns w.threads k pc lost i oi).1)
          ((moved-other owns w.threads k pc lost j oj).1);
  }
  moved-IsExclusive w is k s pc (same e z ok') = record {
    valid = ok';
    free = λ z' i. moved-owns owns w.threads k pc e i ∙ is.free (z z') i;
    alone = λ i j oi oj.
        is.alone i j (sym (moved-owns owns w.threads k pc e i) ∙ oi)
          (sym (moved-owns owns w.threads k pc e j) ∙ oj);
  }

  pub Step-IsExclusive : {v w : World p} → Step p v w → IsExclusive v → IsExclusive w
  Step-IsExclusive (call v i pc c) is =
      moved-IsExclusive v is i v.shared pc
        (same (laws.Calls-owns (v.threads i) pc c) (λ z. z) is.valid)
  Step-IsExclusive (run v i r) is =
      moved-IsExclusive v is i _ _ (laws.step-Effect v.shared (v.threads i) r is.valid)

  pub Reaches-IsExclusive : {u w : World p} → Reaches p u w → IsExclusive u → IsExclusive w
  Reaches-IsExclusive (here w) is = is
  Reaches-IsExclusive (later u v w path one) is = Step-IsExclusive one (Reaches-IsExclusive path is)
