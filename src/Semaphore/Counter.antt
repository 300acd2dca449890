-- ===== src/Semaphore/Counter.antt =====
-- The semaphore is a counter: what the operations promise, whatever the number of interruptions.
use native.Mathlib.Decide.{dec_lt}
use blade_psgi.Base.{
  ℕ, zero, suc, ◌≡◌, refl, Bool, true, false, Option, none, some, List, [], ◌∷◌, ◌++◌, replicate,
  arith, ltb, lt→ltb, ge→ltb, if◌then◌else◌,
}
use blade_psgi.Base.Bytes.{codes}
use blade_psgi.Base.Outcome.{Outcome, ok, throw, syscall_failed}
use blade_psgi.Shmem.PosixSem.{SemLib, SemLaws, IsSem, SameOutside, eoverflow, sem_value_max}
use blade_psgi.Shmem.{SharedMemory, Semaphore}
use blade_psgi.Semaphore.{in_segment, acquire, try_acquire, release}

-- Interrupted `n` times, then not.
abbrev pub rounds : ℕ → List Bool
rounds n = replicate n true ++ false ∷ []

-- What an operation does to a counter: no result while it waits.
abbrev pub acquire_counter : ℕ → Option (Outcome (Unit {0}) × ℕ)
acquire_counter zero = none
acquire_counter (suc v) = some (ok tt, v)

abbrev pub try_acquire_counter : ℕ → Option (Outcome Bool × ℕ)
try_acquire_counter zero = some (ok false, 0)
try_acquire_counter (suc v) = some (ok true, v)

abbrev pub release_counter : ℕ → Outcome (Unit {0}) × ℕ
release_counter v =
    if ltb v sem_value_max
    then (ok tt, suc v)
    else (throw (syscall_failed (codes "sem_post") eoverflow), v)

module _ (lib : SemLib) (x : Semaphore) {A : Type 0} where
  -- The same result, the counter's value in the semaphore, and nothing else changed.
  abbrev pub Agrees :
      SharedMemory → Option (Outcome A × SharedMemory) → Option (Outcome A × ℕ) → Type 0
  Agrees s none none = Unit {0}
  Agrees s none (some _) = ⊥
  Agrees s (some _) none = ⊥
  Agrees s (some (o, t)) (some (o', v)) =
      (o ≡ o')
      × (t ≡ in_segment s t.segment)
      × IsSem lib t.segment x.sem v
      × SameOutside x.sem lib.sizeof_sem s.segment t.segment

module _ (lib : SemLib) (laws : SemLaws lib) (x : Semaphore) where
  -- However often it is interrupted, `Acquire` decreases a positive value, and waits at zero.
  pub acquire-Agrees :
      (n v : ℕ) (s : SharedMemory)
      → IsSem lib s.segment x.sem v
      → Agrees lib x s (acquire lib x (rounds n) s) (acquire_counter v)
  unfolding acquire
  acquire-Agrees zero zero s h = rw (laws.wait_blocks s.segment x.sem h) tt
  acquire-Agrees zero (suc v) s h =
      let (m, e, l) = laws.wait_takes s.segment x.sem v h in rw e (refl, refl, l.0, l.1)
  acquire-Agrees (suc n) v s h =
      rw (laws.wait_interrupted s.segment x.sem v h) (acquire-Agrees n v s h)

  -- However often it is interrupted, `TryAcquire` decreases a positive value and returns true, and
  -- returns false at zero.
  pub try_acquire-Agrees :
      (n v : ℕ) (s : SharedMemory)
      → IsSem lib s.segment x.sem v
      → Agrees lib x s (try_acquire lib x (rounds n) s) (try_acquire_counter v)
  unfolding try_acquire
  try_acquire-Agrees zero zero s h =
      rw (laws.trywait_fails s.segment x.sem h) (refl, refl, h, λ q _. refl)
  try_acquire-Agrees zero (suc v) s h =
      let (m, e, l) = laws.trywait_takes s.segment x.sem v h in rw e (refl, refl, l.0, l.1)
  try_acquire-Agrees (suc n) v s h =
      rw (laws.trywait_interrupted s.segment x.sem v h) (try_acquire-Agrees n v s h)

  -- `Release` increases the value, unless it is the greatest, when it throws.
  pub release-Agrees :
      (v : ℕ) (s : SharedMemory)
      → IsSem lib s.segment x.sem v
      → Agrees lib x s (some (release lib x s)) (some (release_counter v))
  unfolding release
  release-Agrees v s h = elim (dec_lt v sem_value_max) [
    | yes lt ↦
        let (m, e, l) = laws.post_adds s.segment x.sem v h lt in
        rw (e, lt→ltb v sem_value_max lt) (refl, refl, l.0, l.1)
    | no ge ↦
        rw
          (
            laws.post_overflows s.segment x.sem v h (omega arith),
            ge→ltb v sem_value_max (omega arith),
          )
          (refl, refl, h, λ q _. refl)
  ]
