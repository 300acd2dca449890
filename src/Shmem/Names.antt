-- ===== src/Shmem/Names.antt =====
-- The names of the semaphores and of the atomic integers, and the lock on allocations.
use blade_psgi.Base.{
  ℕ, zero, suc, ◌+◌, ◌^◌, ◌≤◌, ◌≡◌, ◌≢◌, refl, true, false, some, List, [], ◌∷◌, ◌++◌, arith,
  length, get_elem?, All, Pairs, Pairs-append,
}
use blade_psgi.Base.Bytes.{Bytes, codes, same_self}
use blade_psgi.Base.Words.{ℤ}
use blade_psgi.Base.Outcome.{ok, throw, string_error, logic_error}
use blade_psgi.Shmem.Memory.{Mem}
use blade_psgi.Shmem.PosixSem.{SemLib}
use blade_psgi.Shmem.Layout.{IsLaidOut, step-IsLaidOut, init-IsLaidOut}
use blade_psgi.Shmem.Requests.{
  Request, semaphore, atomic, new_atomic_int64_cases, new_semaphore_cases, step, run,
}
use blade_psgi.Shmem.{
  SharedMemory, Semaphore, AtomicInt64, semaphore_exists, atomic_exists, new_semaphore,
  new_atomic_int64, new_shared_memory, lock_allocations, allocate_user_shmem,
}

-- No two semaphores share a name, nor do two atomic integers.
pub record HasDistinctNames (s : SharedMemory) : Type 0 where
  pub semaphores : Pairs (λ x y. x.name ≢ y.name) s.semaphores
  pub atomics : Pairs (λ a b. a.name ≢ b.name) s.atomics

semaphore_new :
    (name : Bytes) (xs : List Semaphore)
    → semaphore_exists name xs ≡ false
    → All (λ x. x.name ≢ name) xs
unfolding semaphore_exists
semaphore_new name [] h = tt
semaphore_new name (x ∷ xs) h =
    (λ e. absurd (grind (arith, same_self name)), semaphore_new name xs (ground arith))

atomic_new :
    (name : Bytes) (xs : List AtomicInt64)
    → atomic_exists name xs ≡ false
    → All (λ x. x.name ≢ name) xs
unfolding atomic_exists
atomic_new name [] h = tt
atomic_new name (x ∷ xs) h =
    (λ e. absurd (grind (arith, same_self name)), atomic_new name xs (ground arith))

step-HasDistinctNames :
    (lib : SemLib) (calls : ℕ) (s : SharedMemory) (r : Request)
    → calls ≤ 2 ^ 50
    → lib.sizeof_sem ≤ 1024
    → IsLaidOut lib.sizeof_sem calls s
    → HasDistinctNames s
    → HasDistinctNames (step lib s r)
step-HasDistinctNames lib calls s (semaphore name value) few small v d =
    new_semaphore_cases lib HasDistinctNames s name value (omega (arith, v.few)) d
      (λ _ _ _. record { semaphores = d.semaphores; atomics = d.atomics })
      (λ _ _ _ _ _ _ _. record { semaphores = d.semaphores; atomics = d.atomics })
      (λ _ _ _ _ new _ _. record {
        semaphores =
            Pairs-append _ s.semaphores _ d.semaphores (semaphore_new name s.semaphores new);
        atomics = d.atomics;
      })
step-HasDistinctNames lib calls s (atomic name value) few small v d =
    new_atomic_int64_cases HasDistinctNames s name value (omega (arith, v.few)) d
      (λ _ _ _. record { semaphores = d.semaphores; atomics = d.atomics })
      (λ _ _ _ new. record {
        semaphores = d.semaphores;
        atomics = Pairs-append _ s.atomics _ d.atomics (atomic_new name s.atomics new);
      })

run-HasDistinctNames :
    (lib : SemLib) (calls : ℕ) (s : SharedMemory) (rs : List Request)
    → lib.sizeof_sem ≤ 1024
    → calls + length rs ≤ 2 ^ 50
    → IsLaidOut lib.sizeof_sem calls s
    → HasDistinctNames s
    → HasDistinctNames (run lib s rs)
unfolding run
run-HasDistinctNames lib calls s [] small few v d = d
run-HasDistinctNames lib calls s (r ∷ rs) small few v d =
    run-HasDistinctNames lib (calls + 1) (step lib s r) rs small (omega arith)
      (step-IsLaidOut lib calls s r small (omega arith) v)
      (step-HasDistinctNames lib calls s r (omega arith) small v d)

-- After any history of at most 2^50 requests, no two semaphores share a name, and no two atomic
-- integers do.
pub run-init-HasDistinctNames :
    (lib : SemLib) (m : Mem) (size : ℕ) (rs : List Request)
    → lib.sizeof_sem ≤ 1024
    → length rs ≤ 2 ^ 50
    → HasDistinctNames (run lib (new_shared_memory m size) rs)
unfolding new_shared_memory
run-init-HasDistinctNames lib m size rs small few =
    run-HasDistinctNames lib 0 (new_shared_memory m size) rs small (omega arith)
      (init-IsLaidOut lib.sizeof_sem m size) (record { semaphores = tt; atomics = tt })

semaphore_known :
    (xs : List Semaphore) (i : ℕ) (x : Semaphore)
    → get_elem? xs i ≡ some x
    → semaphore_exists x.name xs ≡ true
unfolding semaphore_exists
semaphore_known [] i x e = absurd (cc)
semaphore_known (y ∷ xs) zero x e = ground (arith, same_self x.name)
semaphore_known (y ∷ xs) (suc i) x e = ground (arith, semaphore_known xs i x e)

-- A request under a name that an earlier semaphore has throws, whatever the value, and changes
-- nothing.
new_semaphore_again :
    (lib : SemLib) (s : SharedMemory) (i : ℕ) (x : Semaphore) (value : ℤ)
    → get_elem? s.semaphores i ≡ some x
    → new_semaphore lib x.name value s ≡ (
      throw (string_error (codes "semaphore with name " ++ x.name ++ codes " already exists")),
      s,
    )
unfolding new_semaphore
new_semaphore_again lib s i x value e = rw (semaphore_known s.semaphores i x e, new_semaphore)

step_locked : (lib : SemLib) (s : SharedMemory) (r : Request) → s.locked ≡ true → step lib s r ≡ s
unfolding new_semaphore new_atomic_int64 allocate_user_shmem
step_locked lib s (semaphore name value) h = ground arith
step_locked lib s (atomic name value) h = ground arith

run_locked :
    (lib : SemLib) (s : SharedMemory) (rs : List Request) → s.locked ≡ true → run lib s rs ≡ s
unfolding run
run_locked lib s [] h = refl
run_locked lib s (r ∷ rs) h = rw (step_locked lib s r h) (run_locked lib s rs h)

-- `LockAllocations` succeeds once. From then on no request changes the segment or the tables, and
-- locking again throws a logic error.
pub lock_allocations_freezes :
    (lib : SemLib) (s : SharedMemory) (rs : List Request)
    → s.locked ≡ false
    → let t = record s { locked = true } in
      (lock_allocations s ≡ (ok tt, t))
      × (run lib t rs ≡ t)
      × (lock_allocations t ≡ (
        throw (logic_error (codes "tried to lock a previously locked shared memory segment")),
        t,
      ))
unfolding lock_allocations
lock_allocations_freezes lib s rs h = (ground arith, run_locked lib _ rs refl, refl)
