-- ===== src/PerlModule/Semaphores.antt =====
-- The operations of semaphores in the Perl module: they throw or return, and leave the tables alone.
use blade_psgi.Base.{
  ℕ, ◌≡◌, refl, Bool, not, Option, none, some, List, [], ◌∷◌, ◌==◌, Bool-cases, inl, inr,
}
use blade_psgi.Base.Outcome.{Outcome, ok, throw, exited, aborted, ◌>>◌}
use blade_psgi.Shmem.Memory.{Mem}
use blade_psgi.Shmem.PosixSem.{SemLib, eintr, eagain}
use blade_psgi.Shmem.{SharedMemory, Semaphore}
use blade_psgi.Semaphore.{in_segment, acquired, acquire, tried, try_acquire, released, release}
use blade_psgi.PerlBridge.Callbacks.{when_done, cb_sem_acquire, cb_sem_tryacquire, cb_sem_release}
use blade_psgi.PerlModule.{Value, truth, unset, World, finish, with_shmem, return_value}
use blade_psgi.PerlModule.ObjectMethods.{
  come_back, semaphore_acquire, semaphore_tryacquire, semaphore_release,
}
use blade_psgi.PerlModule.Held.{IsReceiver, IsHeld, Grows, IsSound, with_semaphore-IsSound}

-- The call does not end the process, and changes no more than the bytes.
abbrev Keeps : {A : Type 0} → SharedMemory → Option (Outcome A × SharedMemory) → Type 0
Keeps s none = Unit
Keeps s (some (ok a, t)) = t ≡ in_segment s t.segment
Keeps s (some (throw e, t)) = t ≡ in_segment s t.segment
Keeps s (some (exited n, t)) = ⊥
Keeps s (some (aborted, t)) = ⊥

again-Keeps :
    {A : Type 0} (s : SharedMemory) (m : Mem) (r : Option (Outcome A × SharedMemory))
    → Keeps (in_segment s m) r
    → Keeps s r
again-Keeps s m none k = tt
again-Keeps s m (some (ok a, t)) k = k
again-Keeps s m (some (throw e, t)) k = k
again-Keeps s m (some (exited n, t)) k = absurd k
again-Keeps s m (some (aborted, t)) k = absurd k

module _ (lib : SemLib) (x : Semaphore) where
  acquired-Keeps :
      (again : SharedMemory → Option (Outcome (Unit {0}) × SharedMemory)) (s : SharedMemory)
      (r : Option (Option ℕ × Mem))
      → ((t : SharedMemory) → Keeps t (again t))
      → Keeps s (acquired lib x again s r)
  acquired-Keeps again s none k = tt
  acquired-Keeps again s (some (none, m)) k = refl
  acquired-Keeps again s (some (some errno, m)) k = elim (Bool-cases (errno == eintr)) [
    | inl e ↦ rw e (again-Keeps s m (again (in_segment s m)) (k (in_segment s m)))
    | inr e ↦ rw e refl
  ]

  acquire-Keeps : (rounds : List Bool) (s : SharedMemory) → Keeps s (acquire lib x rounds s)
  unfolding acquire
  acquire-Keeps [] s = tt
  acquire-Keeps (b ∷ rounds) s =
      acquired-Keeps (acquire lib x rounds) s (lib.sem_wait b s.segment x.sem)
        (acquire-Keeps rounds)

  tried-Keeps :
      (again : SharedMemory → Option (Outcome Bool × SharedMemory)) (s : SharedMemory)
      (r : Option ℕ × Mem)
      → ((t : SharedMemory) → Keeps t (again t))
      → Keeps s (tried lib x again s r)
  tried-Keeps again s (none, m) k = refl
  tried-Keeps again s (some errno, m) k = elim (Bool-cases (errno == eintr)) [
    | inl e ↦ rw e (again-Keeps s m (again (in_segment s m)) (k (in_segment s m)))
    | inr e ↦ elim (Bool-cases (errno == eagain)) [
      | inl q ↦ rw (e, q) refl
      | inr q ↦ rw (e, q) refl
    ]
  ]

  try_acquire-Keeps : (rounds : List Bool) (s : SharedMemory) → Keeps s (try_acquire lib x rounds s)
  unfolding try_acquire
  try_acquire-Keeps [] s = tt
  try_acquire-Keeps (b ∷ rounds) s =
      tried-Keeps (try_acquire lib x rounds) s (lib.sem_trywait b s.segment x.sem)
        (try_acquire-Keeps rounds)

when_done-Keeps :
    (lib : SemLib) (s : SharedMemory) (r : Option (Outcome Bool × SharedMemory))
    → Keeps s r
    → Keeps s (when_done lib r)
when_done-Keeps lib s none k = tt
when_done-Keeps lib s (some (ok b, t)) k = k
when_done-Keeps lib s (some (throw e, t)) k = k
when_done-Keeps lib s (some (exited n, t)) k = absurd k
when_done-Keeps lib s (some (aborted, t)) k = absurd k

-- Other bytes of the segment.
pub bytes-Grows :
    (w : World) (t : SharedMemory)
    → t ≡ in_segment w.mainapp.shmem t.segment
    → Grows w (record w { mainapp = record w.mainapp { shmem = t } })
bytes-Grows w t e = record {
  same_ctx = refl;
  same_serving = refl;
  handles = λ p x f. f;
  semaphores = λ i x f. rw e f;
  atomics = λ i a f. rw e f;
}

come_back-IsSound :
    {A : Type 0} (w : World) (f : A → Value) (r : Option (Outcome A × SharedMemory))
    → ((w' : World) (a : A) → IsHeld w' (f a))
    → Keeps w.mainapp.shmem r
    → IsSound w (Unit {0}) (come_back f w r)
come_back-IsSound w f none h k = tt
come_back-IsSound w f (some (ok a, t)) h k =
    (bytes-Grows w t k, h (record w { mainapp = record w.mainapp { shmem = t } }) a)
come_back-IsSound w f (some (throw e, t)) h k = (tt, bytes-Grows w t k)
come_back-IsSound w f (some (exited n, t)) h k = absurd k
come_back-IsSound w f (some (aborted, t)) h k = absurd k

released-IsSound :
    (lib : SemLib) (x : Semaphore) (w : World) (r : Option ℕ × Mem)
    → IsSound w (Unit {0}) (finish (with_shmem (λ s. released lib x s r) >> return_value unset) w)
released-IsSound lib x w (none, m) = (bytes-Grows w (in_segment w.mainapp.shmem m) refl, tt)
released-IsSound lib x w (some errno, m) = (tt, bytes-Grows w (in_segment w.mainapp.shmem m) refl)

module _ (lib : SemLib) (w : World) (v : Value) (h : IsReceiver w v) where
  pub acquire-IsSound :
      (rounds : List Bool) → IsSound w (Unit {0}) (semaphore_acquire lib v rounds w)
  unfolding semaphore_acquire cb_sem_acquire
  acquire-IsSound rounds = with_semaphore-IsSound w (Unit {0}) v _ h (λ x.
      come_back-IsSound w (λ u. unset) _ (λ w' u. tt) (acquire-Keeps lib x rounds w.mainapp.shmem))

  pub tryacquire-IsSound :
      (rounds : List Bool) → IsSound w (Unit {0}) (semaphore_tryacquire lib v rounds w)
  unfolding semaphore_tryacquire cb_sem_tryacquire
  tryacquire-IsSound rounds = with_semaphore-IsSound w (Unit {0}) v _ h (λ x.
      come_back-IsSound w (λ n. truth (not (n == 0))) _ (λ w' n. tt)
        (when_done-Keeps lib w.mainapp.shmem _ (try_acquire-Keeps lib x rounds w.mainapp.shmem)))

  pub release-IsSound : IsSound w (Unit {0}) (semaphore_release lib v w)
  unfolding semaphore_release cb_sem_release release
  release-IsSound =
      with_semaphore-IsSound w (Unit {0}) v _ h
        (λ x. released-IsSound lib x w (lib.sem_post w.mainapp.shmem.segment x.sem))
