-- ===== src/PerlModule/ObjectMethods.antt =====
-- The methods of BPSGI::Semaphore and BPSGI::AtomicInt64.
use blade_psgi.Base.{ℕ, Bool, not, Option, none, some, List, ◌==◌}
use blade_psgi.Base.Words.{ℤ, signed64, pattern64}
use blade_psgi.Base.Outcome.{Outcome, ◌>>=◌, ◌>>◌}
use blade_psgi.Shmem.PosixSem.{SemLib}
use blade_psgi.Shmem.{SharedMemory, fetch_add}
use blade_psgi.PerlBridge.{cb_atomic_int64_load, cb_atomic_int64_store}
use blade_psgi.PerlBridge.Callbacks.{cb_sem_acquire, cb_sem_tryacquire, cb_sem_release}
use blade_psgi.PerlModule.{
  Value, Reply, World, Method, with_shmem, finish, with_semaphore, with_atomic, to_int,
  return_value, pure, iv, truth, unset,
}

abbrev pub signed_value : ℕ → Value
signed_value w = iv (signed64 w)

unfoldable pub atomic_int64_incr : Value → Method
atomic_int64_incr atm =
    with_atomic atm λ p. finish (with_shmem (fetch_add p 1) >> return_value unset)

unfoldable pub atomic_int64_fetch_add : Value → ℤ → Method
atomic_int64_fetch_add atm val = with_atomic atm λ p.
    finish
      (with_shmem (fetch_add p (pattern64 (to_int val))) >>= λ old. return_value (signed_value old))

unfoldable pub atomic_int64_load : Value → Method
atomic_int64_load atm =
    with_atomic atm
      λ p w. finish (return_value (signed_value (cb_atomic_int64_load p w.mainapp.shmem))) w

unfoldable pub atomic_int64_store : Value → ℤ → Method
atomic_int64_store atm val =
    with_atomic atm
      λ p. finish (with_shmem (cb_atomic_int64_store p (to_int val)) >> return_value unset)

-- What a callback has left, if it has come back.
abbrev pub come_back :
    {A : Type 0}
    → (A → Value)
    → World
    → Option (Outcome A × SharedMemory)
    → Option (Outcome Reply × World)
come_back f w none = none
come_back f w (some (o, t)) =
    some (pure o f (record w { mainapp = record w.mainapp { shmem = t } }))

abbrev pub called :
    {A : Type 0} → (A → Value) → (SharedMemory → Option (Outcome A × SharedMemory)) → Method
called f m w = come_back f w (m w.mainapp.shmem)

module _ (lib : SemLib) where
  unfoldable pub semaphore_acquire : Value → List Bool → Method
  semaphore_acquire sem rounds =
      with_semaphore sem λ h. called (λ u. unset) (cb_sem_acquire lib h rounds)

  unfoldable pub semaphore_tryacquire : Value → List Bool → Method
  semaphore_tryacquire sem rounds =
      with_semaphore sem λ h. called (λ n. truth (not (n == 0))) (cb_sem_tryacquire lib h rounds)

  unfoldable pub semaphore_release : Value → Method
  semaphore_release sem =
      with_semaphore sem λ h. finish (with_shmem (cb_sem_release lib h) >> return_value unset)
