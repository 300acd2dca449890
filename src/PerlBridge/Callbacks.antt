-- ===== src/PerlBridge/Callbacks.antt =====
-- The other callbacks of src/perl_interpreter_sea_bridge.cpp: what the wrapper asks of the application,
-- the request of an auxiliary process, and the operations of semaphores. A pointer that may be NULL is
-- an option.
use blade_psgi.Base.{ℕ, Bool, Option, none, some, List, [], ◌∷◌, ◌++◌, if◌then◌else◌}
use blade_psgi.Base.Bytes.{Bytes}
use blade_psgi.Base.Outcome.{Outcome, ok, throw, exited, aborted, M}
use blade_psgi.Shmem.PosixSem.{SemLib}
use blade_psgi.Shmem.{SharedMemory, Semaphore}
use blade_psgi.Semaphore.{acquire, try_acquire, release}
use blade_psgi.MainApp.{MainApp}
use blade_psgi.MainApp.Spawn.{request_auxiliary_process}
use blade_psgi.PerlGlue.{Callback, Sv}

-- What the application was started with, and its socket, if it has one.
pub record Serving : Type 0 where
  pub fastcgi_sockfd : Option ℕ
  pub psgi_application_path : Option Bytes
  pub psgi_application_loader : Option Bytes

-- `Assert(p != NULL)`
abbrev pub non_null : {A : Type 0} → Option A → Outcome A
non_null none = aborted
non_null (some a) = ok a

unfoldable pub cb_fastcgi_listen_sockfd : Option Serving → Outcome ℕ
cb_fastcgi_listen_sockfd none = aborted
cb_fastcgi_listen_sockfd (some mainapp) = non_null mainapp.fastcgi_sockfd

unfoldable pub cb_psgi_application_path : Option Serving → Outcome Bytes
cb_psgi_application_path none = aborted
cb_psgi_application_path (some mainapp) = non_null mainapp.psgi_application_path

unfoldable pub cb_psgi_application_loader : Option Serving → Outcome (Option Bytes)
cb_psgi_application_loader none = aborted
cb_psgi_application_loader (some mainapp) = ok mainapp.psgi_application_loader

-- The application with the callbacks of its auxiliary processes, in the order of these.
abbrev pub with_callback :
    Callback
    → List Callback
    → Outcome (Unit {0}) × MainApp
    → Outcome (Option Bytes) × (MainApp × List Callback)
with_callback c cs (ok u, s) = (ok none, (s, cs ++ c ∷ []))
with_callback c cs (throw e, s) = (throw e, (s, cs))
with_callback c cs (exited n, s) = (exited n, (s, cs))
with_callback c cs (aborted, s) = (aborted, (s, cs))

unfoldable pub cb_request_auxiliary_process :
    ℕ → Bytes → Sv → M (MainApp × List Callback) (Option Bytes)
cb_request_auxiliary_process ctx name sv (s, cs) =
    with_callback (record { bladepsgictx = ctx; sv = sv }) cs (request_auxiliary_process name s)

-- The rounds of the loops are those of Semaphore.antt.
module _ (lib : SemLib) where
  unfoldable pub cb_sem_acquire :
      Option Semaphore → List Bool → SharedMemory → Option (Outcome (Unit {0}) × SharedMemory)
  cb_sem_acquire none rounds s = some (aborted, s)
  cb_sem_acquire (some x) rounds s = acquire lib x rounds s

  abbrev pub as_int : Outcome Bool × SharedMemory → Outcome ℕ × SharedMemory
  as_int (ok b, s) = (ok (if b then 1 else 0), s)
  as_int (throw e, s) = (throw e, s)
  as_int (exited n, s) = (exited n, s)
  as_int (aborted, s) = (aborted, s)

  abbrev pub when_done : Option (Outcome Bool × SharedMemory) → Option (Outcome ℕ × SharedMemory)
  when_done none = none
  when_done (some r) = some (as_int r)

  unfoldable pub cb_sem_tryacquire :
      Option Semaphore → List Bool → SharedMemory → Option (Outcome ℕ × SharedMemory)
  cb_sem_tryacquire none rounds s = some (aborted, s)
  cb_sem_tryacquire (some x) rounds s = when_done (try_acquire lib x rounds s)

  unfoldable pub cb_sem_release : Option Semaphore → M SharedMemory (Unit {0})
  cb_sem_release none s = (aborted, s)
  cb_sem_release (some x) s = release lib x s
