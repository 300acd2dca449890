-- ===== src/MainApp/Spawn.antt =====
-- How the overseer gets its children: `RequestAuxiliaryProcess`, `SpawnAuxiliaryProcess`,
-- `SpawnWorkersAndAuxiliaryProcesses`, `SpawnMonitoringProcess`, and `SetPID` of src/auxiliary.cpp.
-- The k-th call of fork of the process is `fork k`: its value, and `errno`.
use blade_psgi.Base.{
  ℕ, zero, suc, ◌+◌, Bool, false, not, Option, none, some, List, [], ◌∷◌, ◌++◌, get_elem?, length,
  ltb, if◌then◌else◌,
}
use blade_psgi.Base.Bytes.{Bytes, codes}
use blade_psgi.Base.Words.{ℤ, pos, negsuc, minus_one, equal}
use blade_psgi.Base.Outcome.{
  Exn, syscall_failed, syscall_failed_text, runtime_error, logic_error, Outcome, ok, throw, exited,
  aborted, M, continue, ◌>>=◌, ◌>>◌, return, quit, throw_if, assert, get, put,
}
use blade_psgi.Shmem.{lock_allocations}
use blade_psgi.MainApp.{MainApp, AuxiliaryProcess, ls_error, text, log}

abbrev pub Fork : Type 0
Fork = ℕ → ℤ × ℕ

-- Which process goes on: the parent behind the loop, or a child that runs its own program and never
-- comes back.
pub data Role : Type 0 where
  parent monitoring_child : Role
  auxiliary_child worker_child : ℕ → Role

unfoldable pub request_auxiliary_process : Bytes → M MainApp (Unit {0})
request_auxiliary_process name s = (
  ok tt,
  record s {
    auxiliary_processes = s.auxiliary_processes ++ record { name = name; pid = minus_one } ∷ [];
  },
)

-- What the loader asks for while it runs. Its requests for shared memory have been made on the
-- segment already.
unfoldable pub request_all : List Bytes → M MainApp (Unit {0})
unfolding request_auxiliary_process
request_all [] s = (ok tt, s)
request_all (name ∷ names) s = (request_auxiliary_process name >> request_all names) s

unfoldable pub set_pid : ℤ → M AuxiliaryProcess (Unit {0})
set_pid pid = do
  assert (not (equal pid minus_one))
  p ← get
  throw_if (not (equal p.pid minus_one))
      (logic_error (codes "pid set more than once for auxiliary process " ++ p.name))
  put (record p { pid = pid })

abbrev pub is_positive : ℤ → Bool
is_positive (pos n) = ltb 0 n
is_positive (negsuc n) = false

abbrev pub is_zero : ℤ → Bool
is_zero (pos n) = not (ltb 0 n)
is_zero (negsuc n) = false

abbrev pub unexpected_fork : Exn
unexpected_fork = syscall_failed_text (codes "fork") (codes "unexpected return value")

-- The four branches behind a call of fork.
abbrev pub forked : ℤ × ℕ → Role → (ℤ → M MainApp Role) → M MainApp Role
forked (pid, errno) child go_on s =
    if equal pid minus_one
    then (throw (syscall_failed (codes "fork") errno), s)
    else if is_zero pid
    then (ok child, s)
    else if is_positive pid
    then go_on pid s
    else (throw unexpected_fork, s)

-- The parent's part of `SpawnAuxiliaryProcess`, for the process behind `before`.
abbrev pub keep_auxiliary :
    List AuxiliaryProcess → AuxiliaryProcess → List AuxiliaryProcess → ℤ → M MainApp (Unit {0})
keep_auxiliary before p behind pid s =
    let r = set_pid pid p in
    continue (r.0, record s { auxiliary_processes = before ++ r.1 ∷ behind })
      λ _ t. (ok tt, record t { auxiliary_pids = t.auxiliary_pids ++ pid ∷ [] })

-- The loop over the auxiliary processes; the entries in `before` have been started.
unfoldable pub spawn_auxiliaries :
    Fork → ℕ → List AuxiliaryProcess → List AuxiliaryProcess → M MainApp Role
spawn_auxiliaries fork k before [] s = (ok parent, s)
spawn_auxiliaries fork k before (p ∷ behind) s =
    let go_on : ℤ → M MainApp Role = λ pid.
      keep_auxiliary before p behind pid
      >> spawn_auxiliaries fork (k + 1) (before ++ record p { pid = pid } ∷ []) behind in
    forked (fork k) (auxiliary_child k) go_on s

abbrev pub is_at : Option ℤ → ℤ → Bool
is_at none pid = false
is_at (some p) pid = equal p pid

-- `worker_pids_.push_back(pid)` and the assertion that it stands at the worker's number.
abbrev pub keep_worker : ℕ → ℤ → M MainApp (Unit {0})
keep_worker workerno pid = do
  s ← get
  put (record s { worker_pids = s.worker_pids ++ pid ∷ [] })
  t ← get
  assert (is_at (get_elem? t.worker_pids workerno) pid)

-- The loop over the workers, from `workerno` on, with `n` rounds left.
unfoldable pub spawn_workers : Fork → ℕ → ℕ → ℕ → M MainApp Role
spawn_workers fork k workerno zero s = (ok parent, s)
spawn_workers fork k workerno (suc n) s =
    let go_on : ℤ → M MainApp Role =
      λ pid. keep_worker workerno pid >> spawn_workers fork (k + 1) (workerno + 1) n in
    forked (fork k) (worker_child workerno) go_on s

-- `shmem_->LockAllocations()`
abbrev pub lock_shmem : M MainApp (Unit {0})
lock_shmem s = let r = lock_allocations s.shmem in (r.0, record s { shmem = r.1 })

-- A call into Perl: no error, or the message of the PerlInterpreterException, which is logged.
abbrev pub perl_call : Bytes → Option Bytes → M MainApp (Unit {0})
perl_call what none = return tt
perl_call what (some message) = do log ls_error (text (what ++ message)); quit 1

-- The destructor of the interpreter when `Destroy` was not called.
abbrev pub not_destroyed {ℓ} : {A : Type ℓ} → M MainApp A
not_destroyed s = (
  exited 1,
  record s {
    stderr =
        s.stderr
        ++ (codes "BPSGIPerlInterpreter destroyed without calling Destroy" ++ 10 ∷ []) ∷ [];
  },
)

-- An exception for which `main` has a handler, and which leaves the function that has the Perl
-- interpreter, destroys it on the way. Any other has no handler, and ends the process by
-- std::terminate.
abbrev pub unwinding {ℓ} : {A : Type ℓ} → Outcome A × MainApp → Outcome A × MainApp
unwinding (throw (syscall_failed call errno), s) = not_destroyed s
unwinding (throw (syscall_failed_text call error), s) = not_destroyed s
unwinding (throw (runtime_error error), s) = not_destroyed s
unwinding (throw e, s) = (aborted, s)
unwinding (ok a, s) = (ok a, s)
unwinding (exited n, s) = (exited n, s)
unwinding (aborted, s) = (aborted, s)

-- Then behind a role: only the parent goes on.
abbrev pub if_parent : Role → M MainApp Role → M MainApp Role
if_parent parent m = m
if_parent (auxiliary_child k) m = return (auxiliary_child k)
if_parent (worker_child k) m = return (worker_child k)
if_parent monitoring_child m = return monitoring_child

-- `main_callback.release()` and `interpreter->Destroy()`, whose exception has no handler.
abbrev pub destroy : Option Bytes → M MainApp Role
destroy none s = (ok parent, s)
destroy (some message) s = (aborted, s)

-- What the four calls into Perl report, in their order. Before the interpreter is there, nothing
-- is destroyed.
pub record PerlCalls : Type 0 where
  pub initialize : Option Bytes
  pub load_wrapper : Option Bytes
  pub load_application : Option Bytes
  pub destroyed : Option Bytes

unfoldable pub spawn_workers_and_auxiliary_processes :
    Fork → PerlCalls → List Bytes → ℕ → M MainApp Role
spawn_workers_and_auxiliary_processes fork perl names nworkers = do
  perl_call (codes "Could not initialize Perl interpreter: ") perl.initialize
  perl_call (codes "Could not initialize PSGI application: ") perl.load_wrapper
  request_all names
  perl_call (codes "Could not initialize PSGI loader or callback: ") perl.load_application
  λ s. unwinding (
      (do
        lock_shmem
        t ← get
        role ← spawn_auxiliaries fork 0 [] t.auxiliary_processes
        if_parent role do
          last ← spawn_workers fork (length t.auxiliary_processes) 0 nworkers
          if_parent last (destroy perl.destroyed))
        s)

-- The overseer closes its descriptor of the statistics socket behind the fork.
unfoldable pub spawn_monitoring_process : Fork → ℕ → M MainApp Role
spawn_monitoring_process fork k =
    forked (fork k) monitoring_child
      λ pid s. (ok parent, record s { monitoring_process_pid = pid; stats_sockfd_open = false })
