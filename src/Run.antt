-- ===== src/Run.antt =====
-- `BPSGIMainApplication::Run` of src/bladepsgi.cpp up to the overseer's signal handlers: the preparation
-- of Startup.antt, and behind it the start of the children of MainApp/Spawn.antt, whose loader makes its
-- requests for shared memory on the new segment.
pub mod Children
use blade_psgi.Base.{ℕ, ◌+◌, Option, none, some, List, length}
use blade_psgi.Base.Bytes.{Bytes}
use blade_psgi.Base.Outcome.{Outcome, ok, throw, exited, aborted, M, ◌>>=◌}
use blade_psgi.Shmem.{SharedMemory}
use blade_psgi.Shmem.PosixSem.{SemLib}
use blade_psgi.Shmem.Requests as Requests
use blade_psgi.MainApp.{MainApp, new_main_app}
use blade_psgi.MainApp.Spawn.{
  Fork, Role, PerlCalls, if_parent, spawn_workers_and_auxiliary_processes, spawn_monitoring_process,
}
use blade_psgi.Startup.{UnixLib, Setup, Paths, prepare}

-- What the loader asks for, and what the calls of Perl report.
pub record Loader : Type 0 where
  pub perl : PerlCalls
  pub requests : List Requests.Request
  pub auxiliaries : List Bytes

-- The object's parts: what is set up, and the rest once there is a segment.
abbrev pub Running : Type 0 → Type 0
Running S = Setup S × Option MainApp

-- The calls of fork are counted: those for the auxiliary processes and the workers come first.
unfoldable pub start_children : Fork → Loader → ℕ → M MainApp Role
start_children fork loader nworkers = do
  role ← spawn_workers_and_auxiliary_processes fork loader.perl loader.auxiliaries nworkers
  λ s. if_parent role (spawn_monitoring_process fork (length s.auxiliary_pids + nworkers)) s

module _ {S : Type 0} (lib : UnixLib S) (semaphores : SemLib) (strerror : ℕ → Bytes) where
  -- The preparation has made the segment.
  abbrev pub with_segment :
      Fork → Loader → ℕ → Setup S → Option SharedMemory → Outcome Role × Running S
  with_segment fork loader nworkers t none = (aborted, (t, none))
  with_segment fork loader nworkers t (some m) =
      let r =
        start_children fork loader nworkers
          (new_main_app (Requests.run semaphores m loader.requests)) in
      (r.0, (t, some r.1))

  abbrev pub prepared : Fork → Loader → ℕ → Outcome (Unit {0}) × Setup S → Outcome Role × Running S
  prepared fork loader nworkers (ok u, t) = with_segment fork loader nworkers t t.shmem
  prepared fork loader nworkers (throw e, t) = (throw e, (t, none))
  prepared fork loader nworkers (exited n, t) = (exited n, (t, none))
  prepared fork loader nworkers (aborted, t) = (aborted, (t, none))

  unfoldable pub run_start : Paths → Fork → Loader → ℕ → Setup S → Outcome Role × Running S
  run_start paths fork loader nworkers s =
      prepared fork loader nworkers (prepare lib strerror paths s)
