-- ===== src/MainApp.antt =====
-- `BPSGIMainApplication` (src/bladepsgi.hpp, src/bladepsgi.cpp): the overseer process. The state is
-- the object with the file's static variables, the bytes in the self-pipe, and what the process has
-- done to the outside: the signals that it sent, the lines that it logged, and what it wrote to stderr.
pub mod MainLoop
pub mod Kill
pub mod Children
pub mod Reaped
pub mod Deaths
pub mod Shutdown
pub mod Spared
pub mod Auxiliaries
pub mod Spawn
pub mod Forks
pub mod Started
pub mod Flags
pub mod Wakeup
pub mod ChildProcess
use blade_psgi.Base.{
  ℕ, ◌+◌, ◌/◌, ◌%◌, ◌≡◌, Bool, true, false, not, ◌&&◌, ◌||◌, Option, none, some, List, [], ◌∷◌,
  ◌++◌, ltb, leb, ◌==◌, if◌then◌else◌,
}
use blade_psgi.Base.Bytes.{Bytes, codes}
use blade_psgi.Base.Words.{ℤ, pos, minus_one, equal}
use blade_psgi.Base.Outcome.{
  Exn, syscall_failed, logic_error, Outcome, ok, throw, exited, aborted, M, ◌>>=◌, ◌>>◌, return,
  raise, quit, throw_if, assert, get, put,
}
use blade_psgi.Shmem.{SharedMemory, set_should_exit_immediately}

pub data Signal : Type 0 where
  sigquit sigterm sigint sigchld : Signal
  other_signal : ℕ → Signal

pub data LogSeverity : Type 0 where
  ls_log ls_warning ls_error ls_fatal ls_panic : LogSeverity

-- A line of the log, before its arguments are formatted.
pub data Message : Type 0 where
  text : Bytes → Message
  died_to_signal : Bytes → ℤ → ℕ → Message  -- "%s (pid %ld) died to signal %d"
  exited_with_code : Bytes → ℤ → ℕ → Message  -- "%s (pid %ld) exited with code %d"
  unknown_child : ℤ → ℕ → Message  -- "unknown child process %ld exited with code %d"

pub record AuxiliaryProcess : Type 0 where
  pub name : Bytes
  pub pid : ℤ

pub record MainApp : Type 0 where
  pub monitoring_process_pid : ℤ
  pub worker_pids : List ℤ
  pub auxiliary_pids : List ℤ
  pub auxiliary_processes : List AuxiliaryProcess
  pub shmem : SharedMemory
  -- Whether this process has a descriptor of the statistics socket.
  pub stats_sockfd_open : Bool
  -- The static variables, 1 being `true`.
  pub shutdown : Bool
  pub fast_shutdown : Bool
  pub smart_shutdown : Bool
  pub force_fast_shutdown : Bool
  -- The world outside.
  pub self_pipe : ℕ
  pub killed : List (ℤ × Signal)
  pub logged : List (LogSeverity × Message)
  pub stderr : List Bytes

-- The object as its constructor makes it, with the segment of `InitializeSharedMemory`.
abbrev pub new_main_app : SharedMemory → MainApp
new_main_app shmem = record {
  monitoring_process_pid = minus_one;
  worker_pids = [];
  auxiliary_pids = [];
  auxiliary_processes = [];
  shmem = shmem;
  stats_sockfd_open = true;
  shutdown = false;
  fast_shutdown = false;
  smart_shutdown = false;
  force_fast_shutdown = false;
  self_pipe = 0;
  killed = [];
  logged = [];
  stderr = [];
}

abbrev pub log : LogSeverity → Message → M MainApp (Unit {0})
log severity m s = (ok tt, record s { logged = s.logged ++ (severity, m) ∷ [] })

abbrev pub kill : ℤ → Signal → M MainApp (Unit {0})
kill pid sig s = (ok tt, record s { killed = s.killed ++ (pid, sig) ∷ [] })

abbrev pub is_kill_signal : Signal → Bool
is_kill_signal sigquit = true
is_kill_signal sigterm = true
is_kill_signal _ = false

-- The loop of `KillProcessGroup`.
pub kill_each : List ℤ → Signal → M MainApp (Unit {0})
kill_each [] sig = return tt
kill_each (pid ∷ pids) sig = do kill pid sig; kill_each pids sig

unfoldable pub kill_process_group : Signal → M MainApp (Unit {0})
unfolding kill_each
kill_process_group sig = do
  assert (is_kill_signal sig)
  s ← get
  kill_each s.worker_pids sig
  if equal s.monitoring_process_pid minus_one then return tt else kill s.monitoring_process_pid sig

-- What `write` to the self-pipe does: one byte, or `errno`.
pub data Written : Type 0 where
  wrote would_block : Written
  write_failed : ℕ → Written

abbrev pub wake : Written → M MainApp (Unit {0})
wake wrote s = (ok tt, record s { self_pipe = s.self_pipe + 1 })
wake would_block s = (ok tt, s)
wake (write_failed errno) s = (exited 3, s)

-- `HandleParentSignal`, which runs in a signal handler.
unfoldable pub handle_parent_signal : Signal → Written → M MainApp (Unit {0})
handle_parent_signal sigquit w = do kill_process_group sigquit; quit 1
handle_parent_signal sigterm w = do
  s ← get
  put (record s { smart_shutdown = true; shutdown = true })
  wake w
handle_parent_signal sigint w = do
  s ← get
  put (record s { fast_shutdown = true; shutdown = true })
  wake w
handle_parent_signal sigchld w = wake w
handle_parent_signal (other_signal n) w = λ s. (aborted, s)

-- The macros of <sys/wait.h> on the status of `waitpid`.
abbrev pub wtermsig : ℕ → ℕ
wtermsig status = status % 128

abbrev pub wifsignaled : ℕ → Bool
wifsignaled status = not (wtermsig status == 0 || wtermsig status == 127)

abbrev pub wexitstatus : ℕ → ℕ
wexitstatus status = status / 256 % 256

-- `shmem()->SetShouldExitImmediately()`
abbrev pub ask_exit : M MainApp Bool
ask_exit s = let r = set_should_exit_immediately s.shmem in (r.0, record s { shmem = r.1 })

abbrev pub death_message : Bytes → ℤ → ℕ → Message
death_message process pid status =
    if wifsignaled status
    then died_to_signal process pid (wtermsig status)
    else exited_with_code process pid (wexitstatus status)

unfoldable pub handle_unexpected_child_process_death : Bytes → ℤ → ℕ → M MainApp (Unit {0})
handle_unexpected_child_process_death process pid status = do
  first ← ask_exit
  if first then log ls_panic (death_message process pid status) else return tt
  kill_process_group sigquit
  quit 1

-- std::find in a vector of pids, and erase at what it found.
unfoldable pub found : ℤ → List ℤ → Bool
found pid [] = false
found pid (p ∷ ps) = equal p pid || found pid ps

unfoldable pub erase : ℤ → List ℤ → List ℤ
erase pid [] = []
erase pid (p ∷ ps) = if equal p pid then ps else p ∷ erase pid ps

-- The loop over `auxiliary_processes_`: the name of the first with this pid.
unfoldable pub auxiliary_name : ℤ → List AuxiliaryProcess → Option Bytes
auxiliary_name pid [] = none
auxiliary_name pid (p ∷ ps) = if equal p.pid pid then some p.name else auxiliary_name pid ps

abbrev pub auxiliary_died : Option Bytes → ℤ → ℕ → M MainApp (Unit {0})
auxiliary_died none pid status s = (aborted, s)
auxiliary_died (some name) pid status s =
    handle_unexpected_child_process_death (codes "auxiliary process " ++ name) pid status s

abbrev pub unless_shutdown : M MainApp (Unit {0}) → M MainApp (Unit {0})
unless_shutdown m s = if s.shutdown then (ok tt, s) else m s

unfoldable pub handle_child_process_death : ℤ → ℕ → M MainApp (Unit {0})
handle_child_process_death pid status s =
    if found pid s.worker_pids
    then (do
      unless_shutdown (handle_unexpected_child_process_death (codes "worker process") pid status)
      t ← get
      put (record t { worker_pids = erase pid t.worker_pids }))
        s
    else if found pid s.auxiliary_pids
    then (do
      unless_shutdown (auxiliary_died (auxiliary_name pid s.auxiliary_processes) pid status)
      t ← get
      put (record t { auxiliary_pids = erase pid t.auxiliary_pids }))
        s
    else if equal pid s.monitoring_process_pid
    then (do
      unless_shutdown
          (handle_unexpected_child_process_death (codes "monitoring process") pid status)
      t ← get
      put (record t { monitoring_process_pid = minus_one }))
        s
    else (do first ← ask_exit; log ls_fatal (unknown_child pid (wexitstatus status)); quit 1) s
