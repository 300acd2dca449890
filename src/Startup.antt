-- ===== src/Startup.antt =====
-- The start of `BPSGIMainApplication::Run` in src/bladepsgi.cpp: InitializeSelfPipe,
-- InitializeSharedMemory, InitializeMainFastCGISocket and InitializeStatsSocket with
-- InitializeUNIXSocket. The operating system is the parameter of Unix.antt; `strerror` gives the
-- text of an `errno`.
pub mod Unix
pub mod SocketFile
pub mod BothSockets
pub mod SelfPipe
pub mod Prepared
pub use Unix.{Answer, done, failed, UnixLib, UnixLaws, Spares, SameSockets, KeepsFlags, KeepsOwners}
use blade_psgi.Base.{
  ℕ, ◌+◌, ◌-◌, ◌/◌, ◌%◌, ◌^◌, ◌≡◌, Bool, true, false, not, Option, none, some, List, [], ◌∷◌, ◌++◌,
  take, ◌==◌, if◌then◌else◌,
}
use blade_psgi.Base.Bytes.{Bytes, codes}
use blade_psgi.Base.Outcome.{
  Exn, syscall_failed, runtime_error, Outcome, ok, throw, exited, aborted, M, ◌>>=◌, ◌>>◌, return,
  throw_if, assert,
}
use blade_psgi.Shmem.{SharedMemory, new_shared_memory, set_should_exit_immediately}

-- The operating system, and the fields that the start sets; `none` stands for -1 and for NULL.
pub record Setup (S : Type 0) : Type 0 where
  pub os : S
  pub overseer_self_pipe : Option (ℕ × ℕ)
  pub shmem : Option SharedMemory
  pub fastcgi_sockfd : Option ℕ
  pub stats_sockfd : Option ℕ

-- The paths that the object was made with.
pub record Paths : Type 0 where
  pub fastcgi_socket_path : Bytes
  pub stats_socket_path : Bytes

-- `snprintf` into the 108 bytes of `sun_path`.
abbrev pub sun_path : Bytes → Bytes
sun_path path = take 107 path

abbrev pub o_nonblock : ℕ
o_nonblock = 2048

abbrev pub is_nonblocking : ℕ → Bool
is_nonblocking flags = (flags / o_nonblock) % 2 == 1

-- `flags |= O_NONBLOCK`
abbrev pub set_nonblock : ℕ → ℕ
set_nonblock flags = if is_nonblocking flags then flags else flags + o_nonblock

abbrev pub map_failed : ℕ
map_failed = 2 ^ 64 - 1

abbrev pub is_allocated : Option SharedMemory → Bool
is_allocated none = false
is_allocated (some s) = true

module _ {S : Type 0} (lib : UnixLib S) where
  -- The errors of the system calls.
  abbrev pub checked : Bytes → Option ℕ × S → Outcome (Unit {0}) × S
  checked call (none, s) = (ok tt, s)
  checked call (some errno, s) = (throw (syscall_failed call errno), s)

  abbrev pub answered : {A : Type 0} → Bytes → Answer A × S → Outcome A × S
  answered call (done a, s) = (ok a, s)
  answered call (failed errno, s) = (throw (syscall_failed call errno), s)

  module _ (strerror : ℕ → Bytes) where
    abbrev pub removed : Bytes → Option ℕ × S → Outcome (Unit {0}) × S
    removed path (none, s) = (ok tt, s)
    removed path (some errno, s) = (
      throw (
          runtime_error
            (codes "could not remove socket file " ++ (path ++ (codes ": " ++ strerror errno)))),
      s,
    )

    -- An earlier socket file is removed, and any other file is an error.
    abbrev pub clear_path : Bytes → Option Bool → M S (Unit {0})
    clear_path path none s = (ok tt, s)
    clear_path path (some false) s = (
      throw
          (runtime_error (codes "file " ++ (path ++ codes " already exists and is not a socket"))),
      s,
    )
    clear_path path (some true) s = removed path (lib.unlink path s)

    unfoldable pub initialize_unix_socket : Bytes → ℕ → M S ℕ
    initialize_unix_socket path listen_backlog_size = do
      sockfd ← λ s. answered (codes "socket") (lib.socket s)
      λ s. clear_path (sun_path path) (lib.stat (sun_path path) s) s
      λ s. checked (codes "bind") (lib.bind sockfd (sun_path path) s)
      λ s. checked (codes "listen") (lib.listen sockfd listen_backlog_size s)
      return sockfd

    abbrev pub in_fastcgi : Setup S → Outcome ℕ × S → Outcome (Unit {0}) × Setup S
    in_fastcgi s (ok fd, os) = (ok tt, record s { os = os; fastcgi_sockfd = some fd })
    in_fastcgi s (throw e, os) = (throw e, record s { os = os })
    in_fastcgi s (exited n, os) = (exited n, record s { os = os })
    in_fastcgi s (aborted, os) = (aborted, record s { os = os })

    abbrev pub in_stats : Setup S → Outcome ℕ × S → Outcome (Unit {0}) × Setup S
    in_stats s (ok fd, os) = (ok tt, record s { os = os; stats_sockfd = some fd })
    in_stats s (throw e, os) = (throw e, record s { os = os })
    in_stats s (exited n, os) = (exited n, record s { os = os })
    in_stats s (aborted, os) = (aborted, record s { os = os })

    unfoldable pub initialize_main_fastcgi_socket : Bytes → M (Setup S) (Unit {0})
    initialize_main_fastcgi_socket path s = in_fastcgi s (initialize_unix_socket path 16384 s.os)

    unfoldable pub initialize_stats_socket : Bytes → M (Setup S) (Unit {0})
    initialize_stats_socket path s = in_stats s (initialize_unix_socket path 64 s.os)

  abbrev pub set_non_blocking : ℕ → M S (Unit {0})
  set_non_blocking fildes = do
    flags ← λ s. answered (codes "fcntl") (lib.fcntl_getfl fildes s, s)
    λ s. checked (codes "fcntl") (lib.fcntl_setfl fildes (set_nonblock flags) s)

  abbrev pub in_self_pipe : Setup S → ℕ × ℕ → Outcome (Unit {0}) × S → Outcome (Unit {0}) × Setup S
  in_self_pipe s ends (r, os) = (r, record s { os = os; overseer_self_pipe = some ends })

  abbrev pub piped : Setup S → Answer (ℕ × ℕ) × S → Outcome (Unit {0}) × Setup S
  piped s (failed errno, os) = (throw (syscall_failed (codes "pipe") errno), record s { os = os })
  piped s (done ends, os) =
      in_self_pipe s ends ((set_non_blocking ends.0 >> set_non_blocking ends.1) os)

  unfoldable pub initialize_self_pipe : M (Setup S) (Unit {0})
  initialize_self_pipe s = piped s (lib.pipe s.os)

  -- The constructor of the segment writes to it; at MAP_FAILED, where nothing is mapped, the fault
  -- ends the process as abort does. New memory holds zeros.
  abbrev pub construct_segment : ℕ → M (Setup S) (Unit {0})
  construct_segment mem s =
      if mem == map_failed
      then (aborted, s)
      else (ok tt, record s { shmem = some (new_shared_memory (λ p. 0) 4096) })

  -- Which `errno` the exception has is not modelled: mmap never gives NULL here.
  unfoldable pub initialize_shared_memory : M (Setup S) (Unit {0})
  initialize_shared_memory = do
    λ s. assert (not (is_allocated s.shmem)) s
    mem ← λ s. (let r = lib.mmap 4096 s.os in (ok r.0, record s { os = r.1 }))
    throw_if (mem == 0) (syscall_failed (codes "mmap") 0)
    construct_segment mem

  unfoldable pub prepare : (ℕ → Bytes) → Paths → M (Setup S) (Unit {0})
  prepare strerror paths = do
    initialize_self_pipe
    initialize_shared_memory
    initialize_main_fastcgi_socket strerror paths.fastcgi_socket_path
    initialize_stats_socket strerror paths.stats_socket_path

-- `BPSGIMainApplication::SetShouldExitImmediately`, where there may be no segment yet.
abbrev pub ask_exit_early : Option SharedMemory → Outcome Bool × Option SharedMemory
ask_exit_early none = (ok true, none)
ask_exit_early (some m) = let r = set_should_exit_immediately m in (r.0, some r.1)

abbrev pub log_reason : Bytes → Outcome Bool → List Bytes
log_reason message (ok true) = message ∷ []
log_reason message _ = []

-- What a handler of `main` and the end of `main` do with the text of an exception, before there are
-- children: the segment and the lines that are logged. KillProcessGroup finds no process.
unfoldable pub end_early :
    Bytes → Option SharedMemory → Outcome (Unit {0}) × (Option SharedMemory × List Bytes)
end_early message shmem = let r = ask_exit_early shmem in (exited 1, (r.1, log_reason message r.0))
