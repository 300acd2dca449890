-- ===== src/Monitoring.antt =====
-- `BPSGIMonitoring` (src/monitoring.cpp), and `RunnerDied` and `RunMonitoringProcess` of
-- src/bladepsgi.cpp: the process that serves the statistics. The state is its view of the segment,
-- the pages that it wrote to clients, and its log.
pub mod Page
pub mod Watch
use blade_psgi.Base.{
  ℕ, ◌+◌, ◌≡◌, Bool, true, false, ◌||◌, Option, none, some, List, [], ◌∷◌, ◌++◌, ltb, ◌==◌,
  if◌then◌else◌,
}
use blade_psgi.Base.Bytes.{Bytes, codes}
use blade_psgi.Base.Words.{ℤ, pos, signed64}
use blade_psgi.Base.Decimal.{print_int}
use blade_psgi.Base.Outcome.{
  syscall_failed, syscall_failed_text, Outcome, ok, throw, exited, aborted, M, continue, ◌>>=◌,
  ◌>>◌, return, raise, quit,
}
use blade_psgi.Shmem.PosixSem.{SemLib, eintr}
use blade_psgi.Shmem.{
  SharedMemory, Semaphore, AtomicInt64, read_atomic, read_request_counter, get_all_worker_statuses,
  set_should_exit_immediately,
}
use blade_psgi.Shmem.Accesses.{Access, after}
use blade_psgi.Semaphore.{read}

pub record Monitoring : Type 0 where
  pub shmem : SharedMemory
  pub written : List Bytes
  pub logged : List Bytes

abbrev pub newline : Bytes
newline = 10 ∷ []

-- `accept`: a client, or `errno`.
pub data Accepted : Type 0 where
  client : Accepted
  accept_failed : ℕ → Accepted

abbrev pub econnaborted : ℕ
econnaborted = 103

module _ (lib : SemLib) where
  -- The loops over the semaphores and the atomic integers.
  unfoldable pub semaphore_lines : List Semaphore → M SharedMemory Bytes
  semaphore_lines [] s = (ok [], s)
  semaphore_lines (sem ∷ sems) s =
      (do
        value ← read lib sem
        rest ← semaphore_lines sems
        return (codes "sem " ++ sem.name ++ codes ": " ++ print_int (pos value) ++ newline ++ rest))
        s

unfoldable pub atomic_lines : List AtomicInt64 → SharedMemory → Bytes
atomic_lines [] s = []
atomic_lines (atm ∷ atms) s =
    codes "atomic "
    ++ atm.name
    ++ codes ": "
    ++ print_int (signed64 (read_atomic atm s))
    ++ newline
    ++ atomic_lines atms s

module _ (lib : SemLib) where
  -- The text that `HandleClient` writes.
  unfoldable pub statdata : ℤ → Bytes → M SharedMemory Bytes
  statdata start_time worker_statuses s =
      (do
        sems ← semaphore_lines lib s.semaphores
        return (
            print_int start_time
            ++ newline
            ++ worker_statuses
            ++ newline
            ++ print_int (signed64 (read_request_counter s))
            ++ newline
            ++ newline
            ++ sems
            ++ atomic_lines s.atomics s))
        s

  abbrev pub write_page : Outcome Bytes × SharedMemory → M Monitoring (Unit {0})
  write_page (ok page, s) m = (ok tt, record m { shmem = s; written = m.written ++ page ∷ [] })
  write_page (throw e, s) m = (throw e, m)
  write_page (exited n, s) m = (exited n, m)
  write_page (aborted, s) m = (aborted, m)

  unfoldable pub handle_client : Accepted → ℤ → Bytes → M Monitoring (Unit {0})
  handle_client client start_time worker_statuses m =
      write_page (statdata start_time worker_statuses m.shmem) m
  handle_client (accept_failed errno) start_time worker_statuses m =
      if errno == eintr || errno == econnaborted
      then (ok tt, m)
      else (throw (syscall_failed (codes "accept") errno), m)

-- `select` on the listening socket, which is ready, timed out, or failed, or gave another value.
pub data Polled : Type 0 where
  timed_out ready : Polled
  select_failed : ℕ → Polled
  unexpected : Polled

-- A round of the loop of `Run`: what the other processes did to the segment before it, whether
-- `getppid` says that the overseer is dead, and what select and accept return.
pub record Round : Type 0 where
  pub accesses : List Access
  pub runner_died : Bool
  pub polled : Polled
  pub accepted : Accepted

abbrev pub orphaned : Bytes
orphaned =
    codes "monitoring process noticed that the parent process has died; terminating all processes"

abbrev pub leave_orphaned : M Monitoring (Unit {0})
leave_orphaned m =
    let r = set_should_exit_immediately m.shmem in
    let left = record m { shmem = r.1 } in
    elim r.0 [
      | ok won ↦
          (exited 1, if won then record left { logged = m.logged ++ orphaned ∷ [] } else left)
      | throw e ↦ (throw e, left)
      | exited n ↦ (exited n, left)
      | aborted ↦ (aborted, left)
    ]

module _ (lib : SemLib) (nworkers : ℕ) (start_time : ℤ) where
  unfoldable pub poll : Polled → Accepted → M Monitoring (Unit {0})
  poll timed_out accepted m = (ok tt, m)
  poll (select_failed errno) accepted m =
      if errno == eintr then (ok tt, m) else (throw (syscall_failed (codes "select") errno), m)
  poll ready accepted m =
      handle_client lib accepted start_time (get_all_worker_statuses nworkers m.shmem) m
  poll unexpected accepted m =
      (throw (syscall_failed_text (codes "select") (codes "unexpected return value")), m)

  unfoldable pub watch_round : Round → M Monitoring (Unit {0})
  watch_round r m =
      let now = record m { shmem = after m.shmem r.accesses } in
      if r.runner_died then leave_orphaned now else poll r.polled r.accepted now

  -- The loop, for the given rounds: the process goes on behind them, or it has ended.
  unfoldable pub run : List Round → M Monitoring (Unit {0})
  run [] m = (ok tt, m)
  run (r ∷ rs) m = continue (watch_round r m) λ u. run rs
