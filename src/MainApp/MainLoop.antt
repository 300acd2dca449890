-- ===== src/MainApp/MainLoop.antt =====
-- The loop of `BPSGIMainApplication::Run`: what select, read and waitpid return are arguments.
use blade_psgi.Base.{ℕ, ◌-◌, true, false, Option, none, some, List, [], ◌∷◌, ◌==◌, if◌then◌else◌}
use blade_psgi.Base.Bytes.{codes}
use blade_psgi.Base.Words.{ℤ}
use blade_psgi.Base.Outcome.{
  syscall_failed, syscall_failed_text, Outcome, ok, throw, exited, aborted, M, ◌>>=◌, ◌>>◌, quit,
  get, put,
}
use blade_psgi.Shmem.PosixSem.{eintr, eagain}
use blade_psgi.MainApp.{
  MainApp, sigquit, sigterm, ls_log, text, log, kill_process_group, handle_child_process_death,
}

-- A `read` from the self-pipe: a number of bytes, -1 with `errno`, or 0.
pub data Read : Type 0 where
  got read_failed : ℕ → Read
  end_of_file : Read

-- `DrainSelfPipe`; no result while it still reads.
unfoldable pub drain_self_pipe : List Read → MainApp → Option (Outcome (Unit {0}) × MainApp)
drain_self_pipe [] s = none
drain_self_pipe (got n ∷ reads) s = drain_self_pipe reads (record s { self_pipe = s.self_pipe - n })
drain_self_pipe (read_failed errno ∷ reads) s =
    let rest = drain_self_pipe reads s in
    if errno == eintr
    then rest
    else if errno == eagain
    then some (ok tt, s)
    else some
        (throw (syscall_failed_text (codes "read") (codes "could not read from self-pipe")), s)
drain_self_pipe (end_of_file ∷ reads) s = some (
  throw (
      syscall_failed_text (codes "read")
        (codes "could not read from self-pipe: unexpected return value")),
  s,
)

-- `select` on the read end of the self-pipe.
pub data Selected : Type 0 where
  timed_out woken : Selected
  select_failed : ℕ → Selected  -- -1, with errno
  selected_other : ℕ → Selected

unfoldable pub after_select : Selected → List Read → MainApp → Option (Outcome (Unit {0}) × MainApp)
after_select timed_out reads s = some (ok tt, s)
after_select (select_failed errno) reads s =
    if errno == eintr
    then some (ok tt, s)
    else some (throw (syscall_failed (codes "select") errno), s)
after_select woken reads s = drain_self_pipe reads s
after_select (selected_other n) reads s =
    some (throw (syscall_failed_text (codes "select") (codes "unexpected return value")), s)

-- The flags that the signal handler has set.
unfoldable pub handle_flags : M MainApp (Unit {0})
handle_flags s =
    if s.fast_shutdown
    then (do
      log ls_log (text (codes "received fast shutdown request"))
      kill_process_group sigquit
      t ← get
      put (record t { fast_shutdown = false }))
        s
    else if s.smart_shutdown
    then if s.force_fast_shutdown
      then (do
        log ls_log (text (codes "received second smart shutdown request; shutting down quickly"))
        kill_process_group sigquit
        t ← get
        put (record t { smart_shutdown = false }))
          s
      else (do
        log ls_log (text (codes "received smart shutdown request"))
        kill_process_group sigterm
        t ← get
        put (record t { smart_shutdown = false; force_fast_shutdown = true }))
          s
    else (ok tt, s)

-- `waitpid` with WNOHANG: a child and its status, no child yet, or -1 with `errno`.
pub data Waited : Type 0 where
  child : ℤ → ℕ → Waited
  no_child_yet : Waited
  wait_failed : ℕ → Waited

abbrev pub echild : ℕ
echild = 10

-- The loop at `waitagain`: `continue` is `ok`, and there is no result while it still waits.
abbrev pub reaped :
    (MainApp → Option (Outcome (Unit {0}) × MainApp))
    → Outcome (Unit {0}) × MainApp
    → Option (Outcome (Unit {0}) × MainApp)
reaped again (ok u, s) = again s
reaped again (throw e, s) = some (throw e, s)
reaped again (exited n, s) = some (exited n, s)
reaped again (aborted, s) = some (aborted, s)

unfoldable pub wait_children : List Waited → MainApp → Option (Outcome (Unit {0}) × MainApp)
wait_children [] s = none
wait_children (child pid status ∷ waits) s =
    reaped (wait_children waits) (handle_child_process_death pid status s)
wait_children (no_child_yet ∷ waits) s = some (ok tt, s)
wait_children (wait_failed errno ∷ waits) s =
    let rest = wait_children waits s in
    if errno == echild
    then some ((do log ls_log (text (codes "BladePSGI shutting down")); quit 0) s)
    else if errno == eintr
    then rest
    else some (throw (syscall_failed (codes "waitpid") errno), s)

-- One round of the loop.
unfoldable pub round :
    Selected → List Read → List Waited → MainApp → Option (Outcome (Unit {0}) × MainApp)
round selected reads waits s = elim (after_select selected reads s) [
  | none ↦ none
  | some r ↦ reaped (λ t. reaped (wait_children waits) (handle_flags t)) r
]
