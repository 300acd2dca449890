-- ===== src/Worker.antt =====
-- `BPSGIWorker` (src/worker.cpp), and `RunWorker` of src/bladepsgi.cpp: the process of one worker.
-- The state is the process's view of the segment, its `_worker_terminated`, and its log.
pub mod Serving
use blade_psgi.Base.{
  ℕ, Bool, true, false, ◌||◌, Option, none, some, List, [], ◌∷◌, ◌++◌, if◌then◌else◌,
}
use blade_psgi.Base.Bytes.{Bytes, codes}
use blade_psgi.Base.Outcome.{
  Exn, perl_error, logic_error, Outcome, ok, throw, exited, aborted, M, continue, ◌>>=◌, ◌>>◌, get,
  quit, return,
}
use blade_psgi.Shmem.{
  SharedMemory, should_exit_immediately, set_worker_status, increase_request_counter,
}
use blade_psgi.Shmem.Accesses.{Access, after}

pub record Worker : Type 0 where
  pub workerno : ℕ
  pub shmem : SharedMemory
  pub terminated : Bool
  pub logged : List Bytes

-- `worker_sigterm_handler` and `worker_sigquit_handler`
unfoldable pub sigterm_handler : M Worker (Unit {0})
sigterm_handler w = (ok tt, record w { terminated = true })

unfoldable pub sigquit_handler : M Worker (Unit {0})
sigquit_handler w = (exited 2, w)

-- What happens while the callback, which is Perl, serves a request: the accesses of all processes
-- to the segment, whether SIGTERM arrives, and the message of the Perl exception, if it dies.
pub record Call : Type 0 where
  pub accesses : List Access
  pub sigterm : Bool
  pub error : Option Bytes

abbrev pub raised : Option Bytes → Outcome (Unit {0})
raised none = ok tt
raised (some m) = throw (perl_error m)

abbrev pub call : Call → M Worker (Unit {0})
call c w =
    let served = record w { shmem = after w.shmem c.accesses } in
    let t = if c.sigterm then (sigterm_handler served).1 else served in (raised c.error, t)

abbrev pub report : ℕ → M Worker (Unit {0})
report status w = (ok tt, record w { shmem = (set_worker_status w.workerno status w.shmem).1 })

abbrev pub count : M Worker (Unit {0})
count w = (ok tt, record w { shmem = (increase_request_counter w.shmem).1 })

-- The tests at the head of `MainLoopIteration`.
abbrev pub leave : M Worker (Unit {0})
leave w =
    if should_exit_immediately w.shmem
    then (exited 1, w)
    else if w.terminated
    then (exited 0, w)
    else (ok tt, w)

unfoldable pub main_loop_iteration : Call → M Worker (Unit {0})
unfolding sigterm_handler
main_loop_iteration c = do leave; report b'_'; call c; count

-- The handler around the loop of `Run`: a Perl exception is logged.
abbrev pub caught : Outcome (Unit {0}) × Worker → Outcome (Unit {0}) × Worker
caught (throw (perl_error m), w) =
    (exited 1, record w { logged = w.logged ++ (codes "Perl exception: " ++ m) ∷ [] })
caught (ok u, w) = (ok u, w)
caught (throw e, w) = (throw e, w)
caught (exited n, w) = (exited n, w)
caught (aborted, w) = (aborted, w)

abbrev pub looped :
    (Worker → Option (Outcome (Unit {0}) × Worker))
    → Outcome (Unit {0}) × Worker
    → Option (Outcome (Unit {0}) × Worker)
looped again (ok u, w) = again w
looped again (throw e, w) = some (throw e, w)
looped again (exited n, w) = some (exited n, w)
looped again (aborted, w) = some (aborted, w)

-- The worker passed the tests and waits for a request, or it left.
abbrev pub waiting : Outcome (Unit {0}) × Worker → Option (Outcome (Unit {0}) × Worker)
waiting = looped λ w. none

-- The loop, for the requests that come in: no result while the worker waits for the next one.
unfoldable pub run : List Call → Worker → Option (Outcome (Unit {0}) × Worker)
run [] w = waiting (leave w)
run (c ∷ cs) w = looped (run cs) (caught (main_loop_iteration c w))
