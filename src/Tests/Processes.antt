-- ===== src/Tests/Processes.antt =====
-- A worker that serves three requests; SIGTERM arrives during the second.
use blade_psgi.Base.{◌^◌, ◌<◌, ◌≡◌, refl, true, false, none, some, List, [], ◌∷◌, arith, All}
use blade_psgi.Shmem.Memory.{load}
use blade_psgi.Shmem.{should_exit_immediately, read_request_counter}
use blade_psgi.Shmem.Accesses.{IsPlaced, count_request, add_to}
use blade_psgi.Worker.{Worker, Call, run}
use blade_psgi.Worker.Serving.{verdict, Ends, run-Ends}
use blade_psgi.Tests.Segment.{shm}

abbrev worker : Worker
worker = record { workerno = 1; shmem = shm; terminated = false; logged = [] }

abbrev served : Call
served = record { accesses = count_request ∷ add_to 48 1 ∷ []; sigterm = false; error = none }

abbrev interrupted : Call
interrupted = record served { sigterm = true }

abbrev calls : List Call
calls = served ∷ interrupted ∷ served ∷ []

-- It exits with 0 when four requests are counted, of which two are its own.
verdict-calls : verdict calls ≡ some (0, 4)
verdict-calls = refl

calls-IsPlaced : All (λ c. All IsPlaced c.accesses) calls
calls-IsPlaced = omega arith

no_exit : should_exit_immediately shm ≡ false
unfolding should_exit_immediately
no_exit = refl

few_counted : read_request_counter shm < 2 ^ 64
unfolding read_request_counter load
few_counted = omega arith

run-Ends_example : Ends worker (verdict calls) (run calls worker)
run-Ends_example = run-Ends calls worker calls-IsPlaced no_exit refl few_counted
