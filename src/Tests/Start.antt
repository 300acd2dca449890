-- ===== src/Tests/Start.antt =====
-- The start of the program on the small operating system.
use blade_psgi.Base.{refl, List, [], ◌∷◌, arith}
use blade_psgi.Base.Bytes.{Bytes, codes}
use blade_psgi.Base.Words.{pos}
use blade_psgi.Shmem.Requests.{Request, semaphore, atomic}
use blade_psgi.Run.{run_start}
use blade_psgi.Run.Children.{loads, Starts, run_start-Starts}
use blade_psgi.Tests.Sems.{byte_sems}
use blade_psgi.Tests.Overseer.{counting_fork, counting_fork-Forks}
use blade_psgi.Tests.Sockets.{system, system-laws, start, paths, no_text}

abbrev requests : List Request
requests = semaphore (codes "lock") (pos 1) ∷ atomic (codes "hits") (pos 0) ∷ []

abbrev names : List Bytes
names = codes "mailer" ∷ []

run_start-Starts_example :
    Starts system paths 32 2 3 names
      (run_start system byte_sems no_text paths counting_fork (loads requests names) 3 start)
run_start-Starts_example =
    run_start-Starts system paths byte_sems no_text counting_fork requests names 3 start system-laws
      counting_fork-Forks (omega arith) (omega arith) refl
