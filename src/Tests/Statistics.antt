-- ===== src/Tests/Statistics.antt =====
-- The monitoring process, and the beginnings of processes.
use blade_psgi.Base.{ℕ, ◌≤◌, ◌≡◌, refl, ◌⊎◌, true, false, none, [], ◌∷◌, ◌++◌, arith, ◌==◌}
use blade_psgi.Base.Bytes.{Bytes, codes}
use blade_psgi.Base.Words.{pos}
use blade_psgi.Base.Outcome.{ok}
use blade_psgi.Shmem.{Semaphore}
use blade_psgi.Shmem.Accesses.{after}
use blade_psgi.Monitoring.{Monitoring, Round, client, ready, statdata, run}
use blade_psgi.Monitoring.Page.{split_lines, page_lines, statdata-page_lines}
use blade_psgi.Monitoring.Watch.{IsCalm, segment_after, LeavesOrphaned, run-LeavesOrphaned}
use blade_psgi.Process.{Process, worker, sig_dfl}
use blade_psgi.Process.Readiness.{IsDeaf, IsReady, after_calls, set_up-IsReady}
use blade_psgi.Tests.Sems.{byte_sems}
use blade_psgi.Tests.Segment.{shm}

-- The only semaphore has the value 2.
abbrev two : Semaphore → ℕ
two x = 2

statdata-page_lines_example :
    (page : Bytes) × (statdata byte_sems (pos 1700000000) (codes "_R_") shm ≡ (ok page, shm))
    × (split_lines page ≡ page_lines (pos 1700000000) (codes "_R_") two shm ++ [] ∷ [])
statdata-page_lines_example =
    statdata-page_lines byte_sems two shm (pos 1700000000) (codes "_R_") (refl, tt) (ground arith)
      (ground arith) (ground arith)

abbrev monitoring : Monitoring
monitoring = record { shmem = shm; written = []; logged = [] }

abbrev serves : Round
serves = record { accesses = []; runner_died = false; polled = ready; accepted = client }

abbrev sees_death : Round
sees_death = record serves { runner_died = true }

calm : IsCalm byte_sems shm (serves ∷ serves ∷ [])
unfolding after
calm = (refl, tt, ((2, refl), tt), (refl, tt, ((2, refl), tt), tt))

low : (after (segment_after shm (serves ∷ serves ∷ [])) []).segment 0 ≤ 1
unfolding after
low = omega arith

run-LeavesOrphaned_example :
    LeavesOrphaned
      (after (segment_after shm (serves ∷ serves ∷ [])) [])
      2
      []
      (run byte_sems 3 (pos 0) (serves ∷ serves ∷ sees_death ∷ []) monitoring)
run-LeavesOrphaned_example =
    run-LeavesOrphaned byte_sems 3 (pos 0) (serves ∷ serves ∷ []) sees_death [] monitoring calm refl
      low

abbrev started : Process
started = record {
  mask = λ sig. sig == 1;
  signal_mask_stack = [];
  handlers = λ sig. sig_dfl;
  death_signal = none;
  title = codes "bladepsgi";
}

set_up-IsReady_example :
    let r = after_calls (worker (codes "worker 0")) 6 started in
    (r.0 ≡ ok tt) × (IsDeaf r.1 ⊎ ((6 ≤ 6) × IsReady (worker (codes "worker 0")) started r.1))
set_up-IsReady_example = set_up-IsReady (worker (codes "worker 0")) 6 started refl
