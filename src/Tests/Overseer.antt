-- ===== src/Tests/Overseer.antt =====
-- An overseer with two workers, one auxiliary process and the monitoring process.
use blade_psgi.Base.{
  ◌⊎◌, ℕ, ◌+◌, ◌<◌, ◌≡◌, ◌≢◌, refl, ap, if◌then◌else◌, ◌==◌, inl, inr, true, false, some, List, [],
  ◌∷◌, ◌++◌, arith, All, Pairs, length,
}
use blade_psgi.Base.Bytes.{Bytes, codes}
use blade_psgi.Base.Words.{ℤ, pos, negsuc, minus_one}
use blade_psgi.Base.Outcome.{Outcome, ok, throw, exited, syscall_failed}
use blade_psgi.Shmem.{should_exit_immediately}
use blade_psgi.MainApp.{
  MainApp, sigquit, sigterm, sigint, wrote, found, auxiliary_name, handle_child_process_death,
  handle_parent_signal, ls_log, text, new_main_app,
}
use blade_psgi.MainApp.MainLoop.{handle_flags, wait_children, wait_failed, echild}
use blade_psgi.MainApp.Kill.{targets}
use blade_psgi.MainApp.Children.{IsValid, known}
use blade_psgi.MainApp.Deaths.{EndsProgram, panic, process_name, death_while_running}
use blade_psgi.MainApp.Reaped.{StrikesOff, death_while_shutting_down}
use blade_psgi.MainApp.Shutdown.{
  HandlesFlags, deaths, IsChild, handle_flags-HandlesFlags, shutdown_completes,
}
use blade_psgi.MainApp.Auxiliaries.{Event, delivered, events, events-spare_auxiliaries}
use blade_psgi.MainApp.Wakeup.{Overseer, Reach, here, later, arrives, start, no_lost_wakeup}
use blade_psgi.MainApp.Spawn.{
  Fork, parent, spawn_workers_and_auxiliary_processes, spawn_monitoring_process,
}
use blade_psgi.MainApp.ChildProcess.{
  monitoring, child_process, HasEnded, IsCrash, Crashes, child_process-HasEnded,
}
use blade_psgi.MainApp.Forks.{Forks, Succeeds}
use blade_psgi.MainApp.Started.{started, perl_works, start-IsValid, fork_failure}
use blade_psgi.Tests.Segment.{shm}

abbrev app : MainApp
app = record (new_main_app shm) {
  monitoring_process_pid = pos 104;
  stats_sockfd_open = false;
  stderr = [];
  worker_pids = pos 101 ∷ pos 102 ∷ [];
  auxiliary_pids = pos 103 ∷ [];
  auxiliary_processes = record { name = codes "reaper"; pid = pos 103 } ∷ [];
}

abbrev pid_code : ℤ → ℕ
pid_code (pos n) = n
pid_code (negsuc n) = 0

differ : (m n : ℕ) → m ≢ n → pos m ≢ pos n
differ m n h e = h (ap pid_code e)

app-IsValid : IsValid app
unfolding auxiliary_name
app-IsValid = record {
  workers = omega arith;
  auxiliaries = omega arith;
  monitoring = inr (omega arith);
  workers_once = ((differ 101 102 (omega arith), tt), (tt, tt));
  auxiliaries_once = (tt, tt);
  apart = ((differ 101 103 (omega arith), tt), ((differ 102 103 (omega arith), tt), tt));
  monitoring_no_worker = (differ 104 101 (omega arith), (differ 104 102 (omega arith), tt));
  monitoring_no_auxiliary = (differ 104 103 (omega arith), tt);
  named = ((codes "reaper", refl), tt);
}

abbrev closing : MainApp
closing = record app { shutdown = true }

closing-IsValid : IsValid closing
closing-IsValid = record {
  workers = app-IsValid.workers;
  auxiliaries = app-IsValid.auxiliaries;
  monitoring = app-IsValid.monitoring;
  workers_once = app-IsValid.workers_once;
  auxiliaries_once = app-IsValid.auxiliaries_once;
  apart = app-IsValid.apart;
  monitoring_no_worker = app-IsValid.monitoring_no_worker;
  monitoring_no_auxiliary = app-IsValid.monitoring_no_auxiliary;
  named = app-IsValid.named;
}

known_103 : known (pos 103) app ≡ true
unfolding found
known_103 = refl

unknown_999 : known (pos 999) app ≡ false
unfolding found
unknown_999 = refl

death_while_running_example :
    EndsProgram
      (targets app)
      (panic app (process_name (pos 103) app) (pos 103) 9)
      app
      (handle_child_process_death (pos 103) 9 app)
death_while_running_example =
    death_while_running (pos 103) 9 app app-IsValid (omega arith) refl known_103

death_while_shutting_down_example :
    StrikesOff (pos 103) closing (handle_child_process_death (pos 103) 0 closing)
death_while_shutting_down_example =
    death_while_shutting_down (pos 103) 0 closing closing-IsValid (omega arith) refl known_103

abbrev asked : MainApp
asked = record closing { smart_shutdown = true }

handle_flags-HandlesFlags_example : HandlesFlags asked (handle_flags asked)
handle_flags-HandlesFlags_example = handle_flags-HandlesFlags asked

abbrev all_deaths : List (ℤ × ℕ)
all_deaths = (pos 103, 9) ∷ (pos 101, 0) ∷ (pos 104, 0) ∷ (pos 102, 256) ∷ []

all_deaths-differ : Pairs (λ d d'. d.0 ≢ d'.0) all_deaths
all_deaths-differ = (
  (
    differ 103 101 (omega arith),
    (differ 103 104 (omega arith), (differ 103 102 (omega arith), tt)),
  ),
  (
    (differ 101 104 (omega arith), (differ 101 102 (omega arith), tt)),
    ((differ 104 102 (omega arith), tt), (tt, tt)),
  ),
)

all_deaths-IsChild : All (IsChild closing) all_deaths
unfolding found
all_deaths-IsChild =
    ((omega arith, refl), ((omega arith, refl), ((omega arith, refl), ((omega arith, refl), tt))))

shutdown_completes_example :
    (t : MainApp) × (wait_children (deaths all_deaths ++ wait_failed echild ∷ []) closing
      ≡ some (exited 0, t))
    × (t.killed ≡ [])
    × (t.logged ≡ (ls_log, text (codes "BladePSGI shutting down")) ∷ [])
shutdown_completes_example =
    shutdown_completes all_deaths closing closing-IsValid refl all_deaths-differ all_deaths-IsChild

abbrev history : List Event
history = delivered sigterm wrote ∷ delivered sigint wrote ∷ delivered sigquit wrote ∷ []

events-spare_auxiliaries_example :
    All (λ k. found k.0 app.auxiliary_pids ≡ false) (events history app).killed
events-spare_auxiliaries_example = events-spare_auxiliaries history app app-IsValid refl

-- SIGINT has arrived while the overseer was on its way into select.
abbrev interrupted : Overseer
interrupted = record (start app) { app = (handle_parent_signal sigint wrote (start app).app).1 }

interrupted-fast : interrupted.app.fast_shutdown ≡ true
unfolding handle_parent_signal
interrupted-fast = refl

interrupted-Reach : Reach (start app) interrupted
interrupted-Reach = later here (arrives sigint wrote tt tt)

no_lost_wakeup_example : 0 < interrupted.app.self_pipe
no_lost_wakeup_example =
    no_lost_wakeup app {o = interrupted} interrupted-Reach refl (inl interrupted-fast)

-- The k-th call of fork returns k + 1.
abbrev pub counting_fork : Fork
counting_fork k = (pos (k + 1), 0)

pub counting_fork-Forks : Forks counting_fork
counting_fork-Forks = record {
  positive = λ k. omega arith;
  once = λ j k e. let n : j + 1 ≡ k + 1 = ap pid_code e in omega arith;
}

abbrev names : List Bytes
names = codes "reaper" ∷ codes "mailer" ∷ []

start-IsValid_example :
    let t = started counting_fork names 3 shm in
    (spawn_workers_and_auxiliary_processes counting_fork perl_works names 3 (new_main_app shm)
      ≡ (ok parent, t))
    × (u : MainApp) × (spawn_monitoring_process counting_fork (length t.auxiliary_pids + 3) t
        ≡ (ok parent, u))
    × IsValid u
    × (length u.worker_pids ≡ 3)
    × (length u.auxiliary_pids ≡ 2)
    × (u.shmem ≡ record shm { locked = true })
    × (u.stats_sockfd_open ≡ false)
start-IsValid_example = start-IsValid counting_fork names 3 shm counting_fork-Forks refl

-- The fourth call of fork fails.
abbrev failing_fork : Fork
failing_fork k = if k == 3 then (minus_one, 11) else (pos (k + 1), 0)

failing_fork-Succeeds : Succeeds failing_fork 0 3
failing_fork-Succeeds j lo hi = ground arith

fork_failure_example :
    (t : MainApp) × (spawn_workers_and_auxiliary_processes failing_fork perl_works names 3
        (new_main_app shm)
      ≡ (exited 1, t))
    × (length t.worker_pids ≡ 1)
    × (t.killed ≡ [])
    × (t.logged ≡ [])
    × (t.stderr ≡ (codes "BPSGIPerlInterpreter destroyed without calling Destroy" ++ 10 ∷ []) ∷ [])
    × (should_exit_immediately t.shmem ≡ should_exit_immediately shm)
fork_failure_example =
    fork_failure failing_fork names 3 shm 1 1 (omega arith) failing_fork-Succeeds refl refl

-- A system call has failed in the monitoring process.
abbrev failed : Outcome ℕ
failed = throw (syscall_failed (codes "select") 9)

child_process-HasEnded_example :
    let r = child_process (λ errno. codes "Bad file descriptor") monitoring failed app in
    HasEnded r.0
    × ((IsCrash monitoring failed × Crashes app r)
        ⊎ ((IsCrash monitoring failed → ⊥) × (r.1.killed ≡ []) × (r.1.shmem ≡ shm)))
child_process-HasEnded_example =
    child_process-HasEnded (λ errno. codes "Bad file descriptor") monitoring failed app
