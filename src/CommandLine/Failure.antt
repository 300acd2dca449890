-- ===== src/CommandLine/Failure.antt =====
-- What `main` does when `Run` throws.
use blade_psgi.Base.{
  ℕ, ◌≡◌, refl, subst, Option, none, some, List, [], ◌∷◌, append-nil, arith, ◌==◌, if◌then◌else◌,
  Bool-cases, inl, inr,
}
use mathlib.Core.Option.{some-injective}
use blade_psgi.Base.Bytes.{Bytes}
use blade_psgi.Base.Outcome.{
  Exn, syscall_failed, syscall_failed_text, runtime_error, Outcome, throw, exited, ◌>>◌,
}
use blade_psgi.Shmem.{should_exit_immediately, set_should_exit_immediately}
use blade_psgi.MainApp.{MainApp, LogSeverity, Message, ls_fatal, text}
use blade_psgi.MainApp.Kill.{targets, kill_process_group_lem}
use blade_psgi.MainApp.Deaths.{EndsProgram, IsFlag}
use blade_psgi.Startup.{end_early}
use blade_psgi.CommandLine.{after_run, fatal, give_up, system_call_failed}

-- The text for which `main` has a handler.
abbrev pub described : (ℕ → Bytes) → Exn → Option Bytes
described strerror (syscall_failed call errno) = some (system_call_failed call (strerror errno))
described strerror (syscall_failed_text call error) = some (system_call_failed call error)
described strerror (runtime_error error) = some error
described strerror _ = none

-- The line in the log, if no other process has given a reason before.
abbrev pub reason : MainApp → Bytes → List (LogSeverity × Message)
reason s m = if should_exit_immediately s.shmem then [] else (ls_fatal, text m) ∷ []

gives_up :
    (m : Bytes) (s : MainApp)
    → IsFlag s
    → EndsProgram (targets s) (reason s m) s ((fatal m >> give_up) s)
unfolding set_should_exit_immediately should_exit_immediately
gives_up m s flag = elim (Bool-cases (s.shmem.segment 0 == 0)) [
  | inl e ↦
      rw (e, kill_process_group_lem)
        (record { status = refl; flagged = refl; sent = refl; logs = ground arith })
  | inr e ↦
      rw (e, kill_process_group_lem)
        (record {
          status = refl;
          flagged = refl;
          sent = refl;
          logs = ground (arith, append-nil s.logged);
        })
]

logged_as :
    (x m : Bytes) (s : MainApp) {r : Outcome (Unit {0}) × MainApp}
    → some x ≡ some m
    → EndsProgram (targets s) (reason s x) s r
    → EndsProgram (targets s) (reason s m) s r
logged_as x m s {r} d h =
    subst (λ t. EndsProgram (targets s) (reason s t) s r) (some-injective x m d) h

after_run_lem :
    (strerror : ℕ → Bytes) (e : Exn) (m : Bytes) (s : MainApp)
    → described strerror e ≡ some m
    → IsFlag s
    → EndsProgram (targets s) (reason s m) s (after_run strerror (throw e, s))
unfolding after_run
after_run_lem strerror (syscall_failed call errno) m s d flag =
    logged_as (system_call_failed call (strerror errno)) m s d
      (gives_up (system_call_failed call (strerror errno)) s flag)
after_run_lem strerror (syscall_failed_text call error) m s d flag =
    logged_as (system_call_failed call error) m s d
      (gives_up (system_call_failed call error) s flag)
after_run_lem strerror (runtime_error error) m s d flag =
    logged_as error m s d (gives_up error s flag)
after_run_lem strerror _ m s d flag = absurd (cc)

-- When `Run` throws one of the two exceptions that `main` handles, the program ends with status 1.
-- Once there is a segment, the exit flag is raised, the text of the exception is logged unless another
-- process had raised the flag, and every worker and the monitoring process gets SIGQUIT; before there
-- is one, the text is logged, and no segment is made.
pub after_run-EndsProgram :
    (strerror : ℕ → Bytes) (e : Exn) (m : Bytes) (s : MainApp)
    → described strerror e ≡ some m
    → IsFlag s
    → EndsProgram (targets s) (reason s m) s (after_run strerror (throw e, s))
      × (end_early m none ≡ (exited 1, (none, m ∷ [])))
unfolding end_early
after_run-EndsProgram strerror e m s d flag = (after_run_lem strerror e m s d flag, refl)
