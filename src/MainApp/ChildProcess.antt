-- ===== src/MainApp/ChildProcess.antt =====
-- How a child ends: `RunWorker` and `RunMonitoringProcess` of src/bladepsgi.cpp, the child's branch of
-- `SpawnAuxiliaryProcess`, and `BPSGIAuxiliaryProcess::Run` of src/auxiliary.cpp. What the child's work
-- did is an argument, and the state is the child's copy of the application.
use blade_psgi.Base.{
  ℕ, ◌≡◌, refl, sym, subst, true, ◌⊎◌, inl, inr, ◌++◌, Bool-cases, ◌==◌, if◌then◌else◌,
}
use blade_psgi.Base.Bytes.{Bytes, codes}
use blade_psgi.Base.Outcome.{
  syscall_failed, syscall_failed_text, runtime_error, string_error, logic_error, perl_error,
  Outcome, ok, throw, exited, aborted, M, ◌>>=◌, ◌>>◌, return, quit,
}
use blade_psgi.MainApp.{
  MainApp, sigquit, ls_error, ls_fatal, text, log, ask_exit, kill_process_group,
}
use blade_psgi.Shmem.{set_should_exit_immediately, should_exit_immediately}
use blade_psgi.MainApp.Spawn.{unwinding}
use blade_psgi.CommandLine.{after_run, fatal, give_up, system_call_failed}
use blade_psgi.MainApp.Kill.{targets, signals, kill_process_group_lem}

-- `worker.Run`, its handler of std::exception, and the `_exit` behind it. Any other exception leaves the
-- function, which has the interpreter.
unfoldable pub run_worker : Outcome ℕ → M MainApp (Unit {0})
run_worker (ok ret) s = (exited ret, s)
run_worker (throw (logic_error m)) s = (aborted, s)
run_worker (throw e) s = unwinding (throw e, s)
run_worker (exited n) s = (exited n, s)
run_worker aborted s = (aborted, s)

-- The callback's call, its handler, and the `abort` behind it.
unfoldable pub run_auxiliary_process : Bytes → Outcome ℕ → M MainApp (Unit {0})
run_auxiliary_process name (ok u) =
    log ls_error (text (codes "Auxiliary process " ++ name ++ codes " returned unexpectedly"))
    >> λ s. (aborted, s)
run_auxiliary_process name (throw (perl_error m)) =
    log ls_error (text (codes "Auxiliary process died with a Perl exception: " ++ m)) >> quit 1
run_auxiliary_process name (throw e) = λ s. unwinding (throw e, s)
run_auxiliary_process name (exited n) = λ s. (exited n, s)
run_auxiliary_process name aborted = λ s. (aborted, s)

-- `monitoring.Run`, and the handler of std::exception, which of the program's exceptions only
-- std::logic_error is. The others leave `Run` in the child, too, and come to the handlers of `main`.
unfoldable pub run_monitoring_process : (ℕ → Bytes) → Outcome ℕ → M MainApp (Unit {0})
run_monitoring_process strerror (ok ret) = quit ret
run_monitoring_process strerror (throw (logic_error m)) = do
  won ← ask_exit
  if won then log ls_fatal (text (codes "monitoring process crashed: " ++ m)) else return tt
  kill_process_group sigquit
  quit 1
run_monitoring_process strerror (throw e) = λ s. after_run strerror (throw e, s)
run_monitoring_process strerror (exited n) = quit n
run_monitoring_process strerror aborted = λ s. (aborted, s)

pub data Child : Type 0 where
  worker monitoring : Child
  auxiliary : Bytes → Child

abbrev pub child_process : (ℕ → Bytes) → Child → Outcome ℕ → M MainApp (Unit {0})
child_process strerror worker o = run_worker o
child_process strerror monitoring o = run_monitoring_process strerror o
child_process strerror (auxiliary name) o = run_auxiliary_process name o

-- The process has ended.
abbrev pub HasEnded : Outcome (Unit {0}) → Type 0
HasEnded (exited n) = Unit
HasEnded aborted = Unit
HasEnded _ = ⊥

-- The work of the monitoring process threw an exception that has a handler.
abbrev pub IsCrash : Child → Outcome ℕ → Type 0
IsCrash monitoring (throw (logic_error m)) = Unit
IsCrash monitoring (throw (syscall_failed call errno)) = Unit
IsCrash monitoring (throw (syscall_failed_text call error)) = Unit
IsCrash monitoring (throw (runtime_error error)) = Unit
IsCrash _ _ = ⊥

-- What a handler does with the text of the exception, in the child.
abbrev pub Crashes : MainApp → Outcome (Unit {0}) × MainApp → Type 0
Crashes s (r, t) =
    (r ≡ exited 1)
    × (should_exit_immediately t.shmem ≡ true)
    × (t.killed ≡ s.killed ++ signals sigquit (targets s))

fatal-Crashes : (m : Bytes) (s : MainApp) → Crashes s ((fatal m >> give_up) s)
unfolding set_should_exit_immediately should_exit_immediately
fatal-Crashes m s = elim (Bool-cases (s.shmem.segment 0 == 0)) [
  | inl e ↦ rw (e, kill_process_group_lem) (refl, refl, refl)
  | inr e ↦ rw (e, kill_process_group_lem) (refl, refl, refl)
]

IsCrash-HasEnded :
    (c : Child) (o : Outcome ℕ) (m : Bytes) (s : MainApp)
    → IsCrash c o
    → let r = (fatal m >> give_up) s in
      HasEnded r.0
      × ((IsCrash c o × Crashes s r)
          ⊎ ((IsCrash c o → ⊥) × (r.1.killed ≡ s.killed) × (r.1.shmem ≡ s.shmem)))
IsCrash-HasEnded c o m s h =
    let crashes = fatal-Crashes m s in (subst HasEnded (sym crashes.0) tt, inl (h, crashes))

-- Whatever the work of a child did, the child ends, and does not come back to the overseer's loop.
-- If it is the monitoring process and its work threw a std::exception, a SyscallException or a
-- RuntimeException, it ends with status 1, the exit flag raised, and has sent SIGQUIT to the processes
-- that it knows; in every other case it signals no process and leaves the segment alone.
pub child_process-HasEnded :
    (strerror : ℕ → Bytes) (c : Child) (o : Outcome ℕ) (s : MainApp)
    → let r = child_process strerror c o s in
      HasEnded r.0
      × ((IsCrash c o × Crashes s r)
          ⊎ ((IsCrash c o → ⊥) × (r.1.killed ≡ s.killed) × (r.1.shmem ≡ s.shmem)))
unfolding run_worker run_auxiliary_process run_monitoring_process after_run
    set_should_exit_immediately should_exit_immediately
child_process-HasEnded strerror worker (ok n) s = (tt, inr (λ h. h, refl, refl))
child_process-HasEnded strerror worker (throw (syscall_failed call errno)) s =
    (tt, inr (λ h. h, refl, refl))
child_process-HasEnded strerror worker (throw (syscall_failed_text call error)) s =
    (tt, inr (λ h. h, refl, refl))
child_process-HasEnded strerror worker (throw (runtime_error error)) s =
    (tt, inr (λ h. h, refl, refl))
child_process-HasEnded strerror worker (throw (logic_error m)) s = (tt, inr (λ h. h, refl, refl))
child_process-HasEnded strerror worker (throw (string_error m)) s = (tt, inr (λ h. h, refl, refl))
child_process-HasEnded strerror worker (throw (perl_error m)) s = (tt, inr (λ h. h, refl, refl))
child_process-HasEnded strerror worker (exited n) s = (tt, inr (λ h. h, refl, refl))
child_process-HasEnded strerror worker aborted s = (tt, inr (λ h. h, refl, refl))
child_process-HasEnded strerror (auxiliary name) (ok n) s = (tt, inr (λ h. h, refl, refl))
child_process-HasEnded strerror (auxiliary name) (throw (syscall_failed call errno)) s =
    (tt, inr (λ h. h, refl, refl))
child_process-HasEnded strerror (auxiliary name) (throw (syscall_failed_text call error)) s =
    (tt, inr (λ h. h, refl, refl))
child_process-HasEnded strerror (auxiliary name) (throw (runtime_error error)) s =
    (tt, inr (λ h. h, refl, refl))
child_process-HasEnded strerror (auxiliary name) (throw (logic_error m)) s =
    (tt, inr (λ h. h, refl, refl))
child_process-HasEnded strerror (auxiliary name) (throw (string_error m)) s =
    (tt, inr (λ h. h, refl, refl))
child_process-HasEnded strerror (auxiliary name) (throw (perl_error m)) s =
    (tt, inr (λ h. h, refl, refl))
child_process-HasEnded strerror (auxiliary name) (exited n) s = (tt, inr (λ h. h, refl, refl))
child_process-HasEnded strerror (auxiliary name) aborted s = (tt, inr (λ h. h, refl, refl))
child_process-HasEnded strerror monitoring (ok n) s = (tt, inr (λ h. h, refl, refl))
child_process-HasEnded strerror monitoring (throw (syscall_failed call errno)) s =
    IsCrash-HasEnded monitoring (throw (syscall_failed call errno))
      (system_call_failed call (strerror errno)) s tt
child_process-HasEnded strerror monitoring (throw (syscall_failed_text call error)) s =
    IsCrash-HasEnded monitoring (throw (syscall_failed_text call error))
      (system_call_failed call error) s tt
child_process-HasEnded strerror monitoring (throw (runtime_error error)) s =
    IsCrash-HasEnded monitoring (throw (runtime_error error)) error s tt
child_process-HasEnded strerror monitoring (throw (logic_error m)) s =
    elim (Bool-cases (s.shmem.segment 0 == 0)) [
      | inl e ↦ rw (e, kill_process_group_lem) (tt, inl (tt, (refl, refl, refl)))
      | inr e ↦ rw (e, kill_process_group_lem) (tt, inl (tt, (refl, refl, refl)))
    ]
child_process-HasEnded strerror monitoring (throw (string_error m)) s =
    (tt, inr (λ h. h, refl, refl))
child_process-HasEnded strerror monitoring (throw (perl_error m)) s = (tt, inr (λ h. h, refl, refl))
child_process-HasEnded strerror monitoring (exited n) s = (tt, inr (λ h. h, refl, refl))
child_process-HasEnded strerror monitoring aborted s = (tt, inr (λ h. h, refl, refl))
