-- ===== src/MainApp/Deaths.antt =====
-- `HandleChildProcessDeath` of a known child while no shutdown is requested, and of an unknown one.
use blade_psgi.Base.{
  ℕ, ◌≤◌, append-nil, ◌≡◌, refl, inl, inr, Bool, true, false, none, some, List, [], ◌∷◌, ◌++◌,
  arith, Bool-cases, ◌==◌, if◌then◌else◌,
}
use blade_psgi.Base.Bytes.{Bytes, codes}
use blade_psgi.Base.Words.{ℤ, equal}
use blade_psgi.Base.Outcome.{Outcome, ok, throw, exited, aborted, M, continue}
use blade_psgi.Shmem.{should_exit_immediately, set_should_exit_immediately}
use blade_psgi.MainApp.{
  MainApp, sigquit, handle_child_process_death, handle_unexpected_child_process_death, found,
  auxiliary_name, death_message, ls_panic, LogSeverity, Message,
}
use blade_psgi.MainApp.Kill.{targets, signals, kill_process_group_lem}
use blade_psgi.MainApp.Children.{IsValid, known, All_of_found}

-- The program ends: exit status 1, the exit flag raised for all processes, a quit signal to every
-- pid in `pids`, and the given lines in the log.
pub record EndsProgram (pids : List ℤ) (lines : List (LogSeverity × Message)) (s : MainApp)
    (r : Outcome (Unit {0}) × MainApp) : Type 0 where
  pub status : r.0 ≡ exited 1
  pub flagged : should_exit_immediately r.1.shmem ≡ true
  pub sent : r.1.killed ≡ s.killed ++ signals sigquit pids
  pub logs : r.1.logged ≡ s.logged ++ lines

-- The panic, if no other process has given a reason before.
abbrev pub panic : MainApp → Bytes → ℤ → ℕ → List (LogSeverity × Message)
panic s process pid status =
    if should_exit_immediately s.shmem
    then []
    else (ls_panic, death_message process pid status) ∷ []

-- The name under which the death of a known child is reported.
abbrev pub process_name : ℤ → MainApp → Bytes
process_name pid s =
    if found pid s.worker_pids
    then codes "worker process"
    else if found pid s.auxiliary_pids
    then elim (auxiliary_name pid s.auxiliary_processes) [
      | none ↦ []
      | some name ↦ codes "auxiliary process " ++ name
    ]
    else codes "monitoring process"

-- The exit flag is 0 or 1.
abbrev pub IsFlag : MainApp → Type 0
IsFlag s = s.shmem.segment 0 ≤ 1

unexpected-EndsProgram :
    (process : Bytes) (pid : ℤ) (status : ℕ) (s : MainApp)
    → IsFlag s
    → EndsProgram
        (targets s)
        (panic s process pid status)
        s
        (handle_unexpected_child_process_death process pid status s)
unfolding handle_unexpected_child_process_death set_should_exit_immediately should_exit_immediately
unexpected-EndsProgram process pid status s flag = elim (Bool-cases (s.shmem.segment 0 == 0)) [
  | inl e ↦
      rw (e, kill_process_group_lem, handle_unexpected_child_process_death)
        (record { status = refl; flagged = refl; sent = refl; logs = ground arith })
  | inr e ↦
      rw (e, kill_process_group_lem, handle_unexpected_child_process_death)
        (record {
          status = refl;
          flagged = refl;
          sent = refl;
          logs = ground (arith, append-nil s.logged);
        })
]

EndsProgram-continue :
    {pids : List ℤ} {lines : List (LogSeverity × Message)} {s : MainApp}
    (r : Outcome (Unit {0}) × MainApp) (f : Unit {0} → M MainApp (Unit {0}))
    → EndsProgram pids lines s r
    → EndsProgram pids lines s (continue r f)
EndsProgram-continue (ok u, t) f h = absurd (cc h.status)
EndsProgram-continue (throw e, t) f h = h
EndsProgram-continue (exited n, t) f h = h
EndsProgram-continue (aborted, t) f h = h

-- The guard `if (_mainapp_shutdown == 0)` in front of a call that ends the program.
EndsProgram-guard :
    {pids : List ℤ} {lines : List (LogSeverity × Message)} {s : MainApp} (b : Bool)
    (r r' : Outcome (Unit {0}) × MainApp) (f : Unit {0} → M MainApp (Unit {0}))
    → b ≡ false
    → EndsProgram pids lines s r
    → EndsProgram pids lines s (continue (if b then r' else r) f)
EndsProgram-guard true r r' f e h = absurd (cc)
EndsProgram-guard false r r' f e h = EndsProgram-continue r f h

-- While no shutdown was requested, the death of any child ends the program: the flag is raised, the
-- death is logged as a panic under the child's name unless another process has raised the flag
-- before, and every worker and the monitoring process are killed.
pub death_while_running :
    (pid : ℤ) (status : ℕ) (s : MainApp)
    → IsValid s
    → IsFlag s
    → s.shutdown ≡ false
    → known pid s ≡ true
    → EndsProgram
        (targets s)
        (panic s (process_name pid s) pid status)
        s
        (handle_child_process_death pid status s)
unfolding handle_child_process_death
death_while_running pid status s v flag run k = elim (Bool-cases (found pid s.worker_pids)) [
  | inl w ↦
      rw (w, handle_child_process_death)
        (EndsProgram-guard s.shutdown _ _ _ run
          (unexpected-EndsProgram (codes "worker process") pid status s flag))
  | inr w ↦ elim (Bool-cases (found pid s.auxiliary_pids)) [
    | inl a ↦
        let (name, e) = All_of_found _ pid s.auxiliary_pids v.named a in
        rw (w, a, e, handle_child_process_death)
          (EndsProgram-guard s.shutdown _ _ _ run
            (unexpected-EndsProgram (codes "auxiliary process " ++ name) pid status s flag))
    | inr a ↦
        let m : equal pid s.monitoring_process_pid ≡ true = rw (w, a) at k in
        rw (w, a, m, handle_child_process_death)
          (EndsProgram-guard s.shutdown _ _ _ run
            (unexpected-EndsProgram (codes "monitoring process") pid status s flag))
  ]
]
