-- ===== src/MainApp/Flags.antt =====
-- What the death of a child leaves alone: the flags and the self-pipe.
use blade_psgi.Base.{
  ℕ, ◌≡◌, refl, inl, inr, Bool, true, false, Bool-cases, ◌∙◌, ◌==◌, List, Option, none, some,
  if◌then◌else◌,
}
use blade_psgi.Base.Bytes.{codes}
use blade_psgi.Base.Words.{ℤ, minus_one, equal}
use blade_psgi.Base.Outcome.{Outcome, ok, throw, exited, aborted, continue}
use blade_psgi.Shmem.{set_should_exit_immediately}
use blade_psgi.MainApp.{
  found, erase, auxiliary_name, auxiliary_died, handle_child_process_death,
  handle_unexpected_child_process_death, MainApp,
}
use blade_psgi.MainApp.Kill.{kill_process_group_lem}

-- What the death of a child leaves alone.
pub record SameFlags (s t : MainApp) : Type 0 where
  pub pipe : t.self_pipe ≡ s.self_pipe
  pub fast : t.fast_shutdown ≡ s.fast_shutdown
  pub smart : t.smart_shutdown ≡ s.smart_shutdown

pub SameFlags-guard :
    (s : MainApp) (r : Outcome (Unit {0}) × MainApp) (f : MainApp → MainApp)
    → SameFlags s r.1
    → ((t : MainApp) → SameFlags t (f t))
    → (b : Bool)
    → SameFlags s (continue {B = Unit {0}} (if b then (ok tt, s) else r) (λ _ t. (ok tt, f t))).1
SameFlags-guard s r f v h true = h s
SameFlags-guard s (ok u, t) f v h false = record {
  pipe = (h t).pipe ∙ v.pipe;
  fast = (h t).fast ∙ v.fast;
  smart = (h t).smart ∙ v.smart;
}
SameFlags-guard s (throw e, t) f v h false = v
SameFlags-guard s (exited n, t) f v h false = v
SameFlags-guard s (aborted, t) f v h false = v

pub unexpected-SameFlags :
    (process : List ℕ) (pid : ℤ) (status : ℕ) (s : MainApp)
    → SameFlags s (handle_unexpected_child_process_death process pid status s).1
unfolding handle_unexpected_child_process_death set_should_exit_immediately
unexpected-SameFlags process pid status s = elim (Bool-cases (s.shmem.segment 0 == 0)) [
  | inl e ↦
      rw (e, kill_process_group_lem, handle_unexpected_child_process_death)
        (record { pipe = refl; fast = refl; smart = refl })
  | inr e ↦
      rw (e, kill_process_group_lem, handle_unexpected_child_process_death)
        (record { pipe = refl; fast = refl; smart = refl })
]

pub auxiliary_died-SameFlags :
    (name : Option (List ℕ)) (pid : ℤ) (status : ℕ) (s : MainApp)
    → SameFlags s (auxiliary_died name pid status s).1
auxiliary_died-SameFlags none pid status s = record { pipe = refl; fast = refl; smart = refl }
auxiliary_died-SameFlags (some name) pid status s = unexpected-SameFlags _ pid status s

pub death-SameFlags :
    (pid : ℤ) (status : ℕ) (s : MainApp) → SameFlags s (handle_child_process_death pid status s).1
unfolding handle_child_process_death set_should_exit_immediately
death-SameFlags pid status s = elim (Bool-cases (found pid s.worker_pids)) [
  | inl w ↦
      rw (w, handle_child_process_death)
        (SameFlags-guard s
          (handle_unexpected_child_process_death (codes "worker process") pid status s)
          (λ t. record t { worker_pids = erase pid t.worker_pids })
          (unexpected-SameFlags _ pid status s)
          (λ t. record { pipe = refl; fast = refl; smart = refl }) s.shutdown)
  | inr w ↦ elim (Bool-cases (found pid s.auxiliary_pids)) [
    | inl a ↦
        rw (w, a, handle_child_process_death)
          (SameFlags-guard s
            (auxiliary_died (auxiliary_name pid s.auxiliary_processes) pid status s)
            (λ t. record t { auxiliary_pids = erase pid t.auxiliary_pids })
            (auxiliary_died-SameFlags _ pid status s)
            (λ t. record { pipe = refl; fast = refl; smart = refl }) s.shutdown)
    | inr a ↦ elim (Bool-cases (equal pid s.monitoring_process_pid)) [
      | inl m ↦
          rw (w, a, m, handle_child_process_death)
            (SameFlags-guard s
              (handle_unexpected_child_process_death (codes "monitoring process") pid status s)
              (λ t. record t { monitoring_process_pid = minus_one })
              (unexpected-SameFlags _ pid status s)
              (λ t. record { pipe = refl; fast = refl; smart = refl }) s.shutdown)
      | inr m ↦
          rw (w, a, m, handle_child_process_death)
            (record { pipe = refl; fast = refl; smart = refl })
    ]
  ]
]
