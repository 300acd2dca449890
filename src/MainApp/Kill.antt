-- ===== src/MainApp/Kill.antt =====
-- Whom `KillProcessGroup` signals.
use blade_psgi.Base.{
  ◌≡◌, refl, inl, inr, true, List, [], ◌∷◌, ◌++◌, map, append_assoc, append-nil, map-append,
  Bool-cases, if◌then◌else◌,
}
use blade_psgi.Base.Words.{ℤ, minus_one, equal}
use blade_psgi.Base.Outcome.{ok}
use blade_psgi.MainApp.{MainApp, Signal, is_kill_signal, kill_each, kill_process_group}

-- The workers that were not reaped, and the monitoring process if there is one.
abbrev pub targets : MainApp → List ℤ
targets s =
    s.worker_pids
    ++ (if equal s.monitoring_process_pid minus_one then [] else s.monitoring_process_pid ∷ [])

abbrev pub signals : Signal → List ℤ → List (ℤ × Signal)
signals sig = map (λ pid. (pid, sig))

abbrev pub signalled : Signal → List ℤ → MainApp → MainApp
signalled sig pids s = record s { killed = s.killed ++ signals sig pids }

kill_each_lem :
    (pids : List ℤ) (sig : Signal) (s : MainApp)
    → kill_each pids sig s ≡ (ok tt, signalled sig pids s)
unfolding kill_each
kill_each_lem [] sig s = rw append-nil refl
kill_each_lem (p ∷ ps) sig s =
    rw (kill_each_lem ps sig (signalled sig (p ∷ []) s), append_assoc) refl

-- `KillProcessGroup` sends the signal once to each worker and then to the monitoring process.
pub kill_process_group_lem :
    (sig : Signal) (s : MainApp)
    → is_kill_signal sig ≡ true
    → kill_process_group sig s ≡ (ok tt, signalled sig (targets s) s)
unfolding kill_process_group
kill_process_group_lem sig s h = elim (Bool-cases (equal s.monitoring_process_pid minus_one)) [
  | inl e ↦ rw (h, kill_each_lem s.worker_pids sig s, e, kill_process_group) (rw (append-nil) refl)
  | inr e ↦
      rw (h, kill_each_lem s.worker_pids sig s, e, kill_process_group)
        (rw (map-append, append_assoc) refl)
]
