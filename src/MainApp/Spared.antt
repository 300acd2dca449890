-- ===== src/MainApp/Spared.antt =====
-- The operations of the overseer that spare given pids: they send them no signal.
use blade_psgi.Base.{
  ℕ, ◌≡◌, refl, sym, subst, ◌⊎◌, inl, inr, Bool, true, false, Option, none, some, List, [], ◌∷◌,
  arith, All, All-append, if◌then◌else◌, Bool-cases, ◌==◌,
}
use blade_psgi.Base.Bytes.{codes}
use blade_psgi.Base.Words.{ℤ, minus_one, equal}
use blade_psgi.Base.Outcome.{Outcome, ok, throw, exited, aborted, M, continue}
use blade_psgi.Shmem.{set_should_exit_immediately}
use blade_psgi.MainApp.{
  MainApp, Signal, sigquit, sigterm, sigint, sigchld, other_signal, kill_process_group, found,
  erase, handle_child_process_death, handle_parent_signal, wrote, would_block, write_failed,
  Written, handle_unexpected_child_process_death, auxiliary_died, auxiliary_name,
}
use blade_psgi.MainApp.MainLoop.{handle_flags}
use blade_psgi.MainApp.Kill.{targets, signals, signalled, kill_process_group_lem}
use blade_psgi.MainApp.Children.{All-erase}
use blade_psgi.MainApp.Shutdown.{HandlesFlags, handle_flags-HandlesFlags, sends, requested}

-- The pid is none of `aux`.
abbrev pub IsSpared : List ℤ → ℤ → Type 0
IsSpared aux pid = found pid aux ≡ false

pub record Spares (aux : List ℤ) (s : MainApp) : Type 0 where
  pub workers : All (IsSpared aux) s.worker_pids
  pub monitoring : (s.monitoring_process_pid ≡ minus_one) ⊎ IsSpared aux s.monitoring_process_pid
  pub sent : All (λ k. IsSpared aux k.0) s.killed

module _ (aux : List ℤ) where
  Spares-targets : (s : MainApp) → Spares aux s → All (IsSpared aux) (targets s)
  Spares-targets s v = All-append _ s.worker_pids _ v.workers (ground (arith, v.monitoring))

  pub All-signals :
      (sig : Signal) (ps : List ℤ)
      → All (IsSpared aux) ps
      → All (λ k. IsSpared aux k.0) (signals sig ps)
  All-signals sig [] h = tt
  All-signals sig (p ∷ ps) h = (h.0, All-signals sig ps h.1)

  pub Spares-signalled :
      (sig : Signal) (s : MainApp) → Spares aux s → Spares aux (signalled sig (targets s) s)
  Spares-signalled sig s v = record {
    workers = v.workers;
    monitoring = v.monitoring;
    sent = All-append _ s.killed _ v.sent (All-signals sig (targets s) (Spares-targets s v));
  }

  pub Spares-fields :
      (s t : MainApp)
      → t.worker_pids ≡ s.worker_pids
      → t.monitoring_process_pid ≡ s.monitoring_process_pid
      → t.killed ≡ s.killed
      → Spares aux s
      → Spares aux t
  Spares-fields s t w m k v = record {
    workers = subst (All (IsSpared aux)) (sym w) v.workers;
    monitoring = subst (λ p. (p ≡ minus_one) ⊎ IsSpared aux p) (sym m) v.monitoring;
    sent = subst (All (λ x. IsSpared aux x.0)) (sym k) v.sent;
  }

  pub Spares-quits : (s : MainApp) → Spares aux s → Spares aux (kill_process_group sigquit s).1
  Spares-quits s v = rw (kill_process_group_lem sigquit s refl) (Spares-signalled sigquit s v)

  pub Spares-parent_signal :
      (sig : Signal) (w : Written) (s : MainApp)
      → Spares aux s
      → Spares aux (handle_parent_signal sig w s).1
  unfolding handle_parent_signal
  Spares-parent_signal sigquit w s v =
      rw (kill_process_group_lem sigquit s refl, handle_parent_signal)
        (Spares-signalled sigquit s v)
  Spares-parent_signal sigterm wrote s v = Spares-fields s _ refl refl refl v
  Spares-parent_signal sigterm would_block s v = Spares-fields s _ refl refl refl v
  Spares-parent_signal sigterm (write_failed e) s v = Spares-fields s _ refl refl refl v
  Spares-parent_signal sigint wrote s v = Spares-fields s _ refl refl refl v
  Spares-parent_signal sigint would_block s v = Spares-fields s _ refl refl refl v
  Spares-parent_signal sigint (write_failed e) s v = Spares-fields s _ refl refl refl v
  Spares-parent_signal sigchld wrote s v = Spares-fields s _ refl refl refl v
  Spares-parent_signal sigchld would_block s v = v
  Spares-parent_signal sigchld (write_failed e) s v = v
  Spares-parent_signal (other_signal n) w s v = v

  pub Spares-flags : (s : MainApp) → Spares aux s → Spares aux (handle_flags s).1
  Spares-flags s v = record {
    workers = subst (All (IsSpared aux)) (sym h.workers) v.workers;
    monitoring = subst (λ p. (p ≡ minus_one) ⊎ IsSpared aux p) (sym h.monitoring) v.monitoring;
    sent = subst (All (λ x. IsSpared aux x.0)) (sym h.sent) (
        All-append _ s.killed _ v.sent
          (sent (requested s.fast_shutdown s.smart_shutdown s.force_fast_shutdown)));
  }
    where
      h : HandlesFlags s (handle_flags s)
      h = handle_flags-HandlesFlags s

      sent : (o : Option Signal) → All (λ x. IsSpared aux x.0) (sends o s)
      sent none = tt
      sent (some sig) = All-signals sig (targets s) (Spares-targets s v)

  pub Spares-unexpected :
      (process : List ℕ) (pid : ℤ) (status : ℕ) (s : MainApp)
      → Spares aux s
      → Spares aux (handle_unexpected_child_process_death process pid status s).1
  unfolding handle_unexpected_child_process_death set_should_exit_immediately
  Spares-unexpected process pid status s v = elim (Bool-cases (s.shmem.segment 0 == 0)) [
    | inl e ↦
        rw (e, kill_process_group_lem, handle_unexpected_child_process_death)
          (Spares-signalled sigquit _ (Spares-fields s _ refl refl refl v))
    | inr e ↦
        rw (e, kill_process_group_lem, handle_unexpected_child_process_death)
          (Spares-signalled sigquit _ (Spares-fields s _ refl refl refl v))
  ]

  pub Spares-continue :
      (r : Outcome (Unit {0}) × MainApp) (f : Unit {0} → M MainApp (Unit {0}))
      → Spares aux r.1
      → ((t : MainApp) → Spares aux t → Spares aux (f tt t).1)
      → Spares aux (continue r f).1
  Spares-continue (ok u, t) f v h = h t v
  Spares-continue (throw e, t) f v h = v
  Spares-continue (exited n, t) f v h = v
  Spares-continue (aborted, t) f v h = v

  -- The guard `if (_mainapp_shutdown == 0)`, and what comes behind it.
  pub Spares-guard :
      (s : MainApp) (r : Outcome (Unit {0}) × MainApp) (f : MainApp → MainApp)
      → Spares aux s
      → Spares aux r.1
      → ((t : MainApp) → Spares aux t → Spares aux (f t))
      → (b : Bool)
      → Spares aux (continue {B = Unit {0}} (if b then (ok tt, s) else r) (λ _ t. (ok tt, f t))).1
  Spares-guard s r f v w h true = h s v
  Spares-guard s r f v w h false = Spares-continue r (λ _ t. (ok tt, f t)) w h

  pub Spares-auxiliary_died :
      (name : Option (List ℕ)) (pid : ℤ) (status : ℕ) (s : MainApp)
      → Spares aux s
      → Spares aux (auxiliary_died name pid status s).1
  Spares-auxiliary_died none pid status s v = v
  Spares-auxiliary_died (some name) pid status s v = Spares-unexpected _ pid status s v

  pub Spares-death :
      (pid : ℤ) (status : ℕ) (s : MainApp)
      → Spares aux s
      → Spares aux (handle_child_process_death pid status s).1
  unfolding handle_child_process_death set_should_exit_immediately
  Spares-death pid status s v = elim (Bool-cases (found pid s.worker_pids)) [
    | inl w ↦
        rw (w, handle_child_process_death)
          (Spares-guard s
            (handle_unexpected_child_process_death (codes "worker process") pid status s)
            (λ t. record t { worker_pids = erase pid t.worker_pids }) v
            (Spares-unexpected _ pid status s v)
            (λ t u. record {
              workers = All-erase _ pid _ u.workers;
              monitoring = u.monitoring;
              sent = u.sent;
            })
            s.shutdown)
    | inr w ↦ elim (Bool-cases (found pid s.auxiliary_pids)) [
      | inl a ↦
          rw (w, a, handle_child_process_death)
            (Spares-guard s (auxiliary_died (auxiliary_name pid s.auxiliary_processes) pid status s)
              (λ t. record t { auxiliary_pids = erase pid t.auxiliary_pids }) v
              (Spares-auxiliary_died _ pid status s v) (λ t u. Spares-fields t _ refl refl refl u)
              s.shutdown)
      | inr a ↦ elim (Bool-cases (equal pid s.monitoring_process_pid)) [
        | inl m ↦
            rw (w, a, m, handle_child_process_death)
              (Spares-guard s
                (handle_unexpected_child_process_death (codes "monitoring process") pid status s)
                (λ t. record t { monitoring_process_pid = minus_one }) v
                (Spares-unexpected _ pid status s v)
                (λ t u. record { workers = u.workers; monitoring = inl refl; sent = u.sent })
                s.shutdown)
        | inr m ↦ rw (w, a, m, handle_child_process_death) (Spares-fields s _ refl refl refl v)
      ]
    ]
  ]
