-- ===== src/MainApp/Reaped.antt =====
-- A child that dies during a shutdown.
use blade_psgi.Base.{
  ℕ, ◌≡◌, ◌≢◌, refl, sym, ap, subst, ◌∙◌, inl, inr, Bool, true, false, ◌||◌, List, All, All-mono,
  Bool-cases, if◌then◌else◌,
}
use blade_psgi.Base.Words.{ℤ, pos, negsuc, minus_one, equal, eq_of_equal, equal_of_ne}
use blade_psgi.Base.Outcome.{Outcome, ok, M, continue}
use blade_psgi.MainApp.{MainApp, handle_child_process_death, found, erase}
use blade_psgi.MainApp.Children.{
  IsPid, Differs, IsValid, known, All-erase, Pairs-erase, not_found_of_All, All_of_found,
  found-erase, found-erase_ne,
}

-- During a shutdown a known child that died is struck off: it is not known any more, nothing else
-- changes, and the tables stay valid.
pub record StrikesOff (pid : ℤ) (s : MainApp) (r : Outcome (Unit {0}) × MainApp) : Type 0 where
  pub status : r.0 ≡ ok tt
  pub valid : IsValid r.1
  pub gone : known pid r.1 ≡ false
  pub others : (q : ℤ) → pid ≢ q → q ≢ minus_one → known q r.1 ≡ known q s
  pub sent : r.1.killed ≡ s.killed
  pub logs : r.1.logged ≡ s.logged
  pub still : r.1.shutdown ≡ s.shutdown

pub strikes_worker :
    (pid : ℤ) (s : MainApp)
    → IsValid s
    → found pid s.worker_pids ≡ true
    → StrikesOff pid s (ok tt, record s { worker_pids = erase pid s.worker_pids })
strikes_worker pid s v w = record {
  status = refl;
  valid = record {
    workers = All-erase _ pid _ v.workers;
    auxiliaries = v.auxiliaries;
    monitoring = v.monitoring;
    workers_once = Pairs-erase pid _ v.workers_once;
    auxiliaries_once = v.auxiliaries_once;
    apart = All-erase _ pid _ v.apart;
    monitoring_no_worker = All-erase _ pid _ v.monitoring_no_worker;
    monitoring_no_auxiliary = v.monitoring_no_auxiliary;
    named = v.named;
  };
  gone =
      rw
        (
          found-erase pid s.worker_pids v.workers_once,
          not_found_of_All pid s.auxiliary_pids (All_of_found _ pid s.worker_pids v.apart w),
          equal_of_ne pid s.monitoring_process_pid
              (λ e. All_of_found _ pid s.worker_pids v.monitoring_no_worker w (sym e)),
        )
        refl;
  others = λ q ne one.
      ap (λ b. b || found q s.auxiliary_pids || equal q s.monitoring_process_pid)
        (found-erase_ne pid q s.worker_pids ne);
  sent = refl;
  logs = refl;
  still = refl;
}

pub strikes_auxiliary :
    (pid : ℤ) (s : MainApp)
    → IsValid s
    → found pid s.worker_pids ≡ false
    → found pid s.auxiliary_pids ≡ true
    → StrikesOff pid s (ok tt, record s { auxiliary_pids = erase pid s.auxiliary_pids })
strikes_auxiliary pid s v w a = record {
  status = refl;
  valid = record {
    workers = v.workers;
    auxiliaries = All-erase _ pid _ v.auxiliaries;
    monitoring = v.monitoring;
    workers_once = v.workers_once;
    auxiliaries_once = Pairs-erase pid _ v.auxiliaries_once;
    apart = All-mono (λ x h. All-erase (Differs x) pid _ h) s.worker_pids v.apart;
    monitoring_no_worker = v.monitoring_no_worker;
    monitoring_no_auxiliary = All-erase _ pid _ v.monitoring_no_auxiliary;
    named = All-erase _ pid _ v.named;
  };
  gone =
      rw
        (
          w,
          found-erase pid s.auxiliary_pids v.auxiliaries_once,
          equal_of_ne pid s.monitoring_process_pid
              (λ e. All_of_found _ pid s.auxiliary_pids v.monitoring_no_auxiliary a (sym e)),
        )
        refl;
  others = λ q ne one.
      ap (λ b. found q s.worker_pids || b || equal q s.monitoring_process_pid)
        (found-erase_ne pid q s.auxiliary_pids ne);
  sent = refl;
  logs = refl;
  still = refl;
}

pub equal-minus_one : (p : ℤ) → IsPid p → equal p minus_one ≡ false
equal-minus_one (pos n) h = refl
equal-minus_one (negsuc n) h = absurd h

pub All_minus_one : (ps : List ℤ) → All IsPid ps → All (Differs minus_one) ps
All_minus_one ps h = All-mono (λ p i e. subst IsPid (sym e) i) ps h

pub strikes_monitoring :
    (pid : ℤ) (s : MainApp)
    → IsValid s
    → IsPid pid
    → found pid s.worker_pids ≡ false
    → found pid s.auxiliary_pids ≡ false
    → pid ≡ s.monitoring_process_pid
    → StrikesOff pid s (ok tt, record s { monitoring_process_pid = minus_one })
strikes_monitoring pid s v i w a e = record {
  status = refl;
  valid = record {
    workers = v.workers;
    auxiliaries = v.auxiliaries;
    monitoring = inl refl;
    workers_once = v.workers_once;
    auxiliaries_once = v.auxiliaries_once;
    apart = v.apart;
    monitoring_no_worker = All_minus_one s.worker_pids v.workers;
    monitoring_no_auxiliary = All_minus_one s.auxiliary_pids v.auxiliaries;
    named = v.named;
  };
  gone = rw (w, a, equal-minus_one pid i) refl;
  others = λ q ne one.
      ap (λ b. found q s.worker_pids || found q s.auxiliary_pids || b)
        (equal_of_ne q minus_one one
          ∙ sym (equal_of_ne q s.monitoring_process_pid (λ f. ne (e ∙ sym f))));
  sent = refl;
  logs = refl;
  still = refl;
}

pub StrikesOff-guard :
    (pid : ℤ) (s : MainApp) (b : Bool) (r : Outcome (Unit {0}) × MainApp)
    (f : Unit {0} → M MainApp (Unit {0}))
    → b ≡ true
    → StrikesOff pid s (f tt s)
    → StrikesOff pid s (continue (if b then (ok tt, s) else r) f)
StrikesOff-guard pid s true r f e h = h
StrikesOff-guard pid s false r f e h = absurd (cc)

-- During a shutdown the death of a child that the overseer knows takes it off the tables, and
-- neither logs nor signals anything.
pub death_while_shutting_down :
    (pid : ℤ) (status : ℕ) (s : MainApp)
    → IsValid s
    → IsPid pid
    → s.shutdown ≡ true
    → known pid s ≡ true
    → StrikesOff pid s (handle_child_process_death pid status s)
unfolding handle_child_process_death
death_while_shutting_down pid status s v i run k = elim (Bool-cases (found pid s.worker_pids)) [
  | inl w ↦
      rw (w, handle_child_process_death)
        (StrikesOff-guard pid s s.shutdown _ _ run (strikes_worker pid s v w))
  | inr w ↦ elim (Bool-cases (found pid s.auxiliary_pids)) [
    | inl a ↦
        rw (w, a, handle_child_process_death)
          (StrikesOff-guard pid s s.shutdown _ _ run (strikes_auxiliary pid s v w a))
    | inr a ↦
        let m : equal pid s.monitoring_process_pid ≡ true = rw (w, a) at k in
        rw (w, a, m, handle_child_process_death)
          (StrikesOff-guard pid s s.shutdown _ _ run
            (strikes_monitoring pid s v i w a (eq_of_equal pid s.monitoring_process_pid m)))
  ]
]
