-- ===== src/MainApp/Auxiliaries.antt =====
-- Whom the overseer signals, whatever happens to it.
use blade_psgi.Base.{
  ◌≡◌, refl, sym, subst, inl, inr, false, Option, none, some, List, [], ◌∷◌, All, All-mono,
  Option-cases, Bool-cases, ◌==◌,
}
use blade_psgi.Base.Words.{ℤ}
use blade_psgi.Base.Outcome.{Outcome, ok, throw, exited, aborted}
use blade_psgi.Shmem.PosixSem.{eintr, eagain}
use blade_psgi.MainApp.{MainApp, Signal, found, handle_parent_signal, Written}
use blade_psgi.MainApp.MainLoop.{
  echild, handle_flags, Waited, child, wait_failed, no_child_yet, wait_children, reaped, round,
  Selected, timed_out, woken, select_failed, selected_other, Read, got, read_failed, end_of_file,
  drain_self_pipe, after_select,
}
use blade_psgi.MainApp.Children.{Differs, IsValid, not_found_of_All}
use blade_psgi.MainApp.Spared.{
  IsSpared, Spares, Spares-fields, Spares-parent_signal, Spares-flags, Spares-death,
}

-- What happens to the overseer: a signal, or a round of its loop.
pub data Event : Type 0 where
  delivered : Signal → Written → Event
  looped : Selected → List Read → List Waited → Event

-- A round that still waits for something has not happened yet.
abbrev pub happened : MainApp → Option (Outcome (Unit {0}) × MainApp) → MainApp
happened s none = s
happened s (some r) = r.1

abbrev pub happens : Event → MainApp → MainApp
happens (delivered sig w) s = (handle_parent_signal sig w s).1
happens (looped selected reads waits) s = happened s (round selected reads waits s)

unfoldable pub events : List Event → MainApp → MainApp
events [] s = s
events (e ∷ es) s = events es (happens e s)

module _ (aux : List ℤ) where
  Spares-reaped :
      (again : MainApp → Option (Outcome (Unit {0}) × MainApp)) (s : MainApp)
      (r : Outcome (Unit {0}) × MainApp)
      → Spares aux s
      → Spares aux r.1
      → ((t : MainApp) → Spares aux t → Spares aux (happened s (again t)))
      → Spares aux (happened s (reaped again r))
  Spares-reaped again s (ok u, t) v w h = h t w
  Spares-reaped again s (throw e, t) v w h = w
  Spares-reaped again s (exited n, t) v w h = w
  Spares-reaped again s (aborted, t) v w h = w

  Spares-wait :
      (waits : List Waited) (s t : MainApp)
      → Spares aux s
      → Spares aux t
      → Spares aux (happened s (wait_children waits t))
  unfolding wait_children
  Spares-wait [] s t v w = v
  Spares-wait (child pid status ∷ waits) s t v w =
      Spares-reaped (wait_children waits) s _ v (Spares-death aux pid status t w)
        (λ u x. Spares-wait waits s u v x)
  Spares-wait (no_child_yet ∷ waits) s t v w = w
  Spares-wait (wait_failed errno ∷ waits) s t v w = elim (Bool-cases (errno == echild)) [
    | inl e ↦ rw (e, wait_children) (Spares-fields aux t _ refl refl refl w)
    | inr e ↦ elim (Bool-cases (errno == eintr)) [
      | inl f ↦ rw (e, f, wait_children) (Spares-wait waits s t v w)
      | inr f ↦ rw (e, f, wait_children) w
    ]
  ]

  -- A call that returns leaves a state that spares the auxiliary processes.
  abbrev Ends : Option (Outcome (Unit {0}) × MainApp) → Type 0
  Ends none = Unit {0}
  Ends (some r) = Spares aux r.1

  Ends-drain : (reads : List Read) (s : MainApp) → Spares aux s → Ends (drain_self_pipe reads s)
  unfolding drain_self_pipe
  Ends-drain [] s v = tt
  Ends-drain (got n ∷ reads) s v = Ends-drain reads _ (Spares-fields aux s _ refl refl refl v)
  Ends-drain (read_failed errno ∷ reads) s v = elim (Bool-cases (errno == eintr)) [
    | inl e ↦ rw (e, drain_self_pipe) (Ends-drain reads s v)
    | inr e ↦ elim (Bool-cases (errno == eagain)) [
      | inl f ↦ rw (e, f, drain_self_pipe) v
      | inr f ↦ rw (e, f, drain_self_pipe) v
    ]
  ]
  Ends-drain (end_of_file ∷ reads) s v = v

  Ends-select :
      (selected : Selected) (reads : List Read) (s : MainApp)
      → Spares aux s
      → Ends (after_select selected reads s)
  unfolding after_select
  Ends-select timed_out reads s v = v
  Ends-select woken reads s v = Ends-drain reads s v
  Ends-select (select_failed errno) reads s v = elim (Bool-cases (errno == eintr)) [
    | inl e ↦ rw (e, after_select) v
    | inr e ↦ rw (e, after_select) v
  ]
  Ends-select (selected_other n) reads s v = v

  Spares-round :
      (selected : Selected) (reads : List Read) (waits : List Waited) (s : MainApp)
      → Spares aux s
      → Spares aux (happened s (round selected reads waits s))
  unfolding round
  Spares-round selected reads waits s v = elim (Option-cases (after_select selected reads s)) [
    | inl e ↦ rw (e, round) v
    | inr (r, e) ↦
        rw (e, round)
          (Spares-reaped _ s r v (subst Ends e (Ends-select selected reads s v)) λ t w.
            Spares-reaped _ s (handle_flags t) v (Spares-flags aux t w)
              λ u x. Spares-wait waits s u v x)
  ]

  Spares-events : (es : List Event) (s : MainApp) → Spares aux s → Spares aux (events es s)
  unfolding events
  Spares-events [] s v = v
  Spares-events (delivered sig w ∷ es) s v = Spares-events es _ (Spares-parent_signal aux sig w s v)
  Spares-events (looped selected reads waits ∷ es) s v =
      Spares-events es _ (Spares-round selected reads waits s v)

IsSpared-of_Differs : (p : ℤ) (aux : List ℤ) → All (Differs p) aux → IsSpared aux p
IsSpared-of_Differs p aux h = not_found_of_All p aux h

-- From valid tables, before any signal was sent, no history of signals, wake-ups and deaths of
-- children makes the overseer signal an auxiliary process, not even when a shutdown was requested.
pub events-spare_auxiliaries :
    (es : List Event) (s : MainApp)
    → IsValid s
    → s.killed ≡ []
    → All (λ k. found k.0 s.auxiliary_pids ≡ false) (events es s).killed
events-spare_auxiliaries es s v quiet = (Spares-events s.auxiliary_pids es s first).sent
  where
    first : Spares s.auxiliary_pids s
    first = record {
      workers = All-mono (λ p h. IsSpared-of_Differs p s.auxiliary_pids h) s.worker_pids v.apart;
      monitoring =
          inr (
            IsSpared-of_Differs s.monitoring_process_pid s.auxiliary_pids
              v.monitoring_no_auxiliary);
      sent = subst (All (λ k. IsSpared s.auxiliary_pids k.0)) (sym quiet) tt;
    }
