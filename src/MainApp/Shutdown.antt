-- ===== src/MainApp/Shutdown.antt =====
-- How a shutdown goes: the requests in the flags, and the reaping of the children.
use mathlib.Core.Path.{ap₂}
use blade_psgi.Base.{
  ℕ, ◌≡◌, ◌≢◌, refl, ap, subst, ◌∙◌, Bool, true, false, not, ◌&&◌, ◌||◌, Option, none, some, List,
  [], ◌∷◌, ◌++◌, map, append-nil, arith, All, Pairs, if◌then◌else◌,
}
use blade_psgi.Base.Bytes.{codes}
use blade_psgi.Base.Words.{ℤ, minus_one, equal}
use blade_psgi.Base.Outcome.{Outcome, ok, throw, exited, aborted}
use blade_psgi.MainApp.{
  MainApp, Signal, sigquit, sigterm, ls_log, text, handle_child_process_death, handle_parent_signal,
  wrote,
}
use blade_psgi.MainApp.MainLoop.{
  handle_flags, Waited, child, wait_failed, echild, wait_children, reaped,
}
use blade_psgi.MainApp.Kill.{targets, signals, kill_process_group_lem}
use blade_psgi.MainApp.Children.{IsPid, IsValid, known}
use blade_psgi.MainApp.Reaped.{StrikesOff, death_while_shutting_down}

-- The signal that the flags ask for: fast before smart, and a second smart request is a fast one.
abbrev pub requested : Bool → Bool → Bool → Option Signal
requested true smart force = some sigquit
requested false true true = some sigquit
requested false true false = some sigterm
requested false false force = none

abbrev pub sends : Option Signal → MainApp → List (ℤ × Signal)
sends none s = []
sends (some sig) s = signals sig (targets s)

-- What a round does with the flags. A smart request that came together with a fast one stays for
-- the next round.
pub record HandlesFlags (s : MainApp) (r : Outcome (Unit {0}) × MainApp) : Type 0 where
  pub status : r.0 ≡ ok tt
  pub sent :
      r.1.killed
      ≡ s.killed ++ sends (requested s.fast_shutdown s.smart_shutdown s.force_fast_shutdown) s
  pub fast : r.1.fast_shutdown ≡ false
  pub smart : r.1.smart_shutdown ≡ (s.fast_shutdown && s.smart_shutdown)
  pub force :
      r.1.force_fast_shutdown ≡ (s.force_fast_shutdown || (not s.fast_shutdown && s.smart_shutdown))
  pub shutdown : r.1.shutdown ≡ s.shutdown
  pub workers : r.1.worker_pids ≡ s.worker_pids
  pub auxiliaries : r.1.auxiliary_pids ≡ s.auxiliary_pids
  pub monitoring : r.1.monitoring_process_pid ≡ s.monitoring_process_pid

-- A round never fails on the flags. It sends the signal that they ask for to every worker and to
-- the monitoring process, clears the request that it served, remembers a first smart request, and
-- leaves the tables alone.
pub handle_flags-HandlesFlags : (s : MainApp) → HandlesFlags s (handle_flags s)
unfolding handle_flags
handle_flags-HandlesFlags s = ground (
  arith,
  kill_process_group_lem sigquit
      (record s {
        logged = s.logged ++ (ls_log, text (codes "received fast shutdown request")) ∷ [];
      })
      refl,
  kill_process_group_lem sigquit
      (record s {
        logged =
            s.logged
            ++ (
              ls_log,
              text (codes "received second smart shutdown request; shutting down quickly"),
            )
              ∷ [];
      })
      refl,
  kill_process_group_lem sigterm
      (record s {
        logged = s.logged ++ (ls_log, text (codes "received smart shutdown request")) ∷ [];
      })
      refl,
  append-nil s.killed,
)

-- A signal that arrives, and the next look at the flags.
abbrev pub serve : Signal → MainApp → MainApp
serve sig s = (handle_flags (handle_parent_signal sig wrote s).1).1

-- Two SIGTERMs that are served one after the other: the workers and the monitoring process are
-- first asked to finish, and then to quit at once.
two_smart_shutdowns :
    (s : MainApp)
    → s.fast_shutdown ≡ false
    → s.force_fast_shutdown ≡ false
    → (serve sigterm (serve sigterm s)).killed
      ≡ s.killed ++ signals sigterm (targets s) ++ signals sigquit (targets s)
unfolding handle_parent_signal
two_smart_shutdowns s f g =
    let first = (handle_parent_signal sigterm wrote s).1 in
    let a : HandlesFlags first (handle_flags first) = handle_flags-HandlesFlags first in
    let second = (handle_parent_signal sigterm wrote (handle_flags first).1).1 in
    let b : HandlesFlags second (handle_flags second) = handle_flags-HandlesFlags second in
    let flags : requested second.fast_shutdown true second.force_fast_shutdown ≡ some sigquit =
      ground (arith, a.fast, a.force) in
    let first_sent : first.killed
          ++ sends (requested first.fast_shutdown true first.force_fast_shutdown) first
        ≡ s.killed ++ signals sigterm (targets s) =
      ground arith in
    let same : targets second ≡ targets s =
      ap₂ (λ ws m. ws ++ (if equal m minus_one then [] else m ∷ [])) a.workers a.monitoring in
    b.sent
    ∙ ap₂ (λ k r. k ++ sends r second) (a.sent ∙ first_sent) flags
    ∙ ap (λ ps. s.killed ++ signals sigterm (targets s) ++ signals sigquit ps) same

abbrev pub deaths : List (ℤ × ℕ) → List Waited
deaths = map (λ d. child d.0 d.1)

-- A child of the overseer that has not been reaped.
abbrev pub IsChild : MainApp → ℤ × ℕ → Type 0
IsChild s d = IsPid d.0 × (known d.0 s ≡ true)

reaped_ok :
    (again : MainApp → Option (Outcome (Unit {0}) × MainApp)) (r : Outcome (Unit {0}) × MainApp)
    → r.0 ≡ ok tt
    → reaped again r ≡ again r.1
reaped_ok again (ok u, t) h = refl
reaped_ok again (throw e, t) h = absurd (cc)
reaped_ok again (exited n, t) h = absurd (cc)
reaped_ok again (aborted, t) h = absurd (cc)

not_minus_one : (p : ℤ) → IsPid p → p ≢ minus_one
not_minus_one p i e = subst IsPid e i

IsChild-later :
    (p : ℤ) (s : MainApp) (r : Outcome (Unit {0}) × MainApp) (ds : List (ℤ × ℕ))
    → StrikesOff p s r
    → All (λ d. p ≢ d.0) ds
    → All (IsChild s) ds
    → All (IsChild r.1) ds
IsChild-later p s r [] x ne h = tt
IsChild-later p s r (d ∷ ds) x ne h = (
  (h.0.0, x.others d.0 ne.0 (not_minus_one d.0 h.0.0) ∙ h.0.1),
  IsChild-later p s r ds x ne.1 h.1,
)

-- A shutdown comes to its end: when different children die in any order and with any status, and
-- waitpid then reports that none is left, the overseer exits with status 0. Of all these deaths
-- none is logged, and none makes it send a signal.
pub shutdown_completes :
    (ds : List (ℤ × ℕ)) (s : MainApp)
    → IsValid s
    → s.shutdown ≡ true
    → Pairs (λ d d'. d.0 ≢ d'.0) ds
    → All (IsChild s) ds
    → (t : MainApp) × (wait_children (deaths ds ++ wait_failed echild ∷ []) s ≡ some (exited 0, t))
      × (t.killed ≡ s.killed)
      × (t.logged ≡ s.logged ++ (ls_log, text (codes "BladePSGI shutting down")) ∷ [])
unfolding wait_children
shutdown_completes [] s v run once h = (_, refl, refl, refl)
shutdown_completes ((p, status) ∷ ds) s v run once h =
    let r = handle_child_process_death p status s in
    let x : StrikesOff p s r = death_while_shutting_down p status s v h.0.0 run h.0.1 in
    let (t, e, k, l) =
      shutdown_completes ds r.1 x.valid (x.still ∙ run) once.1
        (IsChild-later p s r ds x once.0 h.1) in
    (
      t,
      reaped_ok _ r x.status ∙ e,
      k ∙ x.sent,
      l ∙ ap (λ ls. ls ++ (ls_log, text (codes "BladePSGI shutting down")) ∷ []) x.logs,
    )
