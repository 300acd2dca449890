-- ===== src/MainApp/Wakeup.antt =====
-- The self-pipe: signals arrive between any two steps of the overseer's loop. A step runs the
-- handler, one call of the loop, or its look at the flags.
use blade_psgi.Base.{
  ℕ, ◌-◌, ◌≤◌, ◌<◌, ◌≡◌, ◌⊎◌, inl, inr, Bool, true, false, ◌&&◌, ◌||◌, arith, subst, sym, ◌∙◌,
}
use blade_psgi.Base.Words.{ℤ}
use mathlib.Core.Bool.{false≢true}
use blade_psgi.MainApp.{
  handle_child_process_death, write_failed, MainApp, Signal, sigquit, other_signal, sigterm, sigint,
  sigchld, handle_parent_signal, Written, wrote, would_block,
}
use blade_psgi.MainApp.MainLoop.{handle_flags}
use blade_psgi.MainApp.Shutdown.{handle_flags-HandlesFlags}
use blade_psgi.MainApp.Flags.{death-SameFlags}

-- Where the loop of `Run` stands.
pub data Place : Type 0 where
  selecting draining checking waiting : Place

pub record Overseer : Type 0 where
  pub app : MainApp
  pub place : Place
  -- A child has died since waitpid last said that none had.
  pub unreaped : Bool
  -- At the last look at the flags, a smart request stood behind a fast one.
  pub deferred : Bool

-- A write to the pipe stores a byte, or finds it full.
abbrev pub Writes : MainApp → Written → Type 0
Writes s wrote = Unit {0}
Writes s would_block = 0 < s.self_pipe
Writes s _ = ⊥

abbrev pub is_chld : Signal → Bool
is_chld sigchld = true
is_chld _ = false

-- The signals after which the loop goes on; SIGQUIT ends the process in the handler.
abbrev pub IsHandled : Signal → Type 0
IsHandled sigterm = Unit {0}
IsHandled sigint = Unit {0}
IsHandled sigchld = Unit {0}
IsHandled _ = ⊥

pub data Step (o : Overseer) : Overseer → Type 0 where
  arrives :
      (sig : Signal) (w : Written)
      → IsHandled sig
      → Writes o.app w
      → Step o (record o {
        app = (handle_parent_signal sig w o.app).1;
        unreaped = is_chld sig || o.unreaped;
      })
  readable : o.place ≡ selecting → 0 < o.app.self_pipe → Step o (record o { place = draining })
  times_out : o.place ≡ selecting → Step o (record o { place = checking })
  reads :
      (n : ℕ)
      → o.place ≡ draining
      → 0 < n
      → n ≤ 10
      → n ≤ o.app.self_pipe
      → Step o (record o { app = record o.app { self_pipe = o.app.self_pipe - n } })
  drained : o.place ≡ draining → o.app.self_pipe ≡ 0 → Step o (record o { place = checking })
  checks :
      o.place ≡ checking
      → Step o (record o {
        app = (handle_flags o.app).1;
        place = waiting;
        deferred = o.app.fast_shutdown && o.app.smart_shutdown;
      })
  reaps :
      (pid : ℤ) (status : ℕ)
      → o.place ≡ waiting
      → Step o (record o { app = (handle_child_process_death pid status o.app).1 })
  waited : o.place ≡ waiting → Step o (record o { place = selecting; unreaped = false })

pub data Reach (o : Overseer) : Overseer → Type 0 where
  here : Reach o o
  later : {p q : Overseer} → Reach o p → Step p q → Reach o q

-- A request behind the loop's last look at the flags has a byte in the pipe.
abbrev Pending : Place → Overseer → Type 0
Pending selecting o =
    (o.app.fast_shutdown ≡ true → 0 < o.app.self_pipe)
    × (o.app.smart_shutdown ≡ true → (0 < o.app.self_pipe) ⊎ (o.deferred ≡ true))
    × (o.unreaped ≡ true → 0 < o.app.self_pipe)
Pending waiting o =
    (o.app.fast_shutdown ≡ true → 0 < o.app.self_pipe)
    × (o.app.smart_shutdown ≡ true → (0 < o.app.self_pipe) ⊎ (o.deferred ≡ true))
    × Unit {0}
Pending _ o = Unit {0}

abbrev IsAwake : Overseer → Type 0
IsAwake o = Pending o.place o

Pending-of_pipe : (place : Place) (o : Overseer) → 0 < o.app.self_pipe → Pending place o
Pending-of_pipe selecting o h = (λ _. h, λ _. inl h, λ _. h)
Pending-of_pipe draining o h = tt
Pending-of_pipe checking o h = tt
Pending-of_pipe waiting o h = (λ _. h, λ _. inl h, tt)

arrives-pipe :
    (sig : Signal) (w : Written) (s : MainApp)
    → IsHandled sig
    → Writes s w
    → 0 < (handle_parent_signal sig w s).1.self_pipe
unfolding handle_parent_signal
arrives-pipe sigquit w s h k = absurd h
arrives-pipe (other_signal n) w s h k = absurd h
arrives-pipe sigterm wrote s h k = omega arith
arrives-pipe sigterm would_block s h k = k
arrives-pipe sigterm (write_failed e) s h k = absurd k
arrives-pipe sigint wrote s h k = omega arith
arrives-pipe sigint would_block s h k = k
arrives-pipe sigint (write_failed e) s h k = absurd k
arrives-pipe sigchld wrote s h k = omega arith
arrives-pipe sigchld would_block s h k = k
arrives-pipe sigchld (write_failed e) s h k = absurd k

Step-IsAwake : {o p : Overseer} → Step o p → IsAwake o → IsAwake p
Step-IsAwake {o} (arrives sig w h k) v = Pending-of_pipe o.place _ (arrives-pipe sig w o.app h k)
Step-IsAwake {o} (readable e h) v = tt
Step-IsAwake {o} (times_out e) v = tt
Step-IsAwake {o} (reads n e h k l) v =
    subst
      (λ place. Pending place (record o { app = record o.app { self_pipe = o.app.self_pipe - n } }))
      (sym e) tt
Step-IsAwake {o} (drained e h) v = tt
Step-IsAwake {o} (checks e) v =
    let h = handle_flags-HandlesFlags o.app in
    (λ f. absurd (false≢true (sym h.fast ∙ f)), λ m. inr (sym h.smart ∙ m), tt)
Step-IsAwake {o} (reaps pid status e) v =
    let h = death-SameFlags pid status o.app in
    let was : Pending waiting o = subst (λ place. Pending place o) e v in
    subst
      (λ place. Pending place (record o { app = (handle_child_process_death pid status o.app).1 }))
      (sym e)
      (λ f. rw h.pipe (was.0 (sym h.fast ∙ f)), λ m. rw h.pipe (was.1 (sym h.smart ∙ m)), tt)
Step-IsAwake {o} (waited e) v =
    let was : Pending waiting o = subst (λ place. Pending place o) e v in
    (was.0, was.1, λ f. absurd (false≢true f))

Reach-IsAwake : {o p : Overseer} → IsAwake o → Reach o p → IsAwake p
Reach-IsAwake v here = v
Reach-IsAwake v (later r st) = Step-IsAwake st (Reach-IsAwake v r)

-- The loop begins with no request and no byte in the pipe.
abbrev pub start : MainApp → Overseer
start s = record {
  app = record s { self_pipe = 0; fast_shutdown = false; smart_shutdown = false };
  place = selecting;
  unreaped = false;
  deferred = false;
}

-- However signals and the steps of the loop are interleaved: when the overseer is about to sleep in
-- select while a fast shutdown is requested, a child's death was announced and not yet looked for,
-- or a smart shutdown is requested that did not come together with a fast one, then the self-pipe
-- holds a byte and select returns at once.
pub no_lost_wakeup :
    (s : MainApp) {o : Overseer}
    → Reach (start s) o
    → o.place ≡ selecting
    → (o.app.fast_shutdown ≡ true)
      ⊎ (o.unreaped ≡ true)
      ⊎ ((o.app.smart_shutdown ≡ true) × (o.deferred ≡ false))
    → 0 < o.app.self_pipe
no_lost_wakeup s {o} r e h =
    let now : Pending selecting o =
      subst (λ place. Pending place o) e
        (Reach-IsAwake {o = start s}
          (λ f. absurd (false≢true f), λ f. absurd (false≢true f), λ f. absurd (false≢true f)) r) in
    wakes now h
  where
    wakes :
        Pending selecting o
        → (o.app.fast_shutdown ≡ true)
          ⊎ (o.unreaped ≡ true)
          ⊎ ((o.app.smart_shutdown ≡ true) × (o.deferred ≡ false))
        → 0 < o.app.self_pipe
    wakes now (inl f) = now.0 f
    wakes now (inr (inl u)) = now.2 u
    wakes now (inr (inr (m, d))) = elim (now.1 m) [
      | inl p ↦ p
      | inr p ↦ absurd (false≢true (sym d ∙ p))
    ]
