-- ===== src/Process/Readiness.antt =====
-- When the processes of each kind take signals, and what is installed for these by then.
use blade_psgi.Base.{
  ℕ, zero, suc, ◌≤◌, ◌+◌, ◌≡◌, refl, ap, ◌∙◌, All, ◌⊎◌, inl, inr, List, [], ◌∷◌, ◌++◌, take, arith,
  length, length-append, ◌==◌, if◌then◌else◌,
}
use blade_psgi.Base.Bytes.{codes}
use blade_psgi.Base.Outcome.{Outcome, ok}
use blade_psgi.Process.{
  Handler, sig_dfl, sig_ign, overseer_handler, worker_sigterm, worker_sigquit, auxiliary_sigquit,
  monitoring_sigquit, sigint, sigquit, sigterm, sigchld, Mask, all_signals, Process, block_signals,
  unblock_signals, subprocess_init, Call, handle, init, unblocks, call, subp_default_flags,
  subp_no_deathsig, calls, Kind, overseer, monitoring, worker, auxiliary, set_up,
}

-- What is to happen on a signal in a process whose work has begun. The other signals keep what the
-- program was started with.
abbrev pub planned : Kind → (ℕ → Handler) → ℕ → Handler
planned overseer old sig =
    if sig == sigchld
    then overseer_handler
    else if sig == sigint
    then overseer_handler
    else if sig == sigterm
    then overseer_handler
    else if sig == sigquit
    then overseer_handler
    else old sig
planned (worker title) old sig =
    if sig == sigchld
    then sig_dfl
    else if sig == sigint
    then sig_ign
    else if sig == sigterm
    then worker_sigterm
    else if sig == sigquit
    then worker_sigquit
    else old sig
planned (auxiliary name) old sig =
    if sig == sigchld
    then sig_dfl
    else if sig == sigint
    then sig_dfl
    else if sig == sigterm
    then sig_dfl
    else if sig == sigquit
    then auxiliary_sigquit
    else old sig
planned monitoring old sig =
    if sig == sigint
    then sig_dfl
    else if sig == sigterm
    then sig_dfl
    else if sig == sigquit
    then monitoring_sigquit
    else old sig

-- Every signal is blocked.
abbrev pub IsDeaf : Process → Type 0
IsDeaf p = p.mask ≡ all_signals

-- The mask is that of `p`, nothing is left to be unblocked, and the plan is in force.
pub record IsReady (kind : Kind) (p q : Process) : Type 0 where
  pub mask : q.mask ≡ p.mask
  pub stack : q.signal_mask_stack ≡ []
  pub handlers : (sig : ℕ) → q.handlers sig ≡ planned kind p.handlers sig

-- The process after the first `n` calls.
abbrev pub after_calls : Kind → ℕ → Process → Outcome (Unit {0}) × Process
after_calls kind n p = calls (take n (set_up kind)) (block_signals p).1

-- A call that leaves the mask alone.
abbrev IsQuiet : Call → Type 0
IsQuiet (handle signum handler) = Unit
IsQuiet (init title flags) = Unit
IsQuiet unblocks = ⊥

-- The mask is set back to `mask`, behind `n` or more calls that leave the handlers as `h`.
record IsBack (mask : Mask) (h : ℕ → Handler) (n size : ℕ) (q : Process) : Type 0 where
  done : size ≤ n
  back : q.mask ≡ mask
  empty : q.signal_mask_stack ≡ []
  same : q.handlers ≡ h

-- The process after a call that leaves the mask alone.
quiet_ok :
    (c : Call) (q : Process)
    → IsQuiet c
    → (t : Process) × (call c q ≡ (ok tt, t))
      × (t.mask ≡ q.mask)
      × (t.signal_mask_stack ≡ q.signal_mask_stack)
unfolding subprocess_init
quiet_ok (handle signum handler) q h = (_, refl, refl, refl)
quiet_ok (init title subp_default_flags) q h = (_, refl, refl, refl)
quiet_ok (init title subp_no_deathsig) q h = (_, refl, refl, refl)
quiet_ok unblocks q h = absurd h

unblocked :
    (mask : Mask) (n : ℕ) (q : Process)
    → q.signal_mask_stack ≡ mask ∷ []
    → let r = calls (take (suc n) (unblocks ∷ [])) q in
      (r.0 ≡ ok tt) × IsBack mask q.handlers (suc n) 1 r.1
unfolding calls unblock_signals
unblocked mask zero q s =
    rw s (refl, record { done = omega arith; back = refl; empty = refl; same = refl })
unblocked mask (suc n) q s =
    rw s (refl, record { done = omega arith; back = refl; empty = refl; same = refl })

quiet_calls :
    (cs : List Call) (n : ℕ) (mask : Mask) (q : Process)
    → All IsQuiet cs
    → q.mask ≡ all_signals
    → q.signal_mask_stack ≡ mask ∷ []
    → let r = calls (take n (cs ++ unblocks ∷ [])) q in
      (r.0 ≡ ok tt) × (IsDeaf r.1 ⊎ IsBack mask (calls cs q).1.handlers n (length cs + 1) r.1)
unfolding calls
quiet_calls cs zero mask q h m s = (refl, inl m)
quiet_calls [] (suc n) mask q h m s =
    let (fine, b) = unblocked mask n q s in
    (
      fine,
      inr (record { done = omega (arith, b.done); back = b.back; empty = b.empty; same = b.same }),
    )
quiet_calls (c ∷ cs) (suc n) mask q h m s =
    let (t, e, tm, ts) = quiet_ok c q h.0 in
    let (fine, rest) = quiet_calls cs n mask t h.1 (tm ∙ m) (ts ∙ s) in rw e (fine, later rest)
  where
    later :
        {r : Process} {hs : ℕ → Handler}
        → IsDeaf r ⊎ IsBack mask hs n (length cs + 1) r
        → IsDeaf r ⊎ IsBack mask hs (suc n) (length (c ∷ cs) + 1) r
    later (inl d) = inl d
    later (inr b) =
        inr (record { done = omega (arith, b.done); back = b.back; empty = b.empty; same = b.same })

module _ (kind : Kind) (cs : List Call) (n : ℕ) (p : Process) where
  ready :
      set_up kind ≡ cs ++ unblocks ∷ []
      → All IsQuiet cs
      → ((sig : ℕ) → (calls cs (block_signals p).1).1.handlers sig ≡ planned kind p.handlers sig)
      → p.signal_mask_stack ≡ []
      → let r = after_calls kind n p in
        (r.0 ≡ ok tt) × (IsDeaf r.1 ⊎ ((length (set_up kind) ≤ n) × IsReady kind p r.1))
  unfolding block_signals
  ready split quiet plan e =
      let b = (block_signals p).1 in
      let stack : b.signal_mask_stack ≡ p.mask ∷ [] = ap (λ ms. ms ++ p.mask ∷ []) e in
      let (fine, r) = quiet_calls cs n p.mask b quiet refl stack in rw split (fine, finish r)
    where
      finish :
          {r : Process}
          → IsDeaf r ⊎ IsBack p.mask (calls cs (block_signals p).1).1.handlers n (length cs + 1) r
          → IsDeaf r ⊎ ((length (cs ++ unblocks ∷ []) ≤ n) × IsReady kind p r)
      finish (inl d) = inl d
      finish (inr b) = inr (
        omega (arith, b.done, length-append cs (unblocks ∷ [])),
        record {
          mask = b.back;
          stack = b.empty;
          handlers = λ sig. ap (λ h. h sig) b.same ∙ plan sig;
        },
      )

-- From `BlockSignals` on, which `Run` calls first of all and before any fork, no call of the set-up
-- fails in a process of any kind, and at each time every signal is blocked, or the whole set-up is
-- done: the mask is the one that the program was started with, and all handlers are the planned
-- ones.
pub set_up-IsReady :
    (kind : Kind) (n : ℕ) (p : Process)
    → p.signal_mask_stack ≡ []
    → let r = after_calls kind n p in
      (r.0 ≡ ok tt) × (IsDeaf r.1 ⊎ ((length (set_up kind) ≤ n) × IsReady kind p r.1))
unfolding calls subprocess_init block_signals
set_up-IsReady overseer n p e =
    ready overseer
      (handle sigchld overseer_handler
        ∷ handle sigint overseer_handler
        ∷ handle sigterm overseer_handler
        ∷ handle sigquit overseer_handler
        ∷ [])
      n p refl (tt, (tt, (tt, (tt, tt)))) (λ sig. ground arith) e
set_up-IsReady (worker title) n p e =
    ready (worker title)
      (init title subp_default_flags
        ∷ handle sigchld sig_dfl
        ∷ handle sigint sig_ign
        ∷ handle sigterm worker_sigterm
        ∷ handle sigquit worker_sigquit
        ∷ [])
      n p refl (tt, (tt, (tt, (tt, (tt, tt))))) (λ sig. ground arith) e
set_up-IsReady (auxiliary name) n p e =
    ready (auxiliary name)
      (init name subp_default_flags
        ∷ handle sigchld sig_dfl
        ∷ handle sigint sig_dfl
        ∷ handle sigterm sig_dfl
        ∷ handle sigquit auxiliary_sigquit
        ∷ [])
      n p refl (tt, (tt, (tt, (tt, (tt, tt))))) (λ sig. ground arith) e
set_up-IsReady monitoring n p e =
    ready monitoring
      (init (codes "monitoring") subp_no_deathsig
        ∷ handle sigint sig_dfl
        ∷ handle sigterm sig_dfl
        ∷ handle sigquit monitoring_sigquit
        ∷ [])
      n p refl (tt, (tt, (tt, (tt, tt)))) (λ sig. ground arith) e
