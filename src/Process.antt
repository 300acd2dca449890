-- ===== src/Process.antt =====
-- What each process of the program does about signals before it starts its work: `SetSignalHandler`,
-- `BlockSignals`, `UnblockSignals` and `SubprocessInit` of src/bladepsgi.cpp, and the beginnings of
-- the functions `Run` of src/bladepsgi.cpp, src/worker.cpp, src/auxiliary.cpp and
-- src/monitoring.cpp. The calls of the operating system succeed.
pub mod Readiness
pub mod Title
use blade_psgi.Base.{
  ℕ, Bool, true, false, Option, none, some, List, [], ◌∷◌, ◌++◌, if◌then◌else◌, ◌==◌,
}
use blade_psgi.Base.Bytes.{Bytes, codes}
use blade_psgi.Base.Outcome.{
  logic_error, Outcome, ok, throw, M, ◌>>=◌, ◌>>◌, return, raise, get, put,
}

-- The function that runs on a signal, named for the process that installs it.
pub data Handler : Type 0 where
  sig_dfl sig_ign overseer_handler worker_sigterm worker_sigquit auxiliary_sigquit
        monitoring_sigquit :
      Handler

-- Signal numbers.
abbrev pub sighup : ℕ
sighup = 1

abbrev pub sigint : ℕ
sigint = 2

abbrev pub sigquit : ℕ
sigquit = 3

abbrev pub sigterm : ℕ
sigterm = 15

abbrev pub sigchld : ℕ
sigchld = 17

-- A set of signals.
abbrev pub Mask : Type 0
Mask = ℕ → Bool

abbrev pub all_signals : Mask
all_signals sig = true

pub record Process : Type 0 where
  pub mask : Mask
  pub signal_mask_stack : List Mask
  pub handlers : ℕ → Handler
  pub death_signal : Option ℕ
  pub title : Bytes

abbrev pub set_signal_handler : ℕ → Handler → M Process (Unit {0})
set_signal_handler signum handler p =
    (ok tt, record p { handlers = λ sig. if signum == sig then handler else p.handlers sig })

-- `sigprocmask(SIG_SETMASK, ...)` with all signals; the old mask is pushed at the back.
unfoldable pub block_signals : M Process (Unit {0})
block_signals p =
    (ok tt, record p { mask = all_signals; signal_mask_stack = p.signal_mask_stack ++ p.mask ∷ [] })

-- The mask is taken from the front.
abbrev pub unblock : List Mask → M Process (Unit {0})
unblock [] p =
    (throw (logic_error (codes "UnblockSignals called but signal_mask_stack_ is empty")), p)
unblock (mask ∷ rest) p = (ok tt, record p { mask = mask; signal_mask_stack = rest })

unfoldable pub unblock_signals : M Process (Unit {0})
unblock_signals p = unblock p.signal_mask_stack p

-- `BPSGISubprocessInitFlags`
pub data Flags : Type 0 where
  subp_default_flags subp_no_deathsig : Flags

-- On Linux.
unfoldable pub subprocess_init : Bytes → Flags → M Process (Unit {0})
subprocess_init title subp_default_flags p =
    (ok tt, record p { death_signal = some sigquit; title = title })
subprocess_init title subp_no_deathsig p = (ok tt, record p { title = title })

-- The calls with which a process begins.
pub data Call : Type 0 where
  handle : ℕ → Handler → Call
  init : Bytes → Flags → Call
  unblocks : Call

abbrev pub call : Call → M Process (Unit {0})
call (handle signum handler) = set_signal_handler signum handler
call (init title flags) = subprocess_init title flags
call unblocks = unblock_signals

unfoldable pub calls : List Call → M Process (Unit {0})
calls [] = return tt
calls (c ∷ cs) = call c >> calls cs

pub data Kind : Type 0 where
  overseer monitoring : Kind
  worker auxiliary : Bytes → Kind

-- The overseer's are behind the forks.
abbrev pub overseer_set_up : List Call
overseer_set_up =
    handle sigchld overseer_handler
    ∷ handle sigint overseer_handler
    ∷ handle sigterm overseer_handler
    ∷ handle sigquit overseer_handler
    ∷ unblocks
    ∷ []

abbrev pub worker_set_up : Bytes → List Call
worker_set_up title =
    init title subp_default_flags
    ∷ handle sigchld sig_dfl
    ∷ handle sigint sig_ign
    ∷ handle sigterm worker_sigterm
    ∷ handle sigquit worker_sigquit
    ∷ unblocks
    ∷ []

abbrev pub auxiliary_set_up : Bytes → List Call
auxiliary_set_up name =
    init name subp_default_flags
    ∷ handle sigchld sig_dfl
    ∷ handle sigint sig_dfl
    ∷ handle sigterm sig_dfl
    ∷ handle sigquit auxiliary_sigquit
    ∷ unblocks
    ∷ []

abbrev pub monitoring_set_up : List Call
monitoring_set_up =
    init (codes "monitoring") subp_no_deathsig
    ∷ handle sigint sig_dfl
    ∷ handle sigterm sig_dfl
    ∷ handle sigquit monitoring_sigquit
    ∷ unblocks
    ∷ []

abbrev pub set_up : Kind → List Call
set_up overseer = overseer_set_up
set_up (worker title) = worker_set_up title
set_up (auxiliary name) = auxiliary_set_up name
set_up monitoring = monitoring_set_up
