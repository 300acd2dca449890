-- ===== src/Shmem/Accesses.antt =====
-- Processes that share the segment after start-up: each access is atomic, and the accesses of all
-- processes happen in some order.
use blade_psgi.Base.{
  ℕ, ◌+◌, ◌^◌, ◌≤◌, ◌<◌, ◌≡◌, refl, Bool, true, List, [], ◌∷◌, arith, All, ltb, ◌==◌, if◌then◌else◌,
  ◌||◌,
}
use blade_psgi.Base.Words.{u64}
use blade_psgi.Base.Outcome.{ok, Outcome}
use blade_psgi.Shmem.Memory.{store_outside, load-store-Apart, load-store_self, load_cong}
use blade_psgi.Shmem.{
  SharedMemory, fetch_add, set_should_exit_immediately, should_exit_immediately,
  increase_request_counter, read_request_counter, set_worker_status, worker_status_array_off,
}

pub data Access : Type 0 where
  request_exit : Access  -- SetShouldExitImmediately()
  count_request : Access  -- IncreaseRequestCounter()
  report_status : ℕ → ℕ → Access  -- SetWorkerStatus(workerno, status)
  add_to : ℕ → ℕ → Access  -- fetch_add on a user's atomic integer

unfoldable pub access : SharedMemory → Access → SharedMemory
access s request_exit = (set_should_exit_immediately s).1
access s count_request = (increase_request_counter s).1
access s (report_status w b) = (set_worker_status w b s).1
access s (add_to p v) = (fetch_add p v s).1

unfoldable pub after : SharedMemory → List Access → SharedMemory
after s [] = s
after s (a ∷ rest) = after (access s a) rest

-- 1 if the access is the one that makes its caller log the reason.
abbrev pub won : Outcome Bool → ℕ
won (ok true) = 1
won _ = 0

pub wins : SharedMemory → Access → ℕ
wins s request_exit = won (set_should_exit_immediately s).0
wins s _ = 0

unfoldable pub winners : SharedMemory → List Access → ℕ
unfolding wins
winners s [] = 0
winners s (a ∷ rest) = wins s a + winners (access s a) rest

abbrev pub asks : Access → ℕ
asks request_exit = 1
asks _ = 0

abbrev pub counts : Access → ℕ
counts count_request = 1
counts _ = 0

abbrev pub total : (Access → ℕ) → List Access → ℕ
total f [] = 0
total f (a ∷ rest) = f a + total f rest

-- User objects lie behind the header and below the worker status array.
abbrev pub IsPlaced : Access → Type 0
IsPlaced (add_to p v) = (16 ≤ p) × (p + 8 ≤ worker_status_array_off)
IsPlaced _ = Unit

flag-access :
    (s : SharedMemory) (a : Access)
    → IsPlaced a
    → (access s a).segment 0 ≡ (if ltb 0 (asks a) then 1 else s.segment 0)
unfolding access set_should_exit_immediately increase_request_counter set_worker_status
flag-access s request_exit h = refl
flag-access s count_request h = store_outside 8 s.segment 8 _ 0 (omega arith)
flag-access s (report_status w b) h = ground arith
flag-access s (add_to p v) h = store_outside 8 s.segment p _ 0 (omega arith)

counter-access :
    (s : SharedMemory) (a : Access)
    → IsPlaced a
    → read_request_counter (access s a)
      ≡ (if ltb 0 (counts a) then u64 (read_request_counter s + 1) else read_request_counter s)
unfolding access set_should_exit_immediately increase_request_counter set_worker_status
    read_request_counter
counter-access s request_exit h = load_cong 8 _ _ 8 (λ q lo hi. ground arith)
counter-access s count_request h = load-store_self 8 s.segment 8 _ (omega arith)
counter-access s (report_status w b) h = load_cong 8 _ _ 8 (λ q lo hi. ground arith)
counter-access s (add_to p v) h = load-store-Apart 8 8 s.segment p _ 8 (omega arith)

wins_lem : (s : SharedMemory) (a : Access) → wins s a ≡ (if s.segment 0 == 0 then asks a else 0)
unfolding wins set_should_exit_immediately
wins_lem s request_exit = ground arith
wins_lem s count_request = ground arith
wins_lem s (report_status w b) = ground arith
wins_lem s (add_to p v) = ground arith

winners_none :
    (s : SharedMemory) (rest : List Access)
    → All IsPlaced rest
    → s.segment 0 ≡ 1
    → winners s rest ≡ 0
unfolding winners
winners_none s [] h f = refl
winners_none s (a ∷ rest) h f =
    ground (arith, wins_lem s a, flag-access s a h.0, winners_none (access s a) rest h.1)

-- Whatever the order of all accesses, of the processes that ask for an immediate exit exactly one
-- is told to log the reason, provided the flag was not set before.
pub winners_once :
    (s : SharedMemory) (rest : List Access)
    → All IsPlaced rest
    → s.segment 0 ≡ 0
    → winners s rest ≡ (if ltb 0 (total asks rest) then 1 else 0)
unfolding winners
winners_once s [] h f = refl
winners_once s (request_exit ∷ rest) h f = ground (
  arith,
  wins_lem s request_exit,
  flag-access s request_exit h.0,
  winners_none (access s request_exit) rest h.1,
)
winners_once s (a ∷ rest) h f =
    ground (arith, wins_lem s a, flag-access s a h.0, winners_once (access s a) rest h.1)

-- Once asked for, the immediate exit is seen by every later look at the flag, and by none before.
pub should_exit_immediately-after :
    (s : SharedMemory) (rest : List Access)
    → All IsPlaced rest
    → should_exit_immediately (after s rest)
      ≡ (should_exit_immediately s || ltb 0 (total asks rest))
unfolding after should_exit_immediately
should_exit_immediately-after s [] h = ground arith
should_exit_immediately-after s (a ∷ rest) h =
    ground (arith, flag-access s a h.0, should_exit_immediately-after (access s a) rest h.1)

-- The request counter has counted every request, modulo 2^64, whatever else happened in between.
pub read_request_counter-after :
    (s : SharedMemory) (rest : List Access)
    → All IsPlaced rest
    → read_request_counter s < 2 ^ 64
    → read_request_counter (after s rest) ≡ u64 (read_request_counter s + total counts rest)
unfolding after
read_request_counter-after s [] h f = omega arith
read_request_counter-after s (a ∷ rest) h f =
    ground (arith, counter-access s a h.0, read_request_counter-after (access s a) rest h.1)
