-- ===== src/Run/Children.antt =====
-- The overseer when it has its children.
use blade_psgi.Base.{
  ℕ, ◌+◌, ◌^◌, ◌≤◌, ◌≡◌, refl, sym, ap, subst, ◌∙◌, ◌⊎◌, inl, inr, true, false, none, some, List,
  [], ◌∷◌, length, arith,
}
use blade_psgi.Base.Bytes.{Bytes}
use blade_psgi.Base.Outcome.{Exn, Outcome, ok, throw, aborted}
use blade_psgi.Shmem.{SharedMemory, new_shared_memory}
use blade_psgi.Shmem.PosixSem.{SemLib}
use blade_psgi.Shmem.Requests.{
  Request, semaphore, atomic, run, step, new_semaphore_cases, new_atomic_int64_cases,
}
use blade_psgi.Shmem.Layout.{IsLaidOut, step-IsLaidOut, init-IsLaidOut, run-init-IsLaidOut}
use blade_psgi.MainApp.{MainApp, new_main_app}
use blade_psgi.MainApp.Children.{IsValid}
use blade_psgi.MainApp.Spawn.{Fork, Role, parent}
use blade_psgi.MainApp.Forks.{Forks}
use blade_psgi.MainApp.Started.{perl_works, started, start-IsValid}
use blade_psgi.Startup.{UnixLib, UnixLaws, Setup, Paths, prepare, map_failed}
use blade_psgi.Startup.Prepared.{IsPrepared, Prepares, EndsOnce, prepare-Prepares}
use blade_psgi.Startup.SocketFile.{IsHandled}
use blade_psgi.Run.{Loader, Running, start_children, with_segment, prepared, run_start}

step_unlocked :
    (lib : SemLib) (calls : ℕ) (s : SharedMemory) (r : Request)
    → lib.sizeof_sem ≤ 1024
    → calls ≤ 2 ^ 50
    → IsLaidOut lib.sizeof_sem calls s
    → s.locked ≡ false
    → (step lib s r).locked ≡ false
step_unlocked lib calls s (semaphore name value) small few v e =
    new_semaphore_cases lib (λ t. t.locked ≡ false) s name value (omega (arith, v.few)) e
      (λ _ _ _. e) (λ _ _ _ _ _ _ _. e) (λ _ _ _ _ _ _ _. e)
step_unlocked lib calls s (atomic name value) small few v e =
    new_atomic_int64_cases (λ t. t.locked ≡ false) s name value (omega (arith, v.few)) e
      (λ _ _ _. e) (λ _ _ _ _. e)

run_unlocked :
    (lib : SemLib) (calls : ℕ) (s : SharedMemory) (rs : List Request)
    → lib.sizeof_sem ≤ 1024
    → calls + length rs ≤ 2 ^ 50
    → IsLaidOut lib.sizeof_sem calls s
    → s.locked ≡ false
    → (run lib s rs).locked ≡ false
unfolding run
run_unlocked lib calls s [] small few v e = e
run_unlocked lib calls s (r ∷ rs) small few v e =
    run_unlocked lib (calls + 1) (step lib s r) rs small (omega arith)
      (step-IsLaidOut lib calls s r small (omega arith) v)
      (step_unlocked lib calls s r small (omega arith) v e)

locked-IsLaidOut :
    {size calls : ℕ} {s : SharedMemory} (v : IsLaidOut size calls s)
    → IsLaidOut size calls (record s { locked = true })
locked-IsLaidOut v = record {
  aligned = v.aligned;
  above = v.above;
  few = v.few;
  semaphores_fit = v.semaphores_fit;
  atomics_fit = v.atomics_fit;
  semaphores_apart = v.semaphores_apart;
  atomics_apart = v.atomics_apart;
  kinds_apart = v.kinds_apart;
}

abbrev pub loads : List Request → List Bytes → Loader
loads requests names = record { perl = perl_works; requests = requests; auxiliaries = names }

-- The overseer has valid tables of `n` workers and the auxiliary processes that were asked for, and a
-- segment that is laid out and locked.
pub record IsStarted (size calls n : ℕ) (names : List Bytes) (u : MainApp) : Type 0 where
  pub valid : IsValid u
  pub workers : length u.worker_pids ≡ n
  pub auxiliaries : length u.auxiliary_pids ≡ length names
  pub laid_out : IsLaidOut size calls u.shmem
  pub locked : u.shmem.locked ≡ true
  pub stats_closed : u.stats_sockfd_open ≡ false

module _ {S : Type 0} (lib : UnixLib S) (paths : Paths) where
  -- Started; or ended in the preparation, before any fork.
  abbrev pub Starts : ℕ → ℕ → ℕ → List Bytes → Outcome Role × Running S → Type 0
  Starts size calls n names (r, (t, o)) =
      ((r ≡ ok parent)
        × IsPrepared lib paths t
        × (u : MainApp) × (o ≡ some u)
        × IsStarted size calls n names u)
      ⊎ ((o ≡ none)
          × (((e : Exn) × (r ≡ throw e) × IsHandled e × EndsOnce lib paths t)
              ⊎ ((r ≡ aborted) × (u : S) × ((lib.mmap 4096 u).0 ≡ map_failed))))

  Prepares-cases :
      (x : Outcome (Unit {0}) × Setup S)
      → Prepares lib paths x
      → ((t : Setup S) × (x ≡ (ok tt, t)) × IsPrepared lib paths t)
        ⊎ (((t : Setup S) × (e : Exn) × (x ≡ (throw e, t)) × IsHandled e × EndsOnce lib paths t)
            ⊎ ((t : Setup S) × (x ≡ (aborted, t)) × (u : S) × ((lib.mmap 4096 u).0 ≡ map_failed)))
  Prepares-cases (r, t) (inl (e, p)) = inl (t, ap (λ o. (o, t)) e, p)
  Prepares-cases (r, t) (inr (inl (err, e, h, once))) =
      inr (inl (t, err, ap (λ o. (o, t)) e, h, once))
  Prepares-cases (r, t) (inr (inr (e, u, m))) = inr (inr (t, ap (λ o. (o, t)) e, u, m))

  started_lem :
      (semaphores : SemLib) (fork : Fork) (requests : List Request) (names : List Bytes) (n : ℕ)
      → Forks fork
      → semaphores.sizeof_sem ≤ 1024
      → length requests ≤ 2 ^ 50
      → let m = run semaphores (new_shared_memory (λ p. 0) 4096) requests in
        (u : MainApp) × (start_children fork (loads requests names) n (new_main_app m)
          ≡ (ok parent, u))
        × IsStarted semaphores.sizeof_sem (length requests) n names u
  unfolding start_children new_shared_memory
  started_lem semaphores fork requests names n forks small few =
      let m = run semaphores (new_shared_memory (λ p. 0) 4096) requests in
      let unlocked : m.locked ≡ false =
        run_unlocked semaphores 0 (new_shared_memory (λ p. 0) 4096) requests small (omega arith)
          (init-IsLaidOut _ (λ p. 0) 4096) refl in
      let (a, u, b, valid, workers, auxiliaries, shmem, stats) =
        start-IsValid fork names n m forks unlocked in
      (
        u,
        rw (a, b) refl,
        record {
          valid = valid;
          workers = workers;
          auxiliaries = auxiliaries;
          laid_out =
              subst (IsLaidOut semaphores.sizeof_sem (length requests)) (sym shmem)
                (locked-IsLaidOut (run-init-IsLaidOut semaphores (λ p. 0) 4096 requests small few));
          locked = ap (λ s. s.locked) shmem;
          stats_closed = stats;
        },
      )

  -- Whatever the system calls of the preparation return, where Perl and every fork succeed and the
  -- loader makes at most 2^50 requests, for semaphores of at most 1024 bytes, and there was no
  -- segment before: the overseer is prepared before the first fork, with a self-pipe of two different
  -- ends that do not block, a new segment, and two different sockets that are bound to the two paths,
  -- cut to 107 bytes, and listen; then it has started each worker, each auxiliary process and the
  -- monitoring process, has closed its own descriptor of the statistics socket, and has valid tables
  -- and a segment that is laid out and locked. Or it has ended in the preparation, before any
  -- child was started, by an exception that `main` handles, logging its text once and ending with
  -- status 1, or by the fault of a failed mapping.
  pub run_start-Starts :
      (semaphores : SemLib) (strerror : ℕ → Bytes) (fork : Fork) (requests : List Request)
      (names : List Bytes) (n : ℕ) (s : Setup S)
      → UnixLaws lib
      → Forks fork
      → semaphores.sizeof_sem ≤ 1024
      → length requests ≤ 2 ^ 50
      → s.shmem ≡ none
      → Starts semaphores.sizeof_sem
          (length requests)
          n
          names
          (run_start lib semaphores strerror paths fork (loads requests names) n s)
  unfolding run_start
  run_start-Starts semaphores strerror fork requests names n s laws forks small few h =
      elim (Prepares-cases (prepare lib strerror paths s)
        (prepare-Prepares lib paths strerror s laws h)) [
          | inr (inl (t, err, e, handled, once)) ↦ rw e (inr (refl, inl (err, refl, handled, once)))
          | inr (inr (t, e, u, m)) ↦ rw e (inr (refl, inr (refl, u, m)))
          | inl (t, e, p) ↦
              let (u, q, started) = started_lem semaphores fork requests names n forks small few in
              let load = loads requests names in
              let runs : run_start lib semaphores strerror paths fork load n s
                  ≡ (ok parent, (t, some u)) =
                ap (prepared lib semaphores strerror fork load n) e
                ∙ ap (with_segment lib semaphores strerror fork load n t) p.segment
                ∙ ap (λ r. (r.0, (t, some r.1))) q in
              rw runs (inl (refl, p, u, refl, started))
        ]
