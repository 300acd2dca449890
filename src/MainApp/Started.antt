-- ===== src/MainApp/Started.antt =====
-- The overseer once it has its children, and what becomes of a failing fork.
use blade_psgi.Base.{
  ℕ, zero, suc, ◌+◌, ◌≡◌, refl, ap, ◌∙◌, inr, true, false, none, List, [], ◌∷◌, ◌++◌, length, map,
  arith, All, append_assoc, append-nil, length-map,
}
use blade_psgi.Base.Bytes.{Bytes, codes}
use blade_psgi.Base.Words.{ℤ, minus_one}
use blade_psgi.Base.Outcome.{ok, exited, M}
use blade_psgi.Shmem.{SharedMemory, lock_allocations, should_exit_immediately}
use blade_psgi.MainApp.{MainApp, new_main_app, AuxiliaryProcess}
use blade_psgi.MainApp.Children.{IsPid, IsValid}
use blade_psgi.MainApp.Spawn.{
  Fork, Role, parent, monitoring_child, PerlCalls, spawn_workers_and_auxiliary_processes,
  request_all, spawn_monitoring_process,
}
use blade_psgi.MainApp.Forks.{
  pids, assigned, Forks, forked_positive, Succeeds, spawn_auxiliaries_lem, spawn_workers_lem,
  spawn_workers_fails, All-pids, pids-Differs, Pairs-pids, assigned_name,
}

abbrev pub perl_works : PerlCalls
perl_works = record {
  initialize = none;
  load_wrapper = none;
  load_application = none;
  destroyed = none;
}

abbrev pub unstarted : Bytes → AuxiliaryProcess
unstarted name = record { name = name; pid = minus_one }

request_all_lem :
    (names : List Bytes) (s : MainApp)
    → request_all names s
      ≡ (ok tt, record s { auxiliary_processes = s.auxiliary_processes ++ map unstarted names })
unfolding request_all
request_all_lem [] s = rw (append-nil s.auxiliary_processes) refl
request_all_lem (name ∷ names) s =
    request_all_lem names
      (record s { auxiliary_processes = s.auxiliary_processes ++ unstarted name ∷ [] })
    ∙ rw append_assoc refl

unstarted_pids : (names : List Bytes) → All (λ p. p.pid ≡ minus_one) (map unstarted names)
unstarted_pids [] = tt
unstarted_pids (name ∷ names) = (refl, unstarted_pids names)

module _ (fork : Fork) (names : List Bytes) (n : ℕ) (shmem : SharedMemory) where
  abbrev pub auxiliaries : ℕ
  auxiliaries = length (map unstarted names)

  -- The application with all its children but the monitoring process.
  abbrev pub started : MainApp
  started = record (new_main_app (record shmem { locked = true })) {
    auxiliary_processes = assigned fork 0 (map unstarted names);
    auxiliary_pids = pids fork 0 auxiliaries;
    worker_pids = pids fork auxiliaries n;
  }

  started-IsValid :
      Forks fork
      → IsValid (record started {
        monitoring_process_pid = (fork (auxiliaries + n)).0;
        stats_sockfd_open = false;
      })
  started-IsValid f = record {
    workers = All-pids IsPid fork auxiliaries n (λ j _ _. f.positive j);
    auxiliaries = All-pids IsPid fork 0 auxiliaries (λ j _ _. f.positive j);
    monitoring = inr (f.positive (auxiliaries + n));
    workers_once = Pairs-pids fork auxiliaries n f;
    auxiliaries_once = Pairs-pids fork 0 auxiliaries f;
    apart =
        All-pids _ fork auxiliaries n
          (λ j lo hi. pids-Differs fork j 0 auxiliaries f (inr (omega arith)));
    monitoring_no_worker = pids-Differs fork (auxiliaries + n) auxiliaries n f (inr (omega arith));
    monitoring_no_auxiliary =
        pids-Differs fork (auxiliaries + n) 0 auxiliaries f (inr (omega arith));
    named =
        All-pids _ fork 0 auxiliaries
          (λ j lo hi. assigned_name fork 0 (map unstarted names) j lo hi);
  }

  start_lem :
      Forks fork
      → shmem.locked ≡ false
      → spawn_workers_and_auxiliary_processes fork perl_works names n (new_main_app shmem)
        ≡ (ok parent, started)
  unfolding spawn_workers_and_auxiliary_processes lock_allocations
  start_lem f unlocked =
      let s = record (new_main_app (record shmem { locked = true })) {
        auxiliary_processes = map unstarted names;
      } in
      let t = record s {
        auxiliary_processes = assigned fork 0 (map unstarted names);
        auxiliary_pids = pids fork 0 auxiliaries;
      } in
      rw
        (
          request_all_lem names (new_main_app shmem),
          unlocked,
          spawn_auxiliaries_lem fork 0 [] (map unstarted names) s (λ j _ _. f.positive j)
              (unstarted_pids names),
        )
        (rw (spawn_workers_lem fork auxiliaries n t (λ j _ _. f.positive j)) refl)

length-pids : (fork : Fork) (k n : ℕ) → length (pids fork k n) ≡ n
length-pids fork k zero = refl
length-pids fork k (suc n) = ap suc (length-pids fork (k + 1) n)

module _ (fork : Fork) (names : List Bytes) (n : ℕ) (shmem : SharedMemory) where
  -- When Perl and every fork succeed, the overseer has one process for each of the `n` worker
  -- numbers, one for each auxiliary process that the loader asked for, and the monitoring process;
  -- the segment is as it was, and locked, so that no further allocation is possible; and the tables are valid.
  pub start-IsValid :
      Forks fork
      → shmem.locked ≡ false
      → let t = started fork names n shmem in
        (spawn_workers_and_auxiliary_processes fork perl_works names n (new_main_app shmem)
          ≡ (ok parent, t))
        × (u : MainApp) × (spawn_monitoring_process fork (length t.auxiliary_pids + n) t
            ≡ (ok parent, u))
        × IsValid u
        × (length u.worker_pids ≡ n)
        × (length u.auxiliary_pids ≡ length names)
        × (u.shmem ≡ record shmem { locked = true })
        × (u.stats_sockfd_open ≡ false)
  unfolding spawn_monitoring_process
  start-IsValid f unlocked =
      let k = length (map unstarted names) in
      let u = record (started fork names n shmem) {
        monitoring_process_pid = (fork (k + n)).0;
        stats_sockfd_open = false;
      } in
      let go_on : ℤ → M MainApp Role = λ pid s.
        (ok parent, record s { monitoring_process_pid = pid; stats_sockfd_open = false }) in
      (
        start_lem fork names n shmem f unlocked,
        u,
        rw (length-pids fork 0 k) (
            forked_positive (fork (k + n)) monitoring_child go_on (started fork names n shmem)
              (f.positive (k + n))),
        started-IsValid fork names n shmem f,
        length-pids fork k n,
        length-pids fork 0 k ∙ length-map names unstarted,
        refl,
        refl,
      )

  -- When a call of fork for a worker fails, the overseer ends with status 1 inside the function: it
  -- sends no signal, asks no process to exit and logs nothing, and it writes to stderr the line of the
  -- destructor of the Perl interpreter.
  pub fork_failure :
      (i m : ℕ)
      → n ≡ i + suc m
      → Succeeds fork 0 (length (map unstarted names) + i)
      → (fork (length (map unstarted names) + i)).0 ≡ minus_one
      → shmem.locked ≡ false
      → (t : MainApp) × (spawn_workers_and_auxiliary_processes fork perl_works names n
            (new_main_app shmem)
          ≡ (exited 1, t))
        × (length t.worker_pids ≡ i)
        × (t.killed ≡ [])
        × (t.logged ≡ [])
        × (t.stderr
            ≡ (codes "BPSGIPerlInterpreter destroyed without calling Destroy" ++ 10 ∷ []) ∷ [])
        × (should_exit_immediately t.shmem ≡ should_exit_immediately shmem)
  unfolding spawn_workers_and_auxiliary_processes lock_allocations should_exit_immediately
  fork_failure i m e f failed unlocked =
      let k = length (map unstarted names) in
      let s = record (new_main_app (record shmem { locked = true })) {
        auxiliary_processes = map unstarted names;
      } in
      let t = record s {
        auxiliary_processes = assigned fork 0 (map unstarted names);
        auxiliary_pids = pids fork 0 k;
      } in
      (
        record t {
          worker_pids = pids fork k i;
          stderr = (codes "BPSGIPerlInterpreter destroyed without calling Destroy" ++ 10 ∷ []) ∷ [];
        },
        rw
            (
              request_all_lem names (new_main_app shmem),
              unlocked,
              spawn_auxiliaries_lem fork 0 [] (map unstarted names) s
                  (λ j lo hi. f j (omega arith) (omega arith)) (unstarted_pids names),
              e,
            )
            (rw
              (spawn_workers_fails fork k i m t (λ j lo hi. f j (omega arith) (omega arith)) failed)
              refl),
        length-pids fork k i,
        refl,
        refl,
        refl,
        refl,
      )
