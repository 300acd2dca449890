-- ===== src/Monitoring/Watch.antt =====
-- How the monitoring process watches over the overseer while it serves clients.
use blade_psgi.Base.{
  ℕ, ◌+◌, ◌≤◌, ◌≡◌, refl, sym, ap, subst, ◌∙◌, ◌⊎◌, inl, inr, true, false, List, [], ◌∷◌, ◌++◌,
  append-nil, length, length-append, arith, All, ◌==◌, if◌then◌else◌, Bool-cases,
}
use blade_psgi.Base.Bytes.{Bytes}
use blade_psgi.Base.Words.{ℤ}
use blade_psgi.Base.Outcome.{Outcome, ok, exited, continue}
use blade_psgi.Shmem.PosixSem.{SemLib, IsSem, eintr}
use blade_psgi.Shmem.{SharedMemory, Semaphore, should_exit_immediately, set_should_exit_immediately}
use blade_psgi.Shmem.Accesses.{after}
use blade_psgi.Semaphore.{read}
use blade_psgi.Monitoring.{
  Monitoring, Accepted, client, accept_failed, econnaborted, semaphore_lines, statdata,
  handle_client, Polled, timed_out, ready, select_failed, unexpected, Round, orphaned, poll,
  watch_round, run,
}

-- A round in which select and accept do not fail for another reason than a signal or a client that
-- went away.
abbrev pub IsHarmless : Polled → Accepted → Type 0
IsHarmless timed_out a = Unit
IsHarmless ready client = Unit
IsHarmless ready (accept_failed errno) = (errno ≡ eintr) ⊎ (errno ≡ econnaborted)
IsHarmless (select_failed errno) a = errno ≡ eintr
IsHarmless unexpected a = ⊥

-- The pages that a round writes.
abbrev pub pages : Polled → Accepted → ℕ
pages ready client = 1
pages _ _ = 0

abbrev pub all_pages : List Round → ℕ
all_pages [] = 0
all_pages (r ∷ rs) = pages r.polled r.accepted + all_pages rs

-- The segment behind the rounds, if the monitoring process does not change it.
abbrev pub segment_after : SharedMemory → List Round → SharedMemory
segment_after s [] = s
segment_after s (r ∷ rs) = segment_after (after s r.accesses) rs

abbrev pub IsReadable : SemLib → SharedMemory → Type 0
IsReadable lib s = All (λ x. (v : ℕ) × IsSem lib s.segment x.sem v) s.semaphores

-- Rounds in which the overseer lives, nothing fails, and the semaphores can be read.
abbrev pub IsCalm : SemLib → SharedMemory → List Round → Type 0
IsCalm lib s [] = Unit
IsCalm lib s (r ∷ rs) =
    let t = after s r.accesses in
    (r.runner_died ≡ false) × IsHarmless r.polled r.accepted × IsReadable lib t × IsCalm lib t rs

semaphore_lines-ok :
    (lib : SemLib) (s : SharedMemory) (xs : List Semaphore)
    → All (λ x. (v : ℕ) × IsSem lib s.segment x.sem v) xs
    → (text : Bytes) × (semaphore_lines lib xs s ≡ (ok text, s))
unfolding semaphore_lines read
semaphore_lines-ok lib s [] h = ([], refl)
semaphore_lines-ok lib s (x ∷ xs) h =
    let (text, e) = semaphore_lines-ok lib s xs h.1 in rw (h.0.1, e) (_, refl)

-- What a round does that goes on.
record GoesOn (s : SharedMemory) (n : ℕ) (m : Monitoring) (r : Outcome (Unit {0}) × Monitoring)
    : Type 0 where
  status : r.0 ≡ ok tt
  same : r.1.shmem ≡ s
  served : length r.1.written ≡ length m.written + n
  silent : r.1.logged ≡ m.logged

-- The process has ended because the overseer is dead: `n` pages are written, and the segment was
-- `last` before the exit flag was raised.
pub record LeavesOrphaned (last : SharedMemory) (n : ℕ) (logs : List Bytes)
    (r : Outcome (Unit {0}) × Monitoring) : Type 0 where
  pub status : r.0 ≡ exited 1
  pub flagged : should_exit_immediately r.1.shmem ≡ true
  pub served : length r.1.written ≡ n
  pub reason : r.1.logged ≡ logs ++ (if should_exit_immediately last then [] else orphaned ∷ [])

module _ (lib : SemLib) (nworkers : ℕ) (start_time : ℤ) where
  poll-GoesOn :
      (p : Polled) (a : Accepted) (m : Monitoring)
      → IsHarmless p a
      → IsReadable lib m.shmem
      → GoesOn m.shmem (pages p a) m (poll lib nworkers start_time p a m)
  unfolding poll handle_client statdata
  poll-GoesOn timed_out a m h x = record {
    status = refl;
    same = refl;
    served = omega arith;
    silent = refl;
  }
  poll-GoesOn (select_failed errno) a m h x =
      rw h (record { status = refl; same = refl; served = omega arith; silent = refl })
  poll-GoesOn ready (accept_failed errno) m (inl h) x =
      rw h (record { status = refl; same = refl; served = omega arith; silent = refl })
  poll-GoesOn ready (accept_failed errno) m (inr h) x =
      rw h (record { status = refl; same = refl; served = omega arith; silent = refl })
  poll-GoesOn ready client m h x =
      let (text, e) = semaphore_lines-ok lib m.shmem m.shmem.semaphores x in
      rw e
        (record { status = refl; same = refl; served = length-append m.written _; silent = refl })
  poll-GoesOn unexpected a m h x = absurd h

  run-calm :
      (rs : List Round) (m : Monitoring)
      → IsCalm lib m.shmem rs
      → (t : Monitoring) × ((qs : List Round)
          → run lib nworkers start_time (rs ++ qs) m ≡ run lib nworkers start_time qs t)
        × (t.shmem ≡ segment_after m.shmem rs)
        × (length t.written ≡ length m.written + all_pages rs)
        × (t.logged ≡ m.logged)
  unfolding run watch_round
  run-calm [] m h = (m, λ qs. refl, refl, omega arith, refl)
  run-calm (r ∷ rs) m h =
      let now = record m { shmem = after m.shmem r.accesses } in
      let g : GoesOn now.shmem (pages r.polled r.accepted) now
          (poll lib nworkers start_time r.polled r.accepted now) =
        poll-GoesOn r.polled r.accepted now h.1 h.2 in
      let next = (poll lib nworkers start_time r.polled r.accepted now).1 in
      let (t, e, s, w, l) = run-calm rs next (subst (λ x. IsCalm lib x rs) (sym g.same) h.3) in
      (
        t,
        λ qs. rw h.0 (
            after_ok (poll lib nworkers start_time r.polled r.accepted now)
              (run lib nworkers start_time (rs ++ qs)) g.status
            ∙ e qs),
        s ∙ ap (λ x. segment_after x rs) g.same,
        omega (arith, w, g.served),
        l ∙ g.silent,
      )
    where
      after_ok :
          (p : Outcome (Unit {0}) × Monitoring) (f : Monitoring → Outcome (Unit {0}) × Monitoring)
          → p.0 ≡ ok tt
          → continue p (λ u. f) ≡ f p.1
      after_ok (o, n) f e = rw e refl

  orphaned_now :
      (d : Round) (rest : List Round) (t : Monitoring)
      → d.runner_died ≡ true
      → (after t.shmem d.accesses).segment 0 ≤ 1
      → LeavesOrphaned
          (after t.shmem d.accesses)
          (length t.written)
          t.logged
          (run lib nworkers start_time (d ∷ rest) t)
  unfolding run watch_round set_should_exit_immediately should_exit_immediately
  orphaned_now d rest t dead flag = elim (Bool-cases ((after t.shmem d.accesses).segment 0 == 0)) [
    | inl e ↦
        rw (dead, e)
          (record { status = refl; flagged = refl; served = refl; reason = ground arith })
    | inr e ↦
        rw (dead, e)
          (record {
            status = refl;
            flagged = refl;
            served = refl;
            reason = ground (arith, append-nil t.logged);
          })
  ]

  -- In any number of rounds in which the overseer lives, nothing fails and the semaphores can be
  -- read, the monitoring process goes on, and leaves the segment to the other processes and the log
  -- alone. In the first round in which the overseer is dead it ends with status 1, with the exit
  -- flag raised, and with a line in the log unless the flag was raised before; by then it has
  -- written one page for each client.
  pub run-LeavesOrphaned :
      (rs : List Round) (d : Round) (rest : List Round) (m : Monitoring)
      → IsCalm lib m.shmem rs
      → d.runner_died ≡ true
      → (after (segment_after m.shmem rs) d.accesses).segment 0 ≤ 1
      → LeavesOrphaned
          (after (segment_after m.shmem rs) d.accesses)
          (length m.written + all_pages rs)
          m.logged
          (run lib nworkers start_time (rs ++ d ∷ rest) m)
  run-LeavesOrphaned rs d rest m h dead flag =
      let (t, e, s, w, l) = run-calm rs m h in
      let now =
        orphaned_now d rest t dead (subst (λ x. (after x d.accesses).segment 0 ≤ 1) (sym s) flag) in
      rw (e (d ∷ rest)) (rw (s, w, l) at now)
