-- ===== src/Worker/Serving.antt =====
-- How long a worker serves, and what it counts.
use blade_psgi.Base.{
  ℕ, ◌+◌, ◌^◌, ◌<◌, ◌≡◌, refl, ◌∙◌, ap, true, false, ◌||◌, Option, none, some, List, [], ◌∷◌, arith,
  All, ltb, Bool-cases, Option-cases, inl, inr, if◌then◌else◌,
}
use blade_psgi.Base.Bytes.{Bytes}
use blade_psgi.Base.Words.{u64}
use blade_psgi.Base.Outcome.{Outcome, ok, exited}
use blade_psgi.Shmem.{should_exit_immediately, read_request_counter}
use blade_psgi.Shmem.Accesses.{
  should_exit_immediately-after, read_request_counter-after, IsPlaced, total, asks, counts, after,
  access, report_status, count_request,
}
use blade_psgi.Worker.{Worker, Call, run, main_loop_iteration, sigterm_handler, leave}

-- The exit status of a worker, and the requests counted by then by all processes: it ends with 1 at
-- the first request that dies in Perl or during which an immediate exit was asked for, and with 0
-- at the first during which SIGTERM came; the request that it is serving is finished and counted,
-- unless it died.
abbrev pub verdict : List Call → Option (ℕ × ℕ)
verdict [] = none
verdict (c ∷ cs) =
    let others = total counts c.accesses in
    let rest = verdict cs in
    elim c.error [
      | some m ↦ some (1, others)
      | none ↦
          if ltb 0 (total asks c.accesses)
          then some (1, others + 1)
          else if c.sigterm
          then some (0, others + 1)
          else elim rest [ none ↦ none | some r ↦ some (r.0, others + 1 + r.1) ]
    ]

-- The worker has to end like that; `none` is a worker that waits for its next request.
abbrev pub Ends : Worker → Option (ℕ × ℕ) → Option (Outcome (Unit {0}) × Worker) → Type 0
Ends w none r = r ≡ none
Ends w (some (code, k)) r =
    (t : Worker) × (r ≡ some (exited code, t))
    × (read_request_counter t.shmem ≡ u64 (read_request_counter w.shmem + k))

-- The worker after a request that it has served.
abbrev next : Call → Worker → Worker
next c w =
    let s = after (access w.shmem (report_status w.workerno b'_')) c.accesses in
    record w { shmem = access s count_request; terminated = c.sigterm || w.terminated }

leave_now :
    (c : Call) (w : Worker) (n : ℕ)
    → leave w ≡ (exited n, w)
    → main_loop_iteration c w ≡ (exited n, w)
unfolding main_loop_iteration
leave_now c w n e = rw e refl

run-leave :
    (cs : List Call) (w : Worker) (n : ℕ) → leave w ≡ (exited n, w) → run cs w ≡ some (exited n, w)
unfolding run
run-leave [] w n e = rw e refl
run-leave (c ∷ cs) w n e = rw (leave_now c w n e) refl

stay :
    (w : Worker)
    → should_exit_immediately w.shmem ≡ false
    → w.terminated ≡ false
    → leave w ≡ (ok tt, w)
stay w f t = rw (f, t) refl

run-served :
    (c : Call) (cs : List Call) (w : Worker)
    → should_exit_immediately w.shmem ≡ false
    → w.terminated ≡ false
    → c.error ≡ none
    → run (c ∷ cs) w ≡ run cs (next c w)
unfolding run main_loop_iteration sigterm_handler access
run-served c cs w f t e = elim (Bool-cases c.sigterm) [
  | inl s ↦ rw (stay w f t, e, s) refl
  | inr s ↦ rw (stay w f t, e, s) refl
]

run-died :
    (c : Call) (cs : List Call) (w : Worker) (m : Bytes)
    → should_exit_immediately w.shmem ≡ false
    → w.terminated ≡ false
    → c.error ≡ some m
    → (t : Worker) × (run (c ∷ cs) w ≡ some (exited 1, t))
      × (t.shmem ≡ after (access w.shmem (report_status w.workerno b'_')) c.accesses)
unfolding run main_loop_iteration sigterm_handler access
run-died c cs w m f t e = elim (Bool-cases c.sigterm) [
  | inl s ↦ rw (stay w f t, e, s) (_, refl, refl)
  | inr s ↦ rw (stay w f t, e, s) (_, refl, refl)
]

flag-next :
    (c : Call) (w : Worker)
    → All IsPlaced c.accesses
    → should_exit_immediately w.shmem ≡ false
    → should_exit_immediately (next c w).shmem ≡ ltb 0 (total asks c.accesses)
unfolding after
flag-next c w h f =
    let s = access w.shmem (report_status w.workerno b'_') in
    let before =
      should_exit_immediately-after w.shmem (report_status w.workerno b'_' ∷ []) (tt, tt) in
    let during = should_exit_immediately-after s c.accesses h in
    let last = should_exit_immediately-after (after s c.accesses) (count_request ∷ []) (tt, tt) in
    ground (arith, before, during, last, f)

counter-died :
    (c : Call) (w : Worker)
    → All IsPlaced c.accesses
    → read_request_counter w.shmem < 2 ^ 64
    → read_request_counter (after (access w.shmem (report_status w.workerno b'_')) c.accesses)
      ≡ u64 (read_request_counter w.shmem + total counts c.accesses)
unfolding after
counter-died c w h b =
    let all =
      read_request_counter-after w.shmem (report_status w.workerno b'_' ∷ c.accesses) (tt, h) b in
    omega (arith, all)

counter-next :
    (c : Call) (w : Worker)
    → All IsPlaced c.accesses
    → read_request_counter w.shmem < 2 ^ 64
    → read_request_counter (next c w).shmem
      ≡ u64 (read_request_counter w.shmem + (total counts c.accesses + 1))
unfolding after
counter-next c w h b =
    let s = after (access w.shmem (report_status w.workerno b'_')) c.accesses in
    let before = counter-died c w h b in
    let last = read_request_counter-after s (count_request ∷ []) (tt, tt) (omega (arith, before)) in
    omega (arith, before, last)

-- A worker that stops, and one that goes on.
Ends-now :
    (cs : List Call) (v w : Worker) (n k : ℕ)
    → leave v ≡ (exited n, v)
    → read_request_counter v.shmem ≡ u64 (read_request_counter w.shmem + k)
    → Ends w (some (n, k)) (run cs v)
Ends-now cs v w n k e h = (v, run-leave cs v n e, h)

Ends-later :
    (v w : Worker) (k : ℕ) (r : Option (ℕ × ℕ)) (o : Option (Outcome (Unit {0}) × Worker))
    → read_request_counter v.shmem ≡ u64 (read_request_counter w.shmem + k)
    → Ends v r o
    → Ends w (elim r [ none ↦ none | some q ↦ some (q.0, k + q.1) ]) o
Ends-later v w k none o h e = e
Ends-later v w k (some (n, j)) o h (t, e, i) = (t, e, omega arith)

idle : (w : Worker) → leave w ≡ (ok tt, w) → run [] w ≡ none
unfolding run
idle w e = rw e refl

quit_flag : (v : Worker) → should_exit_immediately v.shmem ≡ true → leave v ≡ (exited 1, v)
quit_flag v f = rw f refl

quit_term :
    (v : Worker)
    → should_exit_immediately v.shmem ≡ false
    → v.terminated ≡ true
    → leave v ≡ (exited 0, v)
quit_term v f t = rw (f, t) refl

-- A worker that starts to serve while no immediate exit is asked for ends, for any requests, with
-- the exit status and at the request that `verdict` names, and not before; the request counter,
-- which all processes share, has by then every request that was served, modulo 2^64.
pub run-Ends :
    (cs : List Call) (w : Worker)
    → All (λ c. All IsPlaced c.accesses) cs
    → should_exit_immediately w.shmem ≡ false
    → w.terminated ≡ false
    → read_request_counter w.shmem < 2 ^ 64
    → Ends w (verdict cs) (run cs w)
run-Ends [] w h f t b = idle w (stay w f t)
run-Ends (c ∷ cs) w h f t b = elim (Option-cases c.error) [
  | inr (m, e) ↦
      let (v, r, s) = run-died c cs w m f t e in rw (r, e) (v, refl, rw s (counter-died c w h.0 b))
  | inl e ↦
      let v = next c w in
      let served = run-served c cs w f t e in
      let flag = flag-next c w h.0 f in
      let counted = counter-next c w h.0 b in
      elim (Bool-cases (ltb 0 (total asks c.accesses))) [
        | inl q ↦ rw (served, e, q) (Ends-now cs v w 1 _ (quit_flag v (flag ∙ q)) counted)
        | inr q ↦ elim (Bool-cases c.sigterm) [
          | inl s ↦
              let stopped = quit_term v (flag ∙ q) (ap (λ x. x || w.terminated) s) in
              let named : verdict (c ∷ cs) ≡ some (0, total counts c.accesses + 1) =
                rw (e, q, s) refl in
              rw (served, named) (Ends-now cs v w 0 _ stopped counted)
          | inr s ↦
              let running = ap (λ x. x || w.terminated) s ∙ t in
              let later = run-Ends cs v h.1 (flag ∙ q) running (omega (arith, counted)) in
              let named : verdict (c ∷ cs) ≡ elim (verdict cs) [
                | none ↦ none
                | some r ↦ some (r.0, total counts c.accesses + 1 + r.1)
              ] =
                rw (e, q, s) refl in
              rw (served, named) (Ends-later v w _ (verdict cs) _ counted later)
        ]
      ]
]
