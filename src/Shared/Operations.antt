-- ===== src/Shared/Operations.antt =====
-- Each operation on the bytes does what is promised of the objects that the bytes hold.
use mathlib.Core.Path.{fun_ext}
use blade_psgi.Base.{
  ℕ, zero, suc, ◌+◌, ◌^◌, ◌<◌, ◌≡◌, refl, sym, ap, subst, ◌∙◌, inl, inr, true, false, Option, none,
  some, arith, get_elem?, ltb, Bool-cases,
}
use blade_psgi.Base.Words.{ℤ, u64, pattern64, pattern64-lt}
use blade_psgi.Base.Outcome.{Outcome}
use blade_psgi.Shmem.Memory.{Mem, set_byte, store, store_outside, load, load_cong, load-store_self}
use blade_psgi.Shmem.PosixSem.{SemLib, SemLaws, sem_value_max}
use blade_psgi.Shmem.Layout.{IsLaidOut}
use blade_psgi.Shmem.{
  SharedMemory, Semaphore, AtomicInt64, set_should_exit_immediately, should_exit_immediately,
  increase_request_counter, read_request_counter, set_worker_status, get_worker_status,
}
use blade_psgi.Semaphore.{release}
use blade_psgi.Semaphore.Counter.{
  Agrees, acquire_counter, try_acquire_counter, release_counter, acquire-Agrees, try_acquire-Agrees,
  release-Agrees,
}
use blade_psgi.PerlBridge.{cb_atomic_int64_load, cb_atomic_int64_store}
use blade_psgi.Shared.{
  Operation, acquires, tries, releases, adds, loads, stores, reports, looks_at_worker, counts,
  reads_counter, asks_exit, looks_at_exit, Reply, waits, returned, failed, answer, value, of_unit,
  of_bool, unless_waiting, at, perform, Objects, update, at_semaphore, at_integer, take_one,
  promised,
}
use blade_psgi.Shared.Holds.{
  Holds, IsOperation, semaphore-Holds, integer-Holds, others-Holds, updated,
}

-- What an operation on a counter makes of the objects, with the counter as the semaphore at `i`.
abbrev counter_result :
    {A : Type 0} → Objects → ℕ → (Outcome A → Reply) → Option (Outcome A × ℕ) → Reply × Objects
counter_result a i reply none = (waits, a)
counter_result a i reply (some (o, w)) = (reply o, at_semaphore a i w)

at_semaphore_id : (a : Objects) (i w : ℕ) → a.semaphore i ≡ w → at_semaphore a i w ≡ a
at_semaphore_id a i w e =
    ap (λ f. record a { semaphore = f })
      (fun_ext (updated (λ j v. v ≡ a.semaphore j) a.semaphore i w (sym e) (λ j _. refl)))

acquire_counter-promised :
    (a : Objects) (i w : ℕ)
    → counter_result a i of_unit (acquire_counter w) ≡ take_one a i returned waits w
acquire_counter-promised a i zero = refl
acquire_counter-promised a i (suc w) = refl

try_acquire_counter-promised :
    (a : Objects) (i w : ℕ)
    → a.semaphore i ≡ w
    → counter_result a i of_bool (try_acquire_counter w)
      ≡ take_one a i (answer true) (answer false) w
try_acquire_counter-promised a i zero e = ap (λ a. (answer false, a)) (at_semaphore_id a i 0 e)
try_acquire_counter-promised a i (suc w) e = refl

release_counter-promised :
    (a : Objects) (i : ℕ) (x : Semaphore)
    → counter_result a i of_unit (some (release_counter (a.semaphore i)))
      ≡ promised a (releases i x)
unfolding promised
release_counter-promised a i x = elim (Bool-cases (ltb (a.semaphore i) sem_value_max)) [
  | inl e ↦ rw e (ap (λ w. (returned, at_semaphore a i w)) (omega arith))
  | inr e ↦ rw e (ap (λ a. (failed, a)) (at_semaphore_id a i _ refl))
]

module _ (lib : SemLib) (laws : SemLaws lib) (base : SharedMemory) {calls : ℕ}
    (v : IsLaidOut lib.sizeof_sem calls base) where
  -- The reply is the one that is promised, and the bytes hold the objects that are.
  abbrev Answers : Reply × Mem → Reply × Objects → Type 0
  Answers r p = (r.0 ≡ p.0) × Holds lib base r.1 p.1

  abbrev pub Refined : Mem → Objects → Operation → Type 0
  Refined m a op = Answers (perform lib base m op) (promised a op)

  module _ (m : Mem) (a : Objects) (h : Holds lib base m a) where
    Agrees-Answers :
        {A : Type 0} (i : ℕ) (x : Semaphore) (reply : Outcome A → Reply)
        (r : Option (Outcome A × SharedMemory)) (c : Option (Outcome A × ℕ))
        → get_elem? base.semaphores i ≡ some x
        → Agrees lib x (at base m) r c
        → Answers (unless_waiting reply m r) (counter_result a i reply c)
    Agrees-Answers i x reply none none e g = (refl, h)
    Agrees-Answers i x reply none (some c) e g = absurd g
    Agrees-Answers i x reply (some r) none e g = absurd g
    Agrees-Answers i x reply (some (o, t)) (some (o', w)) e g =
        (ap reply g.0, semaphore-Holds lib laws base v m t.segment a h i x w e g.2 g.3)

    acquires-Refined :
        (i : ℕ) (x : Semaphore) (n : ℕ)
        → get_elem? base.semaphores i ≡ some x
        → Refined m a (acquires i x n)
    unfolding perform promised
    acquires-Refined i x n e =
        subst (Answers (perform lib base m (acquires i x n)))
          (acquire_counter-promised a i (a.semaphore i))
          (Agrees-Answers i x of_unit _ _ e
            (acquire-Agrees lib laws x n (a.semaphore i) (at base m) (h.semaphores i x e)))

    tries-Refined :
        (i : ℕ) (x : Semaphore) (n : ℕ)
        → get_elem? base.semaphores i ≡ some x
        → Refined m a (tries i x n)
    unfolding perform promised
    tries-Refined i x n e =
        subst (Answers (perform lib base m (tries i x n)))
          (try_acquire_counter-promised a i (a.semaphore i) refl)
          (Agrees-Answers i x of_bool _ _ e
            (try_acquire-Agrees lib laws x n (a.semaphore i) (at base m) (h.semaphores i x e)))

    releases-Refined :
        (i : ℕ) (x : Semaphore) → get_elem? base.semaphores i ≡ some x → Refined m a (releases i x)
    unfolding perform
    releases-Refined i x e =
        subst (Answers (perform lib base m (releases i x))) (release_counter-promised a i x) (
          Agrees-Answers i x of_unit (some (release lib x (at base m)))
            (some (release_counter (a.semaphore i))) e
            (release-Agrees lib laws x (a.semaphore i) (at base m) (h.semaphores i x e)))

    stored-Holds :
        (i : ℕ) (b : AtomicInt64) (w : ℕ)
        → w < 256 ^ 8
        → get_elem? base.atomics i ≡ some b
        → Holds lib base (store 8 m b.ptr w) (at_integer a i w)
    stored-Holds i b w lt e =
        integer-Holds lib laws base v m _ a h i b w e (load-store_self 8 m b.ptr w lt)
          (store_outside 8 m b.ptr w)

    adds-Refined :
        (i : ℕ) (b : AtomicInt64) (z : ℤ)
        → get_elem? base.atomics i ≡ some b
        → Refined m a (adds i b z)
    unfolding perform promised
    adds-Refined i b z e =
        let old = h.integers i b e in
        (
          ap value old,
          subst
              (λ w.
                Holds lib base (store 8 m b.ptr (u64 (w + pattern64 z)))
                  (at_integer a i (u64 (a.integer i + pattern64 z))))
              (sym old) (stored-Holds i b (u64 (a.integer i + pattern64 z)) (omega arith) e),
        )

    reports-Refined : (w b : ℕ) → Refined m a (reports w b)
    unfolding perform promised set_worker_status
    reports-Refined w b = (
      refl,
      others-Holds lib laws base v m (set_byte m (2048 + w) b) a h (2048 + w) 1
          (update a.status w b) a.requests a.exit_asked (λ q out. ground arith) (inr (omega arith))
          (λ k.
            updated (λ k s. set_byte m (2048 + w) b (2048 + k) ≡ s) a.status w b (ground arith)
              (λ k ne. ground (arith, h.statuses k)) k)
          (load_cong 8 (set_byte m (2048 + w) b) m 8 (λ q lo hi. ground arith) ∙ h.counter)
          (ground (arith, h.flag)),
    )

    counts-Refined : Refined m a counts
    unfolding perform promised increase_request_counter
    counts-Refined =
        let m' = store 8 m 8 (u64 (load 8 m 8 + 1)) in
        (
          ap value h.counter,
          others-Holds lib laws base v m m' a h 8 8 a.status (u64 (a.requests + 1)) a.exit_asked
              (store_outside 8 m 8 (u64 (load 8 m 8 + 1))) (inl (omega arith))
              (λ k. store_outside 8 m 8 _ (2048 + k) (inr (omega arith)) ∙ h.statuses k)
              (load-store_self 8 m 8 (u64 (load 8 m 8 + 1)) (omega arith)
                ∙ ap (λ n. u64 (n + 1)) h.counter)
              (store_outside 8 m 8 _ 0 (inl (omega arith)) ∙ h.flag),
        )

    asks_exit-Refined : Refined m a asks_exit
    unfolding perform promised set_should_exit_immediately
    asks_exit-Refined = (
      ap answer (elim (Bool-cases a.exit_asked) [
        | inl e ↦ ground (arith, h.flag)
        | inr e ↦ ground (arith, h.flag)
      ]),
      others-Holds lib laws base v m (set_byte m 0 1) a h 0 1 a.status a.requests true
          (λ q out. ground arith) (inl (omega arith)) (λ k. ground (arith, h.statuses k))
          (load_cong 8 (set_byte m 0 1) m 8 (λ q lo hi. ground arith) ∙ h.counter) refl,
    )

    looks_at_exit-Refined : Refined m a looks_at_exit
    unfolding perform promised should_exit_immediately
    looks_at_exit-Refined = (
      ap answer (elim (Bool-cases a.exit_asked) [
        | inl e ↦ ground (arith, h.flag)
        | inr e ↦ ground (arith, h.flag)
      ]),
      h,
    )

    pub operation-Refined : (op : Operation) → IsOperation base op → Refined m a op
    unfolding perform promised cb_atomic_int64_load cb_atomic_int64_store get_worker_status
        read_request_counter
    operation-Refined (acquires i x n) e = acquires-Refined i x n e
    operation-Refined (tries i x n) e = tries-Refined i x n e
    operation-Refined (releases i x) e = releases-Refined i x e
    operation-Refined (adds i b z) e = adds-Refined i b z e
    operation-Refined (loads i b) e = (ap value (h.integers i b e), h)
    operation-Refined (stores i b z) e = (refl, stored-Holds i b (pattern64 z) (pattern64-lt z) e)
    operation-Refined (reports w b) e = reports-Refined w b
    operation-Refined (looks_at_worker w) e = (ap value (h.statuses w), h)
    operation-Refined counts e = counts-Refined
    operation-Refined reads_counter e = (ap value h.counter, h)
    operation-Refined asks_exit e = asks_exit-Refined
    operation-Refined looks_at_exit e = looks_at_exit-Refined
