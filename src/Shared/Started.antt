-- ===== src/Shared/Started.antt =====
-- From the new segment through the requests of the loader to the operations of the processes.
use blade_psgi.Base.{
  zero, suc, ◌∙◌, ℕ, ◌+◌, ◌^◌, ◌≤◌, ◌≡◌, refl, true, false, List, [], ◌∷◌, All, arith, length, ltb,
  if◌then◌else◌,
}
use blade_psgi.Shmem.Memory.{Mem, load, load_cong, fill}
use blade_psgi.Shmem.PosixSem.{SemLib, SemLaws}
use blade_psgi.Shmem.Requests.{Request, semaphore, atomic, step, run}
use blade_psgi.Shmem.Layout.{IsLaidOut, step-IsLaidOut, init-IsLaidOut, run-init-IsLaidOut}
use blade_psgi.Shmem.{SharedMemory, new_shared_memory}
use blade_psgi.Shared.{Operation, Objects, perform_all, promised_all}
use blade_psgi.Shared.Holds.{Holds, IsOperation}
use blade_psgi.Shared.Refines.{operations-Refine}
use blade_psgi.Shared.Created.{created, semaphore-Holds, atomic-Holds, tables-Holds}

-- No objects yet: the segment is cleared, which says nothing of the bytes behind it.
abbrev pub no_objects : Mem → Objects
no_objects m = record {
  semaphore = λ i. 0;
  integer = λ i. 0;
  status = λ w. if ltb w 2048 then 0 else m (2048 + w);
  requests = 0;
  exit_asked = false;
}

unfoldable pub created_all : SemLib → Objects → SharedMemory → List Request → Objects
created_all lib a s [] = a
created_all lib a s (r ∷ rs) = created_all lib (created a s r (step lib s r)) (step lib s r) rs

load_zero : (n : ℕ) (p : ℕ) → load n (λ q. 0) p ≡ 0
unfolding load
load_zero zero p = refl
load_zero (suc n) p = omega (arith, load_zero n (p + 1))

init-Holds :
    (lib : SemLib) (m : Mem)
    → Holds lib (new_shared_memory m 4096) (new_shared_memory m 4096).segment (no_objects m)
unfolding new_shared_memory
init-Holds lib m = record {
  semaphores = λ i x e. absurd (cc);
  integers = λ i b e. absurd (cc);
  statuses = λ w. ground arith;
  counter = load_cong 8 (fill 4096 m 0 0) (λ q. 0) 8 (λ q lo hi. ground arith) ∙ load_zero 8 8;
  flag = refl;
}

module _ (lib : SemLib) (laws : SemLaws lib) where
  step-Holds :
      (calls : ℕ) (s : SharedMemory) (a : Objects) (r : Request)
      → IsLaidOut lib.sizeof_sem calls s
      → calls ≤ 2 ^ 50
      → Holds lib s s.segment a
      → Holds lib (step lib s r) (step lib s r).segment (created a s r (step lib s r))
  step-Holds calls s a (semaphore name value) v few h =
      semaphore-Holds lib laws calls s v a h name value few
  step-Holds calls s a (atomic name value) v few h =
      atomic-Holds lib laws calls s v a h name value few

  run-Holds :
      (calls : ℕ) (s : SharedMemory) (a : Objects) (rs : List Request)
      → IsLaidOut lib.sizeof_sem calls s
      → calls + length rs ≤ 2 ^ 50
      → Holds lib s s.segment a
      → Holds lib (run lib s rs) (run lib s rs).segment (created_all lib a s rs)
  unfolding run created_all
  run-Holds calls s a [] v few h = h
  run-Holds calls s a (r ∷ rs) v few h =
      run-Holds (calls + 1) (step lib s r) (created a s r (step lib s r)) rs
        (step-IsLaidOut lib calls s r laws.small (omega arith) v) (omega arith)
        (step-Holds calls s a r v (omega arith) h)

  IsLaidOut-locked :
      (calls : ℕ) (s : SharedMemory)
      → IsLaidOut lib.sizeof_sem calls s
      → IsLaidOut lib.sizeof_sem calls (record s { locked = true })
  IsLaidOut-locked calls s v = record {
    aligned = v.aligned;
    above = v.above;
    few = v.few;
    semaphores_fit = v.semaphores_fit;
    atomics_fit = v.atomics_fit;
    semaphores_apart = v.semaphores_apart;
    atomics_apart = v.atomics_apart;
    kinds_apart = v.kinds_apart;
  }

  -- The loader makes at most 2^50 requests in a new segment of 4096 bytes, which is locked then, and the
  -- processes make operations, in any order, on the semaphores and integers of the tables, the statuses,
  -- the request counter and the exit flag. They get the replies that are promised of objects without
  -- bytes, which begin with the initial values of the requests that made an object, and in the end the
  -- segment holds what is promised.
  pub started-Refines :
      (m : Mem) (rs : List Request) (ops : List Operation)
      → length rs ≤ 2 ^ 50
      → let s = record (run lib (new_shared_memory m 4096) rs) { locked = true } in
        let a = created_all lib (no_objects m) (new_shared_memory m 4096) rs in
        All (IsOperation s) ops
        → ((perform_all lib s s.segment ops).0 ≡ (promised_all a ops).0)
          × Holds lib s (perform_all lib s s.segment ops).1 (promised_all a ops).1
  started-Refines m rs ops few valid =
      let new = new_shared_memory m 4096 in
      let t = run lib new rs in
      let s = record t { locked = true } in
      let a = created_all lib (no_objects m) new rs in
      let v = run-init-IsLaidOut lib m 4096 rs laws.small few in
      let h =
        run-Holds 0 new (no_objects m) rs (init-IsLaidOut lib.sizeof_sem m 4096) (omega arith)
          (init-Holds lib m) in
      operations-Refine lib laws s (IsLaidOut-locked (length rs) t v) s.segment a ops
        (tables-Holds lib t s s.segment a refl refl h) valid
