-- ===== src/Tests/Segment.antt =====
-- The shared memory segment with one semaphore, two atomic integers and three workers.
use blade_psgi.Base.{
  ◌≤◌, ◌<◌, ◌≡◌, refl, ◌⊎◌, inl, true, false, List, [], ◌∷◌, arith, length, All, ◌==◌,
  if◌then◌else◌,
}
use blade_psgi.Base.Bytes.{codes, same}
use blade_psgi.Base.Words.{pos, negsuc}
use blade_psgi.Base.Outcome.{ok, throw, logic_error}
use blade_psgi.Shmem.Memory.{Mem}
use blade_psgi.Shmem.PosixSem.{IsSem}
use blade_psgi.Shmem.{
  SharedMemory, Semaphore, AtomicInt64, new_shared_memory, semaphore_exists, new_semaphore,
  lock_allocations, fetch_add, read_atomic, set_worker_status, worker_status_off,
}
use blade_psgi.Shmem.Requests.{Request, semaphore, atomic, run}
use blade_psgi.Shmem.Layout.{IsLaidOut, run-init-IsLaidOut}
use blade_psgi.Shmem.Isolation.{AddsOnly, fetch_add-AddsOnly}
use blade_psgi.Shmem.Names.{HasDistinctNames, run-init-HasDistinctNames, lock_allocations_freezes}
use blade_psgi.Shmem.Statuses.{InSegment, set_worker_status_bounds}
use blade_psgi.Shmem.Creation.{Undisturbed, new_semaphore-creates}
use blade_psgi.Shmem.Accesses.{
  Access, request_exit, count_request, report_status, add_to, winners, IsPlaced, winners_once,
}
use blade_psgi.Tests.Sems.{byte_sems, byte_sems-SemLaws}

abbrev pub noise : Mem
noise q = if q == 16 then 2 else 0

abbrev pub requests : List Request
requests = semaphore (codes "lock") (pos 1) ∷ atomic (codes "hits") (negsuc 4) ∷ []

run-init-IsLaidOut_example :
    IsLaidOut 32 (length requests) (run byte_sems (new_shared_memory noise 4096) requests)
run-init-IsLaidOut_example =
    run-init-IsLaidOut byte_sems noise 4096 requests (omega arith) (omega arith)

run-init-HasDistinctNames_example :
    HasDistinctNames (run byte_sems (new_shared_memory noise 4096) requests)
run-init-HasDistinctNames_example =
    run-init-HasDistinctNames byte_sems noise 4096 requests (omega arith) (omega arith)

abbrev lock : Semaphore
lock = record { sem = 16; name = codes "lock" }

abbrev pub hits : AtomicInt64
hits = record { ptr = 48; name = codes "hits" }

abbrev pub misses : AtomicInt64
misses = record { ptr = 64; name = codes "misses" }

-- The semaphore has the value 2.
abbrev pub shm : SharedMemory
shm = record {
  segment = noise;
  shmem_size = 4096;
  locked = false;
  next_user_available_offset = 80;
  semaphores = lock ∷ [];
  atomics = hits ∷ misses ∷ [];
}

pub shm-IsLaidOut : IsLaidOut 32 3 shm
shm-IsLaidOut = record {
  aligned = refl;
  above = omega arith;
  few = omega arith;
  semaphores_fit = omega arith;
  atomics_fit = omega arith;
  semaphores_apart = (tt, tt);
  atomics_apart = ((inl (omega arith), tt), (tt, tt));
  kinds_apart = ((inl (omega arith), (inl (omega arith), tt)), tt);
}

fetch_add-AddsOnly_example :
    ((fetch_add 48 5 shm).0 ≡ ok (read_atomic hits shm))
    × AddsOnly 32 0 5 hits shm (fetch_add 48 5 shm).1
fetch_add-AddsOnly_example = fetch_add-AddsOnly 32 3 shm 0 hits 5 shm-IsLaidOut refl

gate-is_new : semaphore_exists (codes "gate") shm.semaphores ≡ false
unfolding semaphore_exists same
gate-is_new = refl

new_semaphore-creates_example :
    let x : Semaphore = record { sem = 80; name = codes "gate" } in
    (t : SharedMemory) × (new_semaphore byte_sems (codes "gate") (pos 3) shm ≡ (ok x, t))
    × (t.semaphores ≡ lock ∷ x ∷ [])
    × IsSem byte_sems t.segment 80 3
    × Undisturbed byte_sems shm t
new_semaphore-creates_example =
    new_semaphore-creates byte_sems byte_sems-SemLaws 3 shm (codes "gate") 3 shm-IsLaidOut
      (omega arith) (record { unlocked = refl; fits = omega arith }) gate-is_new (omega arith)
      (omega arith)

lock_allocations_freezes_example :
    let t = record shm { locked = true } in
    (lock_allocations shm ≡ (ok tt, t))
    × (run byte_sems t requests ≡ t)
    × (lock_allocations t ≡ (
      throw (logic_error (codes "tried to lock a previously locked shared memory segment")),
      t,
    ))
lock_allocations_freezes_example = lock_allocations_freezes byte_sems shm requests refl

set_worker_status_bounds_example :
    let t = (set_worker_status 2048 95 shm).1 in
    ((2048 < 2048) × InSegment shm t)
    ⊎ ((2048 ≤ 2048) × (4096 ≤ worker_status_off 2048) × (t.segment (worker_status_off 2048) ≡ 95))
set_worker_status_bounds_example = set_worker_status_bounds 2048 95 shm refl

-- A worker reports and counts, the loader's integer is added to, and two processes ask for an exit.
abbrev pub rest : List Access
rest =
    report_status 1 95
    ∷ count_request
    ∷ request_exit
    ∷ add_to 48 7
    ∷ count_request
    ∷ request_exit
    ∷ []

rest-IsPlaced : All IsPlaced rest
rest-IsPlaced = omega arith

winners_once_example : winners shm rest ≡ 1
winners_once_example = winners_once shm rest rest-IsPlaced refl
