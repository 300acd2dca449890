-- ===== src/Tests/Shared.antt =====
-- Operations of several processes on the objects of one segment.
use blade_psgi.Base.{◌≡◌, refl, true, arith, false, List, [], ◌∷◌, All}
use blade_psgi.Base.Words.{pattern64, pos, negsuc}
use blade_psgi.Shmem.{
  SharedMemory, Semaphore, AtomicInt64, new_shared_memory, new_semaphore, new_atomic_int64,
  allocate_user_shmem, semaphore_exists, atomic_exists,
}
use blade_psgi.Shared.{
  Operation, acquires, tries, releases, adds, loads, stores, reports, looks_at_worker, counts,
  reads_counter, asks_exit, looks_at_exit, returned, value, answer, promised, perform_all,
  promised_all,
}
use blade_psgi.Shared.Holds.{Holds, IsOperation}
use blade_psgi.Shared.Started.{no_objects, created_all, started-Refines}
use blade_psgi.Base.Bytes.{codes, same}
use blade_psgi.Shmem.Requests.{run}
use blade_psgi.Tests.Sems.{byte_sems, byte_sems-SemLaws}
use blade_psgi.Tests.Segment.{noise, requests}

abbrev started : SharedMemory
started = record (run byte_sems (new_shared_memory noise 4096) requests) { locked = true }

abbrev gate : Semaphore
gate = record { sem = 16; name = codes "lock" }

abbrev count : AtomicInt64
count = record { ptr = 48; name = codes "hits" }

abbrev operations : List Operation
operations =
    acquires 0 gate 1
    ∷ adds 0 count (negsuc 2)
    ∷ tries 0 gate 0
    ∷ releases 0 gate
    ∷ stores 0 count (pos 7)
    ∷ loads 0 count
    ∷ reports 1 95
    ∷ counts
    ∷ asks_exit
    ∷ looks_at_exit
    ∷ looks_at_worker 1
    ∷ reads_counter
    ∷ []

operations-IsOperation : All (IsOperation started) operations
unfolding run new_semaphore new_atomic_int64 new_shared_memory allocate_user_shmem semaphore_exists
    atomic_exists same
operations-IsOperation =
    (refl, (refl, (refl, (refl, (refl, (refl, (tt, (tt, (tt, (tt, (tt, (tt, tt))))))))))))

started-Refines_example :
    let a = created_all byte_sems (no_objects noise) (new_shared_memory noise 4096) requests in
    ((perform_all byte_sems started started.segment operations).0 ≡ (promised_all a operations).0)
    × Holds byte_sems started
        (perform_all byte_sems started started.segment operations).1
        (promised_all a operations).1
started-Refines_example =
    started-Refines byte_sems byte_sems-SemLaws noise requests operations (omega arith)
      operations-IsOperation

-- The replies: acquired, the old value -5, refused at zero, and so on.
replies :
    (promised_all
      (created_all byte_sems (no_objects noise) (new_shared_memory noise 4096) requests)
      operations).0
    ≡ returned
      ∷ value (pattern64 (negsuc 4))
      ∷ answer false
      ∷ returned
      ∷ returned
      ∷ value 7
      ∷ returned
      ∷ value 0
      ∷ answer true
      ∷ answer true
      ∷ value 95
      ∷ value 1
      ∷ []
unfolding promised_all promised created_all new_semaphore new_atomic_int64 new_shared_memory
    allocate_user_shmem semaphore_exists atomic_exists same
replies = refl
