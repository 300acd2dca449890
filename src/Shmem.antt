-- ===== src/Shmem.antt =====
-- src/shmem.cpp: the shared memory segment, its allocator, and what it holds. The state is the
-- object `BPSGISharedMemory` together with the bytes of its segment; a pointer into the segment is
-- an offset. `sem_t` and the functions on it are a parameter (`SemLib`).
pub mod Memory
pub mod PosixSem
pub mod Allocation
pub mod Requests
pub mod Layout
pub mod Isolation
pub mod Names
pub mod Statuses
pub mod Creation
pub mod Accesses
pub mod Orders
use blade_psgi.Base.{
  ℕ, zero, suc, ◌+◌, ◌^◌, ◌-◌, ◌%◌, ◌≡◌, Bool, true, false, not, ◌||◌, Option, none, some, List, [],
  ◌∷◌, ◌++◌, arith, leb, ltb, ◌==◌, if◌then◌else◌,
}
use blade_psgi.Base.Bytes.{Bytes, codes, same}
use blade_psgi.Base.Words.{ℤ, pos, negsuc, u64, pattern64}
use blade_psgi.Base.Outcome.{
  Exn, string_error, logic_error, syscall_failed, Outcome, ok, throw, M, ◌>>=◌, ◌>>◌, return, raise,
  throw_if, get, put,
}
use Memory.{Mem, load, store, fill, set_byte}
use PosixSem.{SemLib}

pub record Semaphore : Type 0 where
  pub sem : ℕ
  pub name : Bytes

pub record AtomicInt64 : Type 0 where
  pub ptr : ℕ
  pub name : Bytes

pub record SharedMemory : Type 0 where
  pub segment : Mem
  pub shmem_size : ℕ
  pub locked : Bool
  pub next_user_available_offset : ℕ
  pub semaphores : List Semaphore
  pub atomics : List AtomicInt64

abbrev pub shmem_alignof : ℕ
shmem_alignof = 16

-- SHMEMALIGN, in size_t
abbrev pub shmem_align : ℕ → ℕ
shmem_align off =
    if off % shmem_alignof == 0 then off else u64 (off + (shmem_alignof - off % shmem_alignof))

abbrev pub should_exit_immediately_off : ℕ
should_exit_immediately_off = 0

abbrev pub request_counter_off : ℕ
request_counter_off = should_exit_immediately_off + 8

abbrev pub first_user_available_offset : ℕ
first_user_available_offset = shmem_align (request_counter_off + 8)

abbrev pub worker_status_array_off : ℕ
worker_status_array_off = 2048

unfoldable pub new_shared_memory : Mem → ℕ → SharedMemory
new_shared_memory segment size = record {
  segment = fill size segment 0 0;
  shmem_size = size;
  locked = false;
  next_user_available_offset = first_user_available_offset;
  semaphores = [];
  atomics = [];
}

unfoldable pub lock_allocations : M SharedMemory (Unit {0})
lock_allocations = do
  s ← get
  throw_if s.locked (logic_error (codes "tried to lock a previously locked shared memory segment"))
  put (record s { locked = true })

abbrev pub locked_error : Exn
locked_error =
    string_error (codes "could not allocate shared memory: shared memory has been locked")

abbrev pub out_of_memory : Exn
out_of_memory = string_error (codes "could not allocate shared memory: out of shared memory")

unfoldable pub allocate_user_shmem : ℕ → M SharedMemory ℕ
allocate_user_shmem size = do
  s ← get
  throw_if s.locked locked_error
  let next = shmem_align (u64 (s.next_user_available_offset + size))
  put (record s { next_user_available_offset = next })
  throw_if (leb worker_status_array_off next) out_of_memory
  return s.next_user_available_offset

-- The loops of `NewSemaphore` and `NewAtomicInt64` over the names in use.
unfoldable pub semaphore_exists : Bytes → List Semaphore → Bool
semaphore_exists name [] = false
semaphore_exists name (sem ∷ sems) = same sem.name name || semaphore_exists name sems

unfoldable pub atomic_exists : Bytes → List AtomicInt64 → Bool
atomic_exists name [] = false
atomic_exists name (atm ∷ atms) = same atm.name name || atomic_exists name atms

-- `value <= 0 || value > 2147483647`
abbrev pub outside_range : ℤ → Bool
outside_range (pos n) = n == 0 || ltb 2147483647 n
outside_range (negsuc n) = true

abbrev pub write_segment : Mem → M SharedMemory (Unit {0})
write_segment m s = (ok tt, record s { segment = m })

abbrev pub push_semaphore : Semaphore → M SharedMemory (Unit {0})
push_semaphore sem s = (ok tt, record s { semaphores = s.semaphores ++ sem ∷ [] })

abbrev pub push_atomic : AtomicInt64 → M SharedMemory (Unit {0})
push_atomic atm s = (ok tt, record s { atomics = s.atomics ++ atm ∷ [] })

-- `throw SyscallException(call, errno)` if the call failed, with the memory that it left.
abbrev pub check_call : Bytes → Option ℕ × Mem → M SharedMemory (Unit {0})
check_call call (none, m) s = (ok tt, record s { segment = m })
check_call call (some errno, m) s = (throw (syscall_failed call errno), record s { segment = m })

module _ (lib : SemLib) where
  open lib use {sizeof_sem, sem_init}

  unfoldable pub new_semaphore : Bytes → ℤ → M SharedMemory Semaphore
  unfolding semaphore_exists
  new_semaphore name value = do
    s ← get
    throw_if (semaphore_exists name s.semaphores)
        (string_error (codes "semaphore with name " ++ name ++ codes " already exists"))
    throw_if (outside_range value)
        (string_error (codes "semaphore init value is outside of allowed range"))
    ptr ← allocate_user_shmem sizeof_sem
    s ← get
    write_segment (fill sizeof_sem s.segment ptr 0)
    s ← get
    check_call (codes "sem_init") (sem_init s.segment ptr (pattern64 value % 2 ^ 32))
    let sem : Semaphore = record { sem = ptr; name = name }
    push_semaphore sem
    return sem

-- The constructor of `BPSGIAtomicInt64` stores the value.
abbrev pub new_atomic_object : ℕ → Bytes → ℤ → M SharedMemory AtomicInt64
new_atomic_object ptr name value s = (
  ok (record { ptr = ptr; name = name }),
  record s { segment = store 8 s.segment ptr (pattern64 value) },
)

unfoldable pub new_atomic_int64 : Bytes → ℤ → M SharedMemory ℕ
new_atomic_int64 name value = do
  s ← get
  throw_if (atomic_exists name s.atomics)
      (string_error (codes "atomic integer with name " ++ name ++ codes " already exists"))
  ptr ← allocate_user_shmem 8
  atm ← new_atomic_object ptr name value
  push_atomic atm
  return ptr

-- `WorkerArraySegment() + workerno`: one byte for each worker.
abbrev pub worker_status_off : ℕ → ℕ
worker_status_off workerno = worker_status_array_off + workerno

unfoldable pub get_worker_status : ℕ → SharedMemory → ℕ
get_worker_status workerno s = s.segment (worker_status_off workerno)

-- The loop of `GetAllWorkerStatuses`, with `mem` at `off` and `n` rounds left; the result is what
-- it writes to `out`.
unfoldable pub statuses_from : ℕ → ℕ → SharedMemory → List ℕ
statuses_from off zero s = []
statuses_from off (suc n) s = s.segment off ∷ statuses_from (off + 1) n s

unfoldable pub get_all_worker_statuses : ℕ → SharedMemory → List ℕ
unfolding statuses_from
get_all_worker_statuses nworkers s = statuses_from worker_status_array_off nworkers s

-- `std::atomic_fetch_add` on the int64_t at `off`: the value before, as a bit pattern.
abbrev pub fetch_add : ℕ → ℕ → M SharedMemory ℕ
fetch_add off value s =
    let old = load 8 s.segment off in
    (ok old, record s { segment = store 8 s.segment off (u64 (old + value)) })

unfoldable pub increase_request_counter : M SharedMemory ℕ
increase_request_counter = fetch_add request_counter_off 1

unfoldable pub read_request_counter : SharedMemory → ℕ
read_request_counter s = load 8 s.segment request_counter_off

-- `std::atomic_exchange(m, 1) == 0`
unfoldable pub set_should_exit_immediately : M SharedMemory Bool
set_should_exit_immediately s = (
  ok (s.segment should_exit_immediately_off == 0),
  record s { segment = set_byte s.segment should_exit_immediately_off 1 },
)

unfoldable pub should_exit_immediately : SharedMemory → Bool
should_exit_immediately s = s.segment should_exit_immediately_off == 1

-- `BPSGIAtomicInt64::Read`
unfoldable pub read_atomic : AtomicInt64 → SharedMemory → ℕ
read_atomic atm s = load 8 s.segment atm.ptr

-- `BPSGIMainApplication::SetWorkerStatus`
unfoldable pub set_worker_status : ℕ → ℕ → M SharedMemory (Unit {0})
set_worker_status workerno status s =
    (ok tt, record s { segment = set_byte s.segment (worker_status_off workerno) status })
