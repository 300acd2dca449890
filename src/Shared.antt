-- ===== src/Shared.antt =====
-- The objects that the processes share, by the operations that the running processes make on them: the
-- member functions of src/shmem.cpp and the callbacks of src/perl_interpreter_sea_bridge.cpp on the bytes
-- of a segment; and, beside them, what README.md and the names promise, without any bytes.
pub mod Holds
pub mod Operations
pub mod Refines
pub mod Created
pub mod Started
use blade_psgi.Base.{
  ℕ, zero, suc, ◌+◌, ◌-◌, ◌≡◌, Bool, true, false, Option, none, some, List, [], ◌∷◌, ltb, ◌==◌,
  if◌then◌else◌, get_elem?,
}
use blade_psgi.Base.Words.{ℤ, u64, pattern64}
use blade_psgi.Base.Outcome.{Outcome, ok, throw, exited, aborted}
use blade_psgi.Shmem.Memory.{Mem}
use blade_psgi.Shmem.PosixSem.{SemLib, sem_value_max}
use blade_psgi.Shmem.{
  SharedMemory, Semaphore, AtomicInt64, fetch_add, set_should_exit_immediately,
  should_exit_immediately, increase_request_counter, read_request_counter, set_worker_status,
  get_worker_status,
}
use blade_psgi.Semaphore.{acquire, try_acquire, release}
use blade_psgi.Semaphore.Counter.{rounds}
use blade_psgi.PerlBridge.{cb_atomic_int64_load, cb_atomic_int64_store}

-- An operation of a process, on an object with its place in its table; a call that may wait comes with
-- the number of its interruptions.
pub data Operation : Type 0 where
  acquires tries : ℕ → Semaphore → ℕ → Operation
  releases : ℕ → Semaphore → Operation
  adds : ℕ → AtomicInt64 → ℤ → Operation
  loads : ℕ → AtomicInt64 → Operation
  stores : ℕ → AtomicInt64 → ℤ → Operation
  reports : ℕ → ℕ → Operation
  looks_at_worker : ℕ → Operation
  counts reads_counter asks_exit looks_at_exit : Operation

-- What the process gets; `waits` is a call that goes on.
pub data Reply : Type 0 where
  waits returned failed : Reply
  answer : Bool → Reply
  value : ℕ → Reply

abbrev pub of_unit : Outcome (Unit {0}) → Reply
of_unit (ok u) = returned
of_unit (throw e) = failed
of_unit (exited n) = failed
of_unit aborted = failed

abbrev pub of_bool : Outcome Bool → Reply
of_bool (ok b) = answer b
of_bool (throw e) = failed
of_bool (exited n) = failed
of_bool aborted = failed

abbrev pub of_number : Outcome ℕ → Reply
of_number (ok n) = value n
of_number (throw e) = failed
of_number (exited n) = failed
of_number aborted = failed

-- The reply and the bytes behind it.
abbrev pub behind : {A : Type 0} → (Outcome A → Reply) → Outcome A × SharedMemory → Reply × Mem
behind reply (o, s) = (reply o, s.segment)

abbrev pub unless_waiting :
    {A : Type 0} → (Outcome A → Reply) → Mem → Option (Outcome A × SharedMemory) → Reply × Mem
unless_waiting reply m none = (waits, m)
unless_waiting reply m (some r) = behind reply r

-- The object of `base` with other bytes.
abbrev pub at : SharedMemory → Mem → SharedMemory
at base m = record base { segment = m }

module _ (lib : SemLib) (base : SharedMemory) where
  unfoldable pub perform : Mem → Operation → Reply × Mem
  perform m (acquires i x n) = unless_waiting of_unit m (acquire lib x (rounds n) (at base m))
  perform m (tries i x n) = unless_waiting of_bool m (try_acquire lib x (rounds n) (at base m))
  perform m (releases i x) = behind of_unit (release lib x (at base m))
  perform m (adds i b z) = behind of_number (fetch_add b.ptr (pattern64 z) (at base m))
  perform m (loads i b) = (value (cb_atomic_int64_load b.ptr (at base m)), m)
  perform m (stores i b z) = behind of_unit (cb_atomic_int64_store b.ptr z (at base m))
  perform m (reports w b) = behind of_unit (set_worker_status w b (at base m))
  perform m (looks_at_worker w) = (value (get_worker_status w (at base m)), m)
  perform m counts = behind of_number (increase_request_counter (at base m))
  perform m reads_counter = (value (read_request_counter (at base m)), m)
  perform m asks_exit = behind of_bool (set_should_exit_immediately (at base m))
  perform m looks_at_exit = (answer (should_exit_immediately (at base m)), m)

  -- The operations of all processes, in the order in which they happen.
  unfoldable pub perform_all : Mem → List Operation → List Reply × Mem
  perform_all m [] = ([], m)
  perform_all m (op ∷ ops) =
      let r = perform m op in let rest = perform_all r.1 ops in (r.0 ∷ rest.0, rest.1)

-- The values of the semaphores and of the integers, as 64-bit patterns, by their places; the statuses of
-- the workers; the number of requests; and whether an immediate exit was asked for.
pub record Objects : Type 0 where
  pub semaphore : ℕ → ℕ
  pub integer : ℕ → ℕ
  pub status : ℕ → ℕ
  pub requests : ℕ
  pub exit_asked : Bool

abbrev pub update : (ℕ → ℕ) → ℕ → ℕ → ℕ → ℕ
update f i v j = if i == j then v else f j

abbrev pub at_semaphore : Objects → ℕ → ℕ → Objects
at_semaphore a i v = record a { semaphore = update a.semaphore i v }

abbrev pub at_integer : Objects → ℕ → ℕ → Objects
at_integer a i v = record a { integer = update a.integer i v }

-- "If the current value of the semaphore is larger than zero, decreases the value by one": the rest.
abbrev pub take_one : Objects → ℕ → Reply → Reply → ℕ → Reply × Objects
take_one a i taken empty zero = (empty, a)
take_one a i taken empty (suc v) = (taken, at_semaphore a i v)

unfoldable pub promised : Objects → Operation → Reply × Objects
promised a (acquires i x n) = take_one a i returned waits (a.semaphore i)
promised a (tries i x n) = take_one a i (answer true) (answer false) (a.semaphore i)
promised a (releases i x) =
    if ltb (a.semaphore i) sem_value_max
    then (returned, at_semaphore a i (a.semaphore i + 1))
    else (failed, a)
promised a (adds i b z) = (value (a.integer i), at_integer a i (u64 (a.integer i + pattern64 z)))
promised a (loads i b) = (value (a.integer i), a)
promised a (stores i b z) = (returned, at_integer a i (pattern64 z))
promised a (reports w b) = (returned, record a { status = update a.status w b })
promised a (looks_at_worker w) = (value (a.status w), a)
promised a counts = (value a.requests, record a { requests = u64 (a.requests + 1) })
promised a reads_counter = (value a.requests, a)
promised a asks_exit =
    (answer (if a.exit_asked then false else true), record a { exit_asked = true })
promised a looks_at_exit = (answer a.exit_asked, a)

unfoldable pub promised_all : Objects → List Operation → List Reply × Objects
promised_all a [] = ([], a)
promised_all a (op ∷ ops) =
    let r = promised a op in let rest = promised_all r.1 ops in (r.0 ∷ rest.0, rest.1)
