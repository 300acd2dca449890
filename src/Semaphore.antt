-- ===== src/Semaphore.antt =====
-- `BPSGISemaphore` of src/shmem.cpp. The argument of `acquire` and `try_acquire` says, for each round
-- of their loop, whether a signal handler interrupts the call; without a round left, or while the
-- call blocks, there is no result.
pub mod Counter
use blade_psgi.Base.{
  ℕ, ◌≡◌, Bool, true, false, Option, none, some, List, [], ◌∷◌, ◌==◌, if◌then◌else◌,
}
use blade_psgi.Base.Bytes.{codes}
use blade_psgi.Base.Outcome.{Outcome, ok, throw, syscall_failed, M}
use blade_psgi.Shmem.PosixSem.{SemLib, eintr, eagain}
use blade_psgi.Shmem.Memory.{Mem}
use blade_psgi.Shmem.{SharedMemory, Semaphore}

abbrev pub in_segment : SharedMemory → Mem → SharedMemory
in_segment s m = record s { segment = m }

module _ (lib : SemLib) (x : Semaphore) where
  open lib use {sem_getvalue, sem_wait, sem_trywait, sem_post}

  abbrev pub read_result : SharedMemory → Option ℕ × ℕ → Outcome ℕ × SharedMemory
  read_result s (none, sval) = (ok sval, s)
  read_result s (some errno, sval) = (throw (syscall_failed (codes "sem_getvalue") errno), s)

  unfoldable pub read : M SharedMemory ℕ
  read s = read_result s (sem_getvalue s.segment x.sem)

  abbrev pub acquired :
      (SharedMemory → Option (Outcome (Unit {0}) × SharedMemory))
      → SharedMemory
      → Option (Option ℕ × Mem)
      → Option (Outcome (Unit {0}) × SharedMemory)
  acquired again s none = none
  acquired again s (some (none, m)) = some (ok tt, in_segment s m)
  acquired again s (some (some errno, m)) =
      let next = again (in_segment s m) in
      if errno == eintr
      then next
      else some (throw (syscall_failed (codes "sem_wait") errno), in_segment s m)

  unfoldable pub acquire : List Bool → SharedMemory → Option (Outcome (Unit {0}) × SharedMemory)
  acquire [] s = none
  acquire (interrupted ∷ rounds) s =
      acquired (acquire rounds) s (sem_wait interrupted s.segment x.sem)

  abbrev pub tried :
      (SharedMemory → Option (Outcome Bool × SharedMemory))
      → SharedMemory
      → Option ℕ × Mem
      → Option (Outcome Bool × SharedMemory)
  tried again s (none, m) = some (ok true, in_segment s m)
  tried again s (some errno, m) =
      let next = again (in_segment s m) in
      if errno == eintr
      then next
      else if errno == eagain
      then some (ok false, in_segment s m)
      else some (throw (syscall_failed (codes "sem_trywait") errno), in_segment s m)

  unfoldable pub try_acquire : List Bool → SharedMemory → Option (Outcome Bool × SharedMemory)
  try_acquire [] s = none
  try_acquire (interrupted ∷ rounds) s =
      tried (try_acquire rounds) s (sem_trywait interrupted s.segment x.sem)

  abbrev pub released : SharedMemory → Option ℕ × Mem → Outcome (Unit {0}) × SharedMemory
  released s (none, m) = (ok tt, in_segment s m)
  released s (some errno, m) = (throw (syscall_failed (codes "sem_post") errno), in_segment s m)

  unfoldable pub release : M SharedMemory (Unit {0})
  release s = released s (sem_post s.segment x.sem)
