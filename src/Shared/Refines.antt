-- ===== src/Shared/Refines.antt =====
-- The bytes of the segment keep what is promised of the shared objects.
use mathlib.Core.Path.{ap₂}
use blade_psgi.Base.{ℕ, ◌≡◌, refl, List, [], ◌∷◌, All}
use blade_psgi.Shmem.Memory.{Mem}
use blade_psgi.Shmem.PosixSem.{SemLib, SemLaws}
use blade_psgi.Shmem.Layout.{IsLaidOut}
use blade_psgi.Shmem.{SharedMemory}
use blade_psgi.Shared.{Operation, perform, perform_all, Objects, promised, promised_all}
use blade_psgi.Shared.Holds.{Holds, IsOperation}
use blade_psgi.Shared.Operations.{operation-Refined}

module _ (lib : SemLib) (laws : SemLaws lib) (base : SharedMemory) {calls : ℕ}
    (v : IsLaidOut lib.sizeof_sem calls base) where
  -- In a laid out segment whose bytes hold some objects, the operations that the processes make on its
  -- semaphores, integers, statuses, request counter and exit flag, in any order, get the replies that are
  -- promised of the objects, and the bytes hold what is promised afterwards.
  pub operations-Refine :
      (m : Mem) (a : Objects) (ops : List Operation)
      → Holds lib base m a
      → All (IsOperation base) ops
      → ((perform_all lib base m ops).0 ≡ (promised_all a ops).0)
        × Holds lib base (perform_all lib base m ops).1 (promised_all a ops).1
  unfolding perform_all promised_all
  operations-Refine m a [] h valid = (refl, h)
  operations-Refine m a (op ∷ ops) h valid =
      let (same, now) = operation-Refined lib laws base v m a h op valid.0 in
      let rest = operations-Refine (perform lib base m op).1 (promised a op).1 ops now valid.1 in
      (ap₂ (λ r rs. r ∷ rs) same rest.0, rest.1)
