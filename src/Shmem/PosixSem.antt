-- ===== src/Shmem/PosixSem.antt =====
-- The semaphores of <semaphore.h>, which live in the segment: the functions that the program calls,
-- and what their manual pages say of them.
use blade_psgi.Base.{ℕ, suc, ◌+◌, ◌≤◌, ◌<◌, ◌≡◌, ◌⊎◌, Bool, true, false, Option, none, some}
use blade_psgi.Shmem.Memory.{Mem}

-- A call returns `none`, or the `errno` with which it failed, and the memory afterwards. The flag of
-- `sem_wait` and `sem_trywait` says whether a signal handler interrupts the call; a `sem_wait` that
-- blocks has no result.
pub record SemLib : Type 0 where
  pub sizeof_sem : ℕ
  pub sem_init : Mem → ℕ → ℕ → Option ℕ × Mem
  pub sem_getvalue : Mem → ℕ → Option ℕ × ℕ
  pub sem_wait : Bool → Mem → ℕ → Option (Option ℕ × Mem)
  pub sem_trywait : Bool → Mem → ℕ → Option ℕ × Mem
  pub sem_post : Mem → ℕ → Option ℕ × Mem

abbrev pub eintr : ℕ
eintr = 4

abbrev pub eagain : ℕ
eagain = 11

abbrev pub eoverflow : ℕ
eoverflow = 75

-- SEM_VALUE_MAX
abbrev pub sem_value_max : ℕ
sem_value_max = 2147483647

-- The bytes outside the `n` at `p` are the same.
abbrev pub SameOutside : ℕ → ℕ → Mem → Mem → Type 0
SameOutside p n m m' = (q : ℕ) → (q < p) ⊎ (p + n ≤ q) → m' q ≡ m q

-- A semaphore lies at `p`, and its value is `v`.
abbrev pub IsSem : SemLib → Mem → ℕ → ℕ → Type 0
IsSem lib m p v = lib.sem_getvalue m p ≡ (none, v)

-- The memory after a call that succeeds, changes only the semaphore at `p`, and leaves it at `v`.
abbrev pub Leaves : SemLib → Mem → ℕ → ℕ → Mem → Type 0
Leaves lib m p v m' = IsSem lib m' p v × SameOutside p lib.sizeof_sem m m'

pub record SemLaws (lib : SemLib) : Type 0 where
  pub small : lib.sizeof_sem ≤ 1024
  -- A semaphore is read from its own bytes.
  pub local :
      (m m' : Mem) (p v : ℕ)
      → IsSem lib m p v
      → ((q : ℕ) → p ≤ q → q < p + lib.sizeof_sem → m' q ≡ m q)
      → IsSem lib m' p v
  pub init_value :
      (m : Mem) (p v : ℕ)
      → v ≤ sem_value_max
      → (m' : Mem) × (lib.sem_init m p v ≡ (none, m')) × Leaves lib m p v m'
  pub wait_interrupted :
      (m : Mem) (p v : ℕ) → IsSem lib m p v → lib.sem_wait true m p ≡ some (some eintr, m)
  pub wait_blocks : (m : Mem) (p : ℕ) → IsSem lib m p 0 → lib.sem_wait false m p ≡ none
  pub wait_takes :
      (m : Mem) (p v : ℕ)
      → IsSem lib m p (suc v)
      → (m' : Mem) × (lib.sem_wait false m p ≡ some (none, m')) × Leaves lib m p v m'
  pub trywait_interrupted :
      (m : Mem) (p v : ℕ) → IsSem lib m p v → lib.sem_trywait true m p ≡ (some eintr, m)
  pub trywait_fails :
      (m : Mem) (p : ℕ) → IsSem lib m p 0 → lib.sem_trywait false m p ≡ (some eagain, m)
  pub trywait_takes :
      (m : Mem) (p v : ℕ)
      → IsSem lib m p (suc v)
      → (m' : Mem) × (lib.sem_trywait false m p ≡ (none, m')) × Leaves lib m p v m'
  pub post_adds :
      (m : Mem) (p v : ℕ)
      → IsSem lib m p v
      → v < sem_value_max
      → (m' : Mem) × (lib.sem_post m p ≡ (none, m')) × Leaves lib m p (suc v) m'
  pub post_overflows :
      (m : Mem) (p v : ℕ)
      → IsSem lib m p v
      → sem_value_max ≤ v
      → lib.sem_post m p ≡ (some eoverflow, m)
