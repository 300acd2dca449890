-- ===== src/Shmem/Requests.antt =====
-- The requests of the loader, `NewSemaphore` and `NewAtomicInt64`: how they change the object, and
-- histories of them.
use blade_psgi.Base.{
  ℕ, ◌+◌, ◌%◌, ◌^◌, ◌≤◌, ◌<◌, ◌≡◌, refl, ◌⊎◌, inl, inr, false, List, [], Option, none, some, ◌∷◌,
  ◌++◌, Bool-cases,
}
use blade_psgi.Base.Bytes.{Bytes}
use blade_psgi.Base.Words.{ℤ, pattern64}
use blade_psgi.Shmem.Memory.{Mem, store, fill}
use blade_psgi.Shmem.PosixSem.{SemLib}
use blade_psgi.Shmem.Allocation.{Next, refuses, runs_out, grants, allocate_user_shmem-Allocates}
use blade_psgi.Shmem.{
  SharedMemory, worker_status_array_off, semaphore_exists, atomic_exists, outside_range,
  new_semaphore, new_atomic_int64,
}

pub data Request : Type 0 where
  semaphore : Bytes → ℤ → Request
  atomic : Bytes → ℤ → Request

-- The object after an allocation that moves the offset to `next`, and one that succeeded.
abbrev pub advanced : SharedMemory → ℕ → SharedMemory
advanced s next = record s { next_user_available_offset = next }

-- The name check of `NewAtomicInt64`, then the allocation, then the object.
pub new_atomic_int64_cases {ℓ} :
    (P : SharedMemory → Type ℓ) (s : SharedMemory) (name : Bytes) (value : ℤ)
    → s.next_user_available_offset + 8 + 16 ≤ 2 ^ 64
    → P s
    → ((next : ℕ)
        → Next s.next_user_available_offset 8 next
        → worker_status_array_off ≤ next
        → P (advanced s next))
    → ((next : ℕ)
        → Next s.next_user_available_offset 8 next
        → next < worker_status_array_off
        → atomic_exists name s.atomics ≡ false
        → P (record s {
          segment = store 8 s.segment s.next_user_available_offset (pattern64 value);
          next_user_available_offset = next;
          atomics = s.atomics ++ record { ptr = s.next_user_available_offset; name = name } ∷ [];
        }))
    → P (new_atomic_int64 name value s).1
unfolding new_atomic_int64
new_atomic_int64_cases P s name value room kept out done =
    elim (Bool-cases (atomic_exists name s.atomics)) [
      | inl old ↦ rw (old, new_atomic_int64) kept
      | inr new ↦ elim (allocate_user_shmem-Allocates 8 s room) [
        | refuses l e ↦ rw (new, new_atomic_int64) (rw (e, new_atomic_int64) kept)
        | runs_out next l n big e ↦
            rw (new, new_atomic_int64) (rw (e, new_atomic_int64) (out next n big))
        | grants next l n fits e ↦
            rw (new, new_atomic_int64) (rw (e, new_atomic_int64) (done next n fits new))
      ]
    ]

-- The call of `sem_init`, on the cleared bytes of the new semaphore.
abbrev pub init_call : SemLib → SharedMemory → ℤ → Option ℕ × Mem
init_call lib s value =
    lib.sem_init (fill lib.sizeof_sem s.segment s.next_user_available_offset 0)
      s.next_user_available_offset (pattern64 value % 2 ^ 32)

call_cases :
    (r : Option ℕ × Mem)
    → ((errno : ℕ) × (m : Mem) × (r ≡ (some errno, m))) ⊎ ((m : Mem) × (r ≡ (none, m)))
call_cases (none, m) = inr (m, refl)
call_cases (some errno, m) = inl (errno, m, refl)

-- The checks of `NewSemaphore`, then the allocation, then `sem_init`, then the object.
pub new_semaphore_cases {ℓ} :
    (lib : SemLib) (P : SharedMemory → Type ℓ) (s : SharedMemory) (name : Bytes) (value : ℤ)
    → s.next_user_available_offset + lib.sizeof_sem + 16 ≤ 2 ^ 64
    → P s
    → ((next : ℕ)
        → Next s.next_user_available_offset lib.sizeof_sem next
        → worker_status_array_off ≤ next
        → P (advanced s next))
    → ((next errno : ℕ) (m : Mem)
        → Next s.next_user_available_offset lib.sizeof_sem next
        → next < worker_status_array_off
        → outside_range value ≡ false
        → init_call lib s value ≡ (some errno, m)
        → P (record s { segment = m; next_user_available_offset = next }))
    → ((next : ℕ) (m : Mem)
        → Next s.next_user_available_offset lib.sizeof_sem next
        → next < worker_status_array_off
        → semaphore_exists name s.semaphores ≡ false
        → outside_range value ≡ false
        → init_call lib s value ≡ (none, m)
        → P (record s {
          segment = m;
          next_user_available_offset = next;
          semaphores =
              s.semaphores ++ record { sem = s.next_user_available_offset; name = name } ∷ [];
        }))
    → P (new_semaphore lib name value s).1
unfolding new_semaphore
new_semaphore_cases lib P s name value room kept out failed done =
    elim (Bool-cases (semaphore_exists name s.semaphores)) [
      | inl old ↦ rw (old, new_semaphore) kept
      | inr new ↦ elim (Bool-cases (outside_range value)) [
        | inl bad ↦ rw (new, new_semaphore) (rw (bad, new_semaphore) kept)
        | inr good ↦ elim (allocate_user_shmem-Allocates lib.sizeof_sem s room) [
          | refuses l e ↦ rw (new, good, e, new_semaphore) kept
          | runs_out next l n big e ↦ rw (new, good, e, new_semaphore) (out next n big)
          | grants next l n fits e ↦ elim (call_cases (init_call lib s value)) [
            | inl (errno, m, q) ↦
                rw (new, good, e, q, new_semaphore) (failed next errno m n fits good q)
            | inr (m, q) ↦ rw (new, good, e, q, new_semaphore) (done next m n fits new good q)
          ]
        ]
      ]
    ]

-- One request of the loader, whose exception the caller catches, and a history of them.
abbrev pub step : SemLib → SharedMemory → Request → SharedMemory
step lib s (semaphore name value) = (new_semaphore lib name value s).1
step lib s (atomic name value) = (new_atomic_int64 name value s).1

unfoldable pub run : SemLib → SharedMemory → List Request → SharedMemory
run lib s [] = s
run lib s (r ∷ rs) = run lib (step lib s r) rs
