-- ===== src/PerlBridge/Errors.antt =====
-- How a failed request reaches Perl.
use blade_psgi.Base.{
  ℕ, ◌≡◌, refl, ◌⊎◌, inl, inr, [], ◌∷◌, ◌++◌, ◌+◌, ◌%◌, ◌^◌, Option-cases, Bool-cases, leb,
}
use blade_psgi.Base.Bytes.{Bytes}
use blade_psgi.Base.Words.{ℤ, u64, pattern64}
use blade_psgi.Base.Outcome.{string_error, Outcome, ok, throw}
use blade_psgi.Shmem.Memory.{fill}
use blade_psgi.Shmem.PosixSem.{SemLib}
use blade_psgi.Shmem.{
  SharedMemory, Semaphore, AtomicInt64, atomic_exists, new_atomic_int64, allocate_user_shmem,
  semaphore_exists, outside_range, new_semaphore, shmem_align, worker_status_array_off,
}
use blade_psgi.PerlBridge.{Requested, granted, refused, cb_new_semaphore, cb_new_atomic_int64}

-- The caller gets an object of that name, which is the new last entry of the table, or a message, and
-- the table is as it was; the table of the integers is so in any case.
abbrev pub IsReported : Bytes → SharedMemory → Outcome (Requested Semaphore) × SharedMemory → Type 0
IsReported name s r =
    (((x : Semaphore) × (r.0 ≡ ok (granted x))
        × (x.name ≡ name)
        × (r.1.semaphores ≡ s.semaphores ++ x ∷ []))
      ⊎ ((m : Bytes) × (r.0 ≡ ok (refused m)) × (r.1.semaphores ≡ s.semaphores)))
    × (r.1.atomics ≡ s.atomics)

-- The same for an integer, which the caller gets by its place.
abbrev pub IsReportedAtomic : Bytes → SharedMemory → Outcome (Requested ℕ) × SharedMemory → Type 0
IsReportedAtomic name s r =
    (((a : AtomicInt64) × (r.0 ≡ ok (granted a.ptr))
        × (a.name ≡ name)
        × (r.1.atomics ≡ s.atomics ++ a ∷ []))
      ⊎ ((m : Bytes) × (r.0 ≡ ok (refused m)) × (r.1.atomics ≡ s.atomics)))
    × (r.1.semaphores ≡ s.semaphores)

-- An allocation refuses with a text or returns a place; it moves no more than the next offset.
allocated :
    (size : ℕ) (s : SharedMemory)
    → let r = allocate_user_shmem size s in
      (((m : Bytes) × (r.0 ≡ throw (string_error m))) ⊎ ((p : ℕ) × (r.0 ≡ ok p)))
      × (next : ℕ) × (r.1 ≡ record s { next_user_available_offset = next })
unfolding allocate_user_shmem
allocated size s = elim (Bool-cases s.locked) [
  | inl e ↦ rw e (inl (_, refl), s.next_user_available_offset, refl)
  | inr e ↦
      let next = shmem_align (u64 (s.next_user_available_offset + size)) in
      elim (Bool-cases (leb worker_status_array_off next)) [
        | inl q ↦ rw (e, q) (inl (_, refl), next, refl)
        | inr q ↦ rw (e, q) (inr (_, refl), next, refl)
      ]
]

-- In every state, `new_semaphore` of the Perl module lets no exception into Perl and does not end
-- the process: either it gives an object of the name that was asked for, which is the new last entry of
-- the table, or it returns a message, and the table is as it was. It leaves the table of the integers
-- alone.
pub cb_new_semaphore-IsReported :
    (lib : SemLib) (strerror : ℕ → Bytes) (name : Bytes) (value : ℤ) (s : SharedMemory)
    → IsReported name s (cb_new_semaphore lib strerror name value s)
unfolding cb_new_semaphore new_semaphore
cb_new_semaphore-IsReported lib strerror name value s =
    elim (Bool-cases (semaphore_exists name s.semaphores)) [
      | inl e ↦ rw e (inr (_, refl, refl), refl)
      | inr e ↦ elim (Bool-cases (outside_range value)) [
        | inl q ↦ rw (e, q) (inr (_, refl, refl), refl)
        | inr q ↦
            let (how, next, same) = allocated lib.sizeof_sem s in
            elim how [
              | inl (m, a) ↦ rw (e, q, a, same) (inr (m, refl, refl), refl)
              | inr (p, a) ↦
                  let init =
                    lib.sem_init (fill lib.sizeof_sem s.segment p 0) p (pattern64 value % 2 ^ 32) in
                  let sem : Semaphore = record { sem = p; name = name } in
                  elim (Option-cases init.0) [
                    | inl z ↦ rw (e, q, a, same, z) (inl (sem, refl, refl, refl), refl)
                    | inr (errno, z) ↦ rw (e, q, a, same, z) (inr (_, refl, refl), refl)
                  ]
            ]
      ]
    ]

-- `new_atomic_int64` does so with the tables exchanged.
pub cb_new_atomic_int64-IsReported :
    (name : Bytes) (value : ℤ) (s : SharedMemory)
    → IsReportedAtomic name s (cb_new_atomic_int64 name value s)
unfolding cb_new_atomic_int64 new_atomic_int64
cb_new_atomic_int64-IsReported name value s = elim (Bool-cases (atomic_exists name s.atomics)) [
  | inl e ↦ rw e (inr (_, refl, refl), refl)
  | inr e ↦
      let (how, next, same) = allocated 8 s in
      elim how [
        | inl (m, a) ↦ rw (e, a, same) (inr (m, refl, refl), refl)
        | inr (p, a) ↦
            let atm : AtomicInt64 = record { ptr = p; name = name } in
            rw (e, a, same) (inl (atm, refl, refl, refl), refl)
      ]
]
