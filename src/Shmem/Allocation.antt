-- ===== src/Shmem/Allocation.antt =====
-- The allocator: `SHMEMALIGN` and `AllocateUserShmem` on every branch.
use blade_psgi.Base.{ℕ, ◌+◌, ◌%◌, ◌^◌, ◌≤◌, ◌<◌, ◌≡◌, inl, inr, true, false, arith, leb, Bool-cases}
use blade_psgi.Base.Words.{u64}
use blade_psgi.Base.Outcome.{ok, throw}
use blade_psgi.Shmem.{
  SharedMemory, shmem_align, worker_status_array_off, locked_error, out_of_memory,
  allocate_user_shmem,
}

-- The next offset after `n` bytes at `off`: the first multiple of 16 that is large enough.
pub record Next (off n next : ℕ) : Type 0 where
  pub aligned : next % 16 ≡ 0
  pub covers : off + n ≤ next
  pub tight : next < off + n + 16

pub shmem_align-Next :
    (off n : ℕ) → off + n + 16 ≤ 2 ^ 64 → Next off n (shmem_align (u64 (off + n)))
shmem_align-Next off n h = ground arith

-- What `AllocateUserShmem` does: a locked segment throws and stays as it is; otherwise the next
-- offset advances, and the old one is returned exactly if the new one stays below the worker
-- status array.
pub data Allocates (size : ℕ) (s : SharedMemory) : Type 0 where
  refuses :
      s.locked ≡ true → allocate_user_shmem size s ≡ (throw locked_error, s) → Allocates size s
  runs_out :
      (next : ℕ)
      → s.locked ≡ false
      → Next s.next_user_available_offset size next
      → worker_status_array_off ≤ next
      → allocate_user_shmem size s
        ≡ (throw out_of_memory, record s { next_user_available_offset = next })
      → Allocates size s
  grants :
      (next : ℕ)
      → s.locked ≡ false
      → Next s.next_user_available_offset size next
      → next < worker_status_array_off
      → allocate_user_shmem size s
        ≡ (ok s.next_user_available_offset, record s { next_user_available_offset = next })
      → Allocates size s

-- Unless the offset would overflow size_t: `AllocateUserShmem` refuses when the segment is locked,
-- and runs out, with the offset moved, when the next offset reaches the worker status array;
-- otherwise it grants the bytes at the old offset, and the next one is 16-aligned behind them.
pub allocate_user_shmem-Allocates :
    (size : ℕ) (s : SharedMemory)
    → s.next_user_available_offset + size + 16 ≤ 2 ^ 64
    → Allocates size s
unfolding allocate_user_shmem
allocate_user_shmem-Allocates size s h = elim (Bool-cases s.locked) [
  | inl e ↦ refuses e (rw (e, allocate_user_shmem))
  | inr e ↦
      let next : ℕ = shmem_align (u64 (s.next_user_available_offset + size)) in
      let n : Next s.next_user_available_offset size next = shmem_align-Next _ size h in
      elim (Bool-cases (leb worker_status_array_off next)) [
        | inl out ↦ runs_out next e n (ground arith) (ground arith)
        | inr fits ↦ grants next e n (ground arith) (ground arith)
      ]
]
