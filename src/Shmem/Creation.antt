-- ===== src/Shmem/Creation.antt =====
-- What a successful request gives the loader, and that it disturbs nothing.
use blade_psgi.Base.{
  ℕ, ◌+◌, ◌%◌, ◌^◌, ◌≤◌, ◌<◌, ◌≡◌, refl, ◌∙◌, inl, inr, false, some, [], ◌∷◌, ◌++◌, arith,
  get_elem?, All-get_elem?,
}
use blade_psgi.Base.Bytes.{Bytes}
use blade_psgi.Base.Words.{pos, pattern64}
use blade_psgi.Base.Outcome.{ok}
use blade_psgi.Shmem.Memory.{fill, fill_outside, load_cong}
use blade_psgi.Shmem.PosixSem.{SemLib, SemLaws, IsSem, SameOutside, sem_value_max}
use blade_psgi.Shmem.Allocation.{Next, refuses, runs_out, grants, allocate_user_shmem-Allocates}
use blade_psgi.Shmem.Layout.{IsLaidOut, Fits}
use blade_psgi.Shmem.{
  SharedMemory, Semaphore, AtomicInt64, worker_status_array_off, allocate_user_shmem,
  semaphore_exists, outside_range, new_semaphore, read_atomic, get_worker_status, shmem_align,
}

-- There is room for `size` bytes more in an unlocked segment.
pub record HasRoom (size : ℕ) (s : SharedMemory) : Type 0 where
  pub unlocked : s.locked ≡ false
  pub fits : shmem_align (s.next_user_available_offset + size) < worker_status_array_off

-- What a request that changes only `n` bytes at `p`, and the tables, leaves alone.
pub record Undisturbed (lib : SemLib) (s t : SharedMemory) : Type 0 where
  pub semaphores :
      (j : ℕ) (y : Semaphore) (w : ℕ)
      → get_elem? s.semaphores j ≡ some y
      → IsSem lib s.segment y.sem w
      → IsSem lib t.segment y.sem w
  pub atomics :
      (j : ℕ) (a : AtomicInt64) → get_elem? s.atomics j ≡ some a → read_atomic a t ≡ read_atomic a s
  pub statuses : (w : ℕ) → get_worker_status w t ≡ get_worker_status w s

granted :
    (size : ℕ) (s : SharedMemory)
    → HasRoom size s
    → s.next_user_available_offset + size + 16 ≤ 2 ^ 64
    → (next : ℕ) × Next s.next_user_available_offset size next
      × (next < worker_status_array_off)
      × (allocate_user_shmem size s
          ≡ (ok s.next_user_available_offset, record s { next_user_available_offset = next }))
granted size s room small = elim (allocate_user_shmem-Allocates size s small) [
  | refuses l e ↦ absurd (grind (arith, room.unlocked))
  | runs_out next l n big e ↦ absurd (ground (arith, room.fits, n.aligned, n.covers, n.tight))
  | grants next l n fits e ↦ (next, n, fits, e)
]

pub Undisturbed-of_same :
    (lib : SemLib) (laws : SemLaws lib) (calls n : ℕ) (s t : SharedMemory)
    → IsLaidOut lib.sizeof_sem calls s
    → s.next_user_available_offset + n ≤ worker_status_array_off
    → SameOutside s.next_user_available_offset n s.segment t.segment
    → Undisturbed lib s t
unfolding read_atomic get_worker_status
Undisturbed-of_same lib laws calls n s t v low same = record {
  semaphores = λ j y w e h.
      let f : Fits s.next_user_available_offset lib.sizeof_sem y.sem =
        All-get_elem? _ s.semaphores j v.semaphores_fit e in
      laws.local s.segment t.segment y.sem w h (λ q lo hi. same q (inl (omega arith)));
  atomics = λ j a e.
      let f : Fits s.next_user_available_offset 8 a.ptr =
        All-get_elem? _ s.atomics j v.atomics_fit e in
      load_cong 8 t.segment s.segment a.ptr (λ q lo hi. same q (inl (omega arith)));
  statuses = λ w. same _ (inr (omega arith));
}

outside_range-false :
    (value : ℕ) → 0 < value → value ≤ sem_value_max → outside_range (pos value) ≡ false
outside_range-false value h k = ground arith

-- A request for a semaphore under a new name, with a value from 1 to SEM_VALUE_MAX, in an unlocked
-- segment with room, returns a semaphore of that value, adds it to the table, and leaves the
-- earlier objects and the worker statuses as they were.
pub new_semaphore-creates :
    (lib : SemLib) (laws : SemLaws lib) (calls : ℕ) (s : SharedMemory) (name : Bytes) (value : ℕ)
    → IsLaidOut lib.sizeof_sem calls s
    → calls ≤ 2 ^ 50
    → HasRoom lib.sizeof_sem s
    → semaphore_exists name s.semaphores ≡ false
    → 0 < value
    → value ≤ sem_value_max
    → let x : Semaphore = record { sem = s.next_user_available_offset; name = name } in
      (t : SharedMemory) × (new_semaphore lib name (pos value) s ≡ (ok x, t))
      × (t.semaphores ≡ s.semaphores ++ x ∷ [])
      × IsSem lib t.segment x.sem value
      × Undisturbed lib s t
unfolding new_semaphore
new_semaphore-creates lib laws calls s name value v few room new positive small =
    let (next, nx, fits, e) = granted lib.sizeof_sem s room (omega (arith, v.few, laws.small)) in
    let p = s.next_user_available_offset in
    let cleared = fill lib.sizeof_sem s.segment p 0 in
    let word : pattern64 (pos value) % 2 ^ 32 ≡ value = omega arith in
    let (m, called, leaves) = laws.init_value cleared p value small in
    let x : Semaphore = record { sem = p; name = name } in
    let t : SharedMemory = record s {
      segment = m;
      next_user_available_offset = next;
      semaphores = s.semaphores ++ x ∷ [];
    } in
    (
      t,
      rw (new, outside_range-false value positive small, e, word, called, new_semaphore) refl,
      refl,
      leaves.0,
      Undisturbed-of_same lib laws calls lib.sizeof_sem s t v (omega (arith, nx.covers))
          (λ q out. leaves.1 q out ∙ fill_outside lib.sizeof_sem s.segment p 0 q out),
    )
