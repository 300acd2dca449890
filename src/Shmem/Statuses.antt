-- ===== src/Shmem/Statuses.antt =====
-- The worker status array, and the size of the segment that it lies in.
use native.Mathlib.Decide.{dec_lt}
use native.Mathlib.Nat.{add-zero}
use blade_psgi.Base.{
  ℕ, zero, suc, ◌+◌, ◌≤◌, ◌<◌, ◌≡◌, refl, ap, ◌⊎◌, inl, inr, none, some, arith, length, get_elem?,
  ltb, ◌==◌, if◌then◌else◌,
}
use blade_psgi.Shmem.{
  SharedMemory, worker_status_array_off, worker_status_off, set_worker_status, get_worker_status,
  get_all_worker_statuses, statuses_from,
}

add_one_suc : (a b : ℕ) → a + 1 + b ≡ a + suc b
add_one_suc a b = omega arith

statuses_from_lem :
    (off n : ℕ) (s : SharedMemory) (i : ℕ)
    → get_elem? (statuses_from off n s) i ≡ (if ltb i n then some (s.segment (off + i)) else none)
unfolding statuses_from
statuses_from_lem off zero s i = ground arith
statuses_from_lem off (suc n) s zero = ground (arith, ap s.segment (add-zero off))
statuses_from_lem off (suc n) s (suc i) =
    ground (arith, statuses_from_lem (off + 1) n s i, ap s.segment (add_one_suc off i))

length-statuses_from : (off n : ℕ) (s : SharedMemory) → length (statuses_from off n s) ≡ n
unfolding statuses_from
length-statuses_from off zero s = refl
length-statuses_from off (suc n) s = omega (arith, length-statuses_from (off + 1) n s)

-- After worker `w` sets its status, `GetAllWorkerStatuses` writes one byte for each of the `n`
-- workers: the new status in its place, and the others as they were.
get_all_worker_statuses-set :
    (n w status : ℕ) (s : SharedMemory) (i : ℕ)
    → let t = (set_worker_status w status s).1 in
      (length (get_all_worker_statuses n t) ≡ n)
      × (get_elem? (get_all_worker_statuses n t) i
          ≡ (if ltb i n then some (if i == w then status else get_worker_status i s) else none))
unfolding get_all_worker_statuses set_worker_status get_worker_status
get_all_worker_statuses-set n w status s i = (
  length-statuses_from worker_status_array_off n _,
  ground (arith, statuses_from_lem worker_status_array_off n (set_worker_status w status s).1 i),
)

-- Every byte behind the end of the segment is as it was.
abbrev pub InSegment : SharedMemory → SharedMemory → Type 0
InSegment s t = (q : ℕ) → s.shmem_size ≤ q → t.segment q ≡ s.segment q

-- In the segment of 4096 bytes a worker below 2048 sets its status inside the segment. Every other
-- worker, of which the command line admits up to 65536, writes it behind the end of the segment.
pub set_worker_status_bounds :
    (w status : ℕ) (s : SharedMemory)
    → s.shmem_size ≡ 4096
    → let t = (set_worker_status w status s).1 in
      ((w < 2048) × InSegment s t)
      ⊎ ((2048 ≤ w)
          × (s.shmem_size ≤ worker_status_off w)
          × (t.segment (worker_status_off w) ≡ status))
unfolding set_worker_status
set_worker_status_bounds w status s h = elim (dec_lt w 2048) [
  | yes small ↦ inl (small, λ q far. ground arith)
  | no large ↦ inr (omega arith, omega arith, ground arith)
]
