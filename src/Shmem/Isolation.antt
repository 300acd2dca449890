-- ===== src/Shmem/Isolation.antt =====
-- What the objects in the segment do not do to each other, once they lie apart.
use blade_psgi.Base.{
  ℕ, ◌+◌, ◌≤◌, ◌<◌, ◌≡◌, ◌≢◌, refl, ap, ◌⊎◌, some, arith, get_elem?, All-get_elem?, Pairs-get_elem?,
  ◌==◌,
}
use blade_psgi.Base.Words.{u64}
use blade_psgi.Base.Outcome.{ok}
use blade_psgi.Shmem.Memory.{Mem, Apart, store_outside, load-store-Apart, load-store_self}
use blade_psgi.Shmem.Layout.{IsLaidOut, Fits}
use blade_psgi.Shmem.{
  SharedMemory, Semaphore, AtomicInt64, fetch_add, read_atomic, get_worker_status,
  read_request_counter, should_exit_immediately,
}

-- Outside the `n` bytes at `p` the two segments agree.
abbrev pub AgreeOutside : ℕ → ℕ → Mem → Mem → Type 0
AgreeOutside p n m m' = (q : ℕ) → (q < p) ⊎ (p + n ≤ q) → m q ≡ m' q

-- What `std::atomic_fetch_add` on a user's atomic integer does.
pub record AddsOnly (size i value : ℕ) (a : AtomicInt64) (s t : SharedMemory) : Type 0 where
  pub added : read_atomic a t ≡ u64 (read_atomic a s + value)
  pub others :
      (j : ℕ) (b : AtomicInt64)
      → i ≢ j
      → get_elem? s.atomics j ≡ some b
      → read_atomic b t ≡ read_atomic b s
  pub semaphores :
      (j : ℕ) (x : Semaphore)
      → get_elem? s.semaphores j ≡ some x
      → (q : ℕ) → x.sem ≤ q
      → q < x.sem + size
      → t.segment q ≡ s.segment q
  pub statuses : (w : ℕ) → get_worker_status w t ≡ get_worker_status w s
  pub counter : read_request_counter t ≡ read_request_counter s
  pub flag : should_exit_immediately t ≡ should_exit_immediately s

-- In a segment that is laid out as the allocator does it, `fetch_add` on one of its atomic integers
-- returns its value and adds to it modulo 2^64, and leaves the other integers, every semaphore's
-- bytes, the worker statuses, the request counter and the exit flag as they were.
pub fetch_add-AddsOnly :
    (size calls : ℕ) (s : SharedMemory) (i : ℕ) (a : AtomicInt64) (value : ℕ)
    → IsLaidOut size calls s
    → get_elem? s.atomics i ≡ some a
    → (fetch_add a.ptr value s).0 ≡ ok (read_atomic a s)
      × AddsOnly size i value a s (fetch_add a.ptr value s).1
unfolding read_atomic get_worker_status read_request_counter should_exit_immediately
fetch_add-AddsOnly size calls s i a value v e = (
  refl,
  record {
    added = load-store_self 8 s.segment a.ptr _ (omega arith);
    others = λ j b ne f. load-store-Apart 8 8 s.segment a.ptr _ b.ptr (atomics j b ne f);
    semaphores = λ j x f q lo hi. store_outside 8 s.segment a.ptr _ q (omega (arith, kinds j x f));
    statuses = λ w. store_outside 8 s.segment a.ptr _ _ (omega (arith, fits));
    counter = load-store-Apart 8 8 s.segment a.ptr _ _ (omega (arith, fits));
    flag = ap (λ b. b == 1) (store_outside 8 s.segment a.ptr _ _ (omega (arith, fits)));
  },
)
  where
    fits : Fits s.next_user_available_offset 8 a.ptr
    fits = All-get_elem? _ s.atomics i v.atomics_fit e

    atomics :
        (j : ℕ) (b : AtomicInt64) → i ≢ j → get_elem? s.atomics j ≡ some b → Apart a.ptr 8 b.ptr 8
    atomics j b ne f =
        Pairs-get_elem? (λ a b. Apart a.ptr 8 b.ptr 8) (λ a b h. omega arith) s.atomics i j a b
          v.atomics_apart ne e f

    kinds : (j : ℕ) (x : Semaphore) → get_elem? s.semaphores j ≡ some x → Apart x.sem size a.ptr 8
    kinds j x f = All-get_elem? _ s.atomics i (All-get_elem? _ s.semaphores j v.kinds_apart f) e
