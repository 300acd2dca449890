-- ===== src/Shmem/Layout.antt =====
-- Where the semaphores and atomic integers lie in the segment.
use blade_psgi.Base.{
  ℕ, ◌+◌, ◌*◌, ◌%◌, ◌^◌, ◌≤◌, ◌<◌, ◌≡◌, inl, inr, List, [], ◌∷◌, ◌++◌, arith, length, All,
  All-append, All-mono, All-and, subst, Pairs, Pairs-append,
}
use blade_psgi.Base.Bytes.{Bytes}
use blade_psgi.Shmem.Memory.{Mem, Apart}
use blade_psgi.Shmem.PosixSem.{SemLib}
use blade_psgi.Shmem.Allocation.{Next}
use blade_psgi.Shmem.Requests.{
  Request, semaphore, atomic, new_atomic_int64_cases, new_semaphore_cases, step, run,
}
use blade_psgi.Shmem.{SharedMemory, worker_status_array_off, new_shared_memory}

-- `size` bytes at `p` lie behind the header, below the next offset and the worker status array.
abbrev pub Fits : ℕ → ℕ → ℕ → Type 0
Fits next size p =
    (16 ≤ p) × (p % 16 ≡ 0) × (p + size ≤ next) × (p + size ≤ worker_status_array_off)

-- The layout after a number of requests, for semaphores of a given size.
pub record IsLaidOut (size calls : ℕ) (s : SharedMemory) : Type 0 where
  pub aligned : s.next_user_available_offset % 16 ≡ 0
  pub above : 16 ≤ s.next_user_available_offset
  pub few : s.next_user_available_offset ≤ 16 + 2048 * calls
  pub semaphores_fit : All (λ x. Fits s.next_user_available_offset size x.sem) s.semaphores
  pub atomics_fit : All (λ a. Fits s.next_user_available_offset 8 a.ptr) s.atomics
  pub semaphores_apart : Pairs (λ x y. Apart x.sem size y.sem size) s.semaphores
  pub atomics_apart : Pairs (λ a b. Apart a.ptr 8 b.ptr 8) s.atomics
  pub kinds_apart : All (λ x. All (λ a. Apart x.sem size a.ptr 8) s.atomics) s.semaphores

Fits-mono : (next next' size p : ℕ) → next ≤ next' → Fits next size p → Fits next' size p
Fits-mono next next' size p h f = omega arith

module _ {size calls : ℕ} {s : SharedMemory} (v : IsLaidOut size calls s) where
  IsLaidOut-advanced :
      (n next : ℕ) (m : Mem)
      → n ≤ 1024
      → Next s.next_user_available_offset n next
      → IsLaidOut size (calls + 1) (record s { segment = m; next_user_available_offset = next })
  IsLaidOut-advanced n next m small nx = record {
    aligned = nx.aligned;
    above = omega arith;
    few = omega arith;
    semaphores_fit = All-mono (λ x. Fits-mono _ next size x.sem (omega arith)) _ v.semaphores_fit;
    atomics_fit = All-mono (λ a. Fits-mono _ next 8 a.ptr (omega arith)) _ v.atomics_fit;
    semaphores_apart = v.semaphores_apart;
    atomics_apart = v.atomics_apart;
    kinds_apart = v.kinds_apart;
  }

  IsLaidOut-push_atomic :
      (name : Bytes) (next : ℕ) (m : Mem)
      → Next s.next_user_available_offset 8 next
      → next < worker_status_array_off
      → IsLaidOut size (calls + 1) (record s {
        segment = m;
        next_user_available_offset = next;
        atomics = s.atomics ++ record { ptr = s.next_user_available_offset; name = name } ∷ [];
      })
  IsLaidOut-push_atomic name next m nx lt = record {
    aligned = w.aligned;
    above = w.above;
    few = w.few;
    semaphores_fit = w.semaphores_fit;
    atomics_fit =
        All-append _ s.atomics _ w.atomics_fit (omega (arith, v.aligned, v.above, nx.covers));
    semaphores_apart = v.semaphores_apart;
    atomics_apart =
        Pairs-append _ s.atomics _ v.atomics_apart
          (All-mono (λ a f. inl (f.2)) s.atomics v.atomics_fit);
    kinds_apart =
        All-mono (λ x p. All-append _ s.atomics _ p.1 (inl p.0.2, tt)) s.semaphores
          (All-and _ _ s.semaphores v.semaphores_fit v.kinds_apart);
  }
    where
      w : IsLaidOut size (calls + 1) (record s { segment = m; next_user_available_offset = next })
      w = IsLaidOut-advanced 8 next m (omega arith) nx

  IsLaidOut-push_semaphore :
      (name : Bytes) (next : ℕ) (m : Mem)
      → size ≤ 1024
      → Next s.next_user_available_offset size next
      → next < worker_status_array_off
      → IsLaidOut size (calls + 1) (record s {
        segment = m;
        next_user_available_offset = next;
        semaphores =
            s.semaphores ++ record { sem = s.next_user_available_offset; name = name } ∷ [];
      })
  IsLaidOut-push_semaphore name next m small nx lt = record {
    aligned = w.aligned;
    above = w.above;
    few = w.few;
    semaphores_fit =
        All-append _ s.semaphores _ w.semaphores_fit (omega (arith, v.aligned, v.above, nx.covers));
    atomics_fit = w.atomics_fit;
    semaphores_apart =
        Pairs-append _ s.semaphores _ v.semaphores_apart
          (All-mono (λ a f. inl (f.2)) s.semaphores v.semaphores_fit);
    atomics_apart = v.atomics_apart;
    kinds_apart =
        All-append _ s.semaphores _ v.kinds_apart
          (All-mono (λ a f. inr (f.2)) s.atomics v.atomics_fit, tt);
  }
    where
      w : IsLaidOut size (calls + 1) (record s { segment = m; next_user_available_offset = next })
      w = IsLaidOut-advanced size next m small nx

  IsLaidOut-weaken : (n : ℕ) → calls ≤ n → IsLaidOut size n s
  IsLaidOut-weaken n h = record {
    aligned = v.aligned;
    above = v.above;
    few = omega (arith, v.few);
    semaphores_fit = v.semaphores_fit;
    atomics_fit = v.atomics_fit;
    semaphores_apart = v.semaphores_apart;
    atomics_apart = v.atomics_apart;
    kinds_apart = v.kinds_apart;
  }

  IsLaidOut-later : IsLaidOut size (calls + 1) s
  IsLaidOut-later = IsLaidOut-weaken (calls + 1) (omega arith)

pub step-IsLaidOut :
    (lib : SemLib) (calls : ℕ) (s : SharedMemory) (r : Request)
    → lib.sizeof_sem ≤ 1024
    → calls ≤ 2 ^ 50
    → IsLaidOut lib.sizeof_sem calls s
    → IsLaidOut lib.sizeof_sem (calls + 1) (step lib s r)
step-IsLaidOut lib calls s (semaphore name value) small few v =
    new_semaphore_cases lib (IsLaidOut lib.sizeof_sem (calls + 1)) s name value
      (omega (arith, v.few)) (IsLaidOut-later v)
      (λ next nx _. IsLaidOut-advanced v lib.sizeof_sem next s.segment small nx)
      (λ next _ m nx _ _ _. IsLaidOut-advanced v lib.sizeof_sem next m small nx)
      (λ next m nx lt _ _ _. IsLaidOut-push_semaphore v name next m small nx lt)
step-IsLaidOut lib calls s (atomic name value) small few v =
    new_atomic_int64_cases (IsLaidOut lib.sizeof_sem (calls + 1)) s name value
      (omega (arith, v.few)) (IsLaidOut-later v)
      (λ next nx _. IsLaidOut-advanced v 8 next s.segment (omega arith) nx)
      (λ next nx lt _. IsLaidOut-push_atomic v name next _ nx lt)

run-IsLaidOut :
    (lib : SemLib) (calls : ℕ) (s : SharedMemory) (rs : List Request)
    → lib.sizeof_sem ≤ 1024
    → calls + length rs ≤ 2 ^ 50
    → IsLaidOut lib.sizeof_sem calls s
    → IsLaidOut lib.sizeof_sem (calls + length rs) (run lib s rs)
unfolding run
run-IsLaidOut lib calls s [] small few v = IsLaidOut-weaken v (calls + 0) (omega arith)
run-IsLaidOut lib calls s (r ∷ rs) small few v =
    subst (λ n. IsLaidOut lib.sizeof_sem n (run lib (step lib s r) rs)) (omega arith)
      (run-IsLaidOut lib (calls + 1) (step lib s r) rs small (omega arith)
        (step-IsLaidOut lib calls s r small (omega arith) v))

pub init-IsLaidOut : (size : ℕ) (m : Mem) (n : ℕ) → IsLaidOut size 0 (new_shared_memory m n)
unfolding new_shared_memory
init-IsLaidOut size m n = omega arith

-- After any history of at most 2^50 requests, the semaphores and atomic integers lie 16-aligned
-- behind the header and below the worker status array, and no two of them overlap.
pub run-init-IsLaidOut :
    (lib : SemLib) (m : Mem) (size : ℕ) (rs : List Request)
    → lib.sizeof_sem ≤ 1024
    → length rs ≤ 2 ^ 50
    → IsLaidOut lib.sizeof_sem (length rs) (run lib (new_shared_memory m size) rs)
run-init-IsLaidOut lib m size rs small few =
    IsLaidOut-weaken
      (run-IsLaidOut lib 0 (new_shared_memory m size) rs small (omega arith)
        (init-IsLaidOut _ m size))
      (length rs) (omega arith)
