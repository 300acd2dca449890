-- ===== src/Shared/Created.antt =====
-- What a request of the loader adds to the objects.
use mathlib.Core.Option.{some-injective}
use blade_psgi.Base.{
  ℕ, zero, suc, ◌+◌, ◌%◌, ◌^◌, ◌≤◌, ◌≡◌, ◌≢◌, refl, sym, ap, subst, ◌∙◌, ◌⊎◌, inl, inr, true, false,
  none, some, List, [], ◌∷◌, ◌++◌, arith, length, length-append, get_elem?, ◌==◌, if◌then◌else◌,
}
use blade_psgi.Base.Bytes.{Bytes}
use blade_psgi.Base.Words.{ℤ, pos, negsuc, pattern64, pattern64-lt}
use blade_psgi.Shmem.Memory.{
  Mem, store, fill, store_outside, fill_outside, load, load_cong, load-store_self,
}
use blade_psgi.Shmem.PosixSem.{SemLib, SemLaws, IsSem, SameOutside}
use blade_psgi.Shmem.Requests.{
  Request, semaphore, atomic, step, advanced, init_call, new_semaphore_cases,
  new_atomic_int64_cases,
}
use blade_psgi.Shmem.Layout.{IsLaidOut}
use blade_psgi.Shmem.Creation.{Undisturbed-of_same}
use blade_psgi.Shmem.{
  SharedMemory, Semaphore, AtomicInt64, worker_status_array_off, outside_range, read_atomic,
  get_worker_status,
}
use blade_psgi.Shared.{Objects, update, at_semaphore, at_integer}
use blade_psgi.Shared.Holds.{Holds, updated}

-- A request that has made an object, at the end of its table, has given it its initial value.
abbrev pub created : Objects → SharedMemory → Request → SharedMemory → Objects
created a s (semaphore name value) t =
    if length t.semaphores == length s.semaphores
    then a
    else at_semaphore a (length s.semaphores) (pattern64 value % 2 ^ 32)
created a s (atomic name value) t =
    if length t.atomics == length s.atomics
    then a
    else at_integer a (length s.atomics) (pattern64 value)

-- An entry of a list with one entry more.
last_cases :
    {A : Type 0} (xs : List A) (x : A) (i : ℕ) (y : A)
    → get_elem? (xs ++ x ∷ []) i ≡ some y
    → (get_elem? xs i ≡ some y × (i ≢ length xs)) ⊎ ((i ≡ length xs) × (y ≡ x))
last_cases [] x zero y e = inr (refl, sym (some-injective x y e))
last_cases [] x (suc i) y e = absurd (cc)
last_cases (z ∷ xs) x zero y e = inl (e, λ h. omega (arith, h))
last_cases (z ∷ xs) x (suc i) y e = elim (last_cases xs x i y e) [
  | inl (f, ne) ↦ inl (f, λ h. ne (omega (arith, h)))
  | inr (f, g) ↦ inr (ap suc f, g)
]

-- A relation of the entries to the values at their places, with one entry more.
pushed :
    {A : Type 0} (P : A → ℕ → Type 0) (xs ys : List A) (x : A) (f : ℕ → ℕ) (w : ℕ)
    → ys ≡ xs ++ x ∷ []
    → P x w
    → ((i : ℕ) (y : A) → get_elem? xs i ≡ some y → P y (f i))
    → (i : ℕ) (y : A) → get_elem? ys i ≡ some y
    → P y (update f (length xs) w i)
pushed P xs ys x f w e now h =
    updated (λ i w. (y : _) → get_elem? ys i ≡ some y → P y w) f (length xs) w
      (λ y g. elim (last_cases xs x (length xs) y (rw⁻¹ e g)) [
        | inl (old, ne) ↦ absurd (ne refl)
        | inr (at, same) ↦ subst (λ z. P z w) (sym same) now
      ])
      (λ j ne y g. elim (last_cases xs x j y (rw⁻¹ e g)) [
        | inl (old, other) ↦ h j y old
        | inr (at, same) ↦ absurd (ne (sym at))
      ])

module _ (lib : SemLib) where
  pub tables-Holds :
      (s t : SharedMemory) (m : Mem) (a : Objects)
      → t.semaphores ≡ s.semaphores
      → t.atomics ≡ s.atomics
      → Holds lib s m a
      → Holds lib t m a
  tables-Holds s t m a e f h = record {
    semaphores = λ i x g. h.semaphores i x (ap (λ xs. get_elem? xs i) (sym e) ∙ g);
    integers = λ i b g. h.integers i b (ap (λ xs. get_elem? xs i) (sym f) ∙ g);
    statuses = h.statuses;
    counter = h.counter;
    flag = h.flag;
  }

  push_semaphore-Holds :
      (s t : SharedMemory) (m : Mem) (a : Objects) (x : Semaphore) (w : ℕ)
      → t.semaphores ≡ s.semaphores ++ x ∷ []
      → t.atomics ≡ s.atomics
      → IsSem lib m x.sem w
      → Holds lib s m a
      → Holds lib t m (at_semaphore a (length s.semaphores) w)
  push_semaphore-Holds s t m a x w e f now h = record {
    semaphores =
        pushed (λ y w. IsSem lib m y.sem w) s.semaphores t.semaphores x a.semaphore w e now
          h.semaphores;
    integers = λ i b g. h.integers i b (ap (λ xs. get_elem? xs i) (sym f) ∙ g);
    statuses = h.statuses;
    counter = h.counter;
    flag = h.flag;
  }

  push_atomic-Holds :
      (s t : SharedMemory) (m : Mem) (a : Objects) (b : AtomicInt64) (w : ℕ)
      → t.atomics ≡ s.atomics ++ b ∷ []
      → t.semaphores ≡ s.semaphores
      → load 8 m b.ptr ≡ w
      → Holds lib s m a
      → Holds lib t m (at_integer a (length s.atomics) w)
  push_atomic-Holds s t m a b w e f now h = record {
    semaphores = λ i x g. h.semaphores i x (ap (λ xs. get_elem? xs i) (sym f) ∙ g);
    integers =
        pushed (λ b w. load 8 m b.ptr ≡ w) s.atomics t.atomics b a.integer w e now h.integers;
    statuses = h.statuses;
    counter = h.counter;
    flag = h.flag;
  }

same_number : (n : ℕ) → (n == n) ≡ true
same_number n = ground arith

longer : {A : Type 0} (xs : List A) (x : A) → (length (xs ++ x ∷ []) == length xs) ≡ false
longer xs x = ground (arith, length-append xs (x ∷ []))

module _ (lib : SemLib) (laws : SemLaws lib) (calls : ℕ) (s : SharedMemory)
    (v : IsLaidOut lib.sizeof_sem calls s) (a : Objects) (h : Holds lib s s.segment a) where
  -- New bytes behind what has been given out.
  behind-Holds :
      (n : ℕ) (m : Mem)
      → s.next_user_available_offset + n ≤ worker_status_array_off
      → SameOutside s.next_user_available_offset n s.segment m
      → Holds lib s m a
  unfolding read_atomic get_worker_status
  behind-Holds n m low same =
      let u = Undisturbed-of_same lib laws calls n s (record s { segment = m }) v low same in
      record {
        semaphores = λ i x e. u.semaphores i x (a.semaphore i) e (h.semaphores i x e);
        integers = λ i b e. u.atomics i b e ∙ h.integers i b e;
        statuses = λ w. u.statuses w ∙ h.statuses w;
        counter =
            load_cong 8 m s.segment 8 (λ q lo hi. same q (inl (omega (arith, v.above))))
            ∙ h.counter;
        flag = same 0 (inl (omega (arith, v.above))) ∙ h.flag;
      }

  abbrev CreatedHolds : Request → SharedMemory → Type 0
  CreatedHolds r t = Holds lib t t.segment (created a s r t)

  pub atomic-Holds :
      (name : Bytes) (value : ℤ)
      → calls ≤ 2 ^ 50
      → CreatedHolds (atomic name value) (step lib s (atomic name value))
  atomic-Holds name value few =
      new_atomic_int64_cases (CreatedHolds (atomic name value)) s name value (omega (arith, v.few))
        (rw (same_number (length s.atomics)) h)
        (λ next nx big.
          rw (same_number (length s.atomics))
            (tables-Holds lib s (advanced s next) s.segment a refl refl h))
        (λ next nx fits new.
          let p = s.next_user_available_offset in
          let b : AtomicInt64 = record { ptr = p; name = name } in
          let m = store 8 s.segment p (pattern64 value) in
          let t : SharedMemory = record s {
            segment = m;
            next_user_available_offset = next;
            atomics = s.atomics ++ b ∷ [];
          } in
          rw (longer s.atomics b) (
            push_atomic-Holds lib s t m a b (pattern64 value) refl refl
              (load-store_self 8 s.segment p (pattern64 value) (pattern64-lt value))
              (behind-Holds 8 m (omega (arith, nx.covers))
                (store_outside 8 s.segment p (pattern64 value)))))

  -- With an initial value that is not refused, sem_init succeeds.
  init_succeeds :
      (value : ℤ)
      → outside_range value ≡ false
      → let p = s.next_user_available_offset in
        (m : Mem) × (init_call lib s value ≡ (none, m))
        × IsSem lib m p (pattern64 value % 2 ^ 32)
        × SameOutside p lib.sizeof_sem s.segment m
  init_succeeds (negsuc n) e = absurd (cc)
  init_succeeds (pos n) e =
      let p = s.next_user_available_offset in
      let (m, called, leaves) =
        laws.init_value (fill lib.sizeof_sem s.segment p 0) p (pattern64 (pos n) % 2 ^ 32)
          (ground arith) in
      (
        m,
        called,
        leaves.0,
        λ q out. leaves.1 q out ∙ fill_outside lib.sizeof_sem s.segment p 0 q out,
      )

  pub semaphore-Holds :
      (name : Bytes) (value : ℤ)
      → calls ≤ 2 ^ 50
      → CreatedHolds (semaphore name value) (step lib s (semaphore name value))
  semaphore-Holds name value few =
      new_semaphore_cases lib (CreatedHolds (semaphore name value)) s name value
        (omega (arith, v.few, laws.small)) (rw (same_number (length s.semaphores)) h)
        (λ next nx big.
          rw (same_number (length s.semaphores))
            (tables-Holds lib s (advanced s next) s.segment a refl refl h))
        (λ next errno m nx fits good q.
          let (m', called, now, same) = init_succeeds value good in
          let clash = ap (λ r. r.0) (sym called ∙ q) in absurd (cc))
        (λ next m nx fits new good q.
          let (m', called, now, same) = init_succeeds value good in
          let p = s.next_user_available_offset in
          let x : Semaphore = record { sem = p; name = name } in
          let here : m' ≡ m = ap (λ r. r.1) (sym called ∙ q) in
          let t : SharedMemory = record s {
            segment = m;
            next_user_available_offset = next;
            semaphores = s.semaphores ++ x ∷ [];
          } in
          rw (longer s.semaphores x) (
            push_semaphore-Holds lib s t m a x (pattern64 value % 2 ^ 32) refl refl
              (subst (λ m. IsSem lib m p (pattern64 value % 2 ^ 32)) here now)
              (behind-Holds lib.sizeof_sem m (omega (arith, nx.covers))
                (subst (SameOutside p lib.sizeof_sem s.segment) here same))))
