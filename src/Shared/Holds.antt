-- ===== src/Shared/Holds.antt =====
-- The objects that the bytes of the segment hold, and that each change of the bytes leaves the others.
use native.Mathlib.Decide.{ℕ_discrete}
use mathlib.Core.Option.{some-injective}
use blade_psgi.Base.{
  ℕ, ◌+◌, ◌≤◌, ◌≡◌, ◌≢◌, refl, sym, subst, ◌∙◌, ◌⊎◌, inl, inr, Bool, some, arith, All-get_elem?,
  Pairs-get_elem?, get_elem?, ◌==◌, if◌then◌else◌, Bool-cases,
}
use blade_psgi.Shmem.Memory.{Mem, Apart, load, load_cong}
use blade_psgi.Shmem.PosixSem.{SemLib, SemLaws, IsSem, SameOutside}
use blade_psgi.Shmem.Layout.{IsLaidOut, Fits}
use blade_psgi.Shmem.{SharedMemory, Semaphore, AtomicInt64}
use blade_psgi.Shared.{
  Operation, acquires, tries, releases, adds, loads, stores, Objects, update, at_semaphore,
  at_integer,
}

-- The object of an operation stands at its place in its table.
abbrev pub IsOperation : SharedMemory → Operation → Type 0
IsOperation base (acquires i x n) = get_elem? base.semaphores i ≡ some x
IsOperation base (tries i x n) = get_elem? base.semaphores i ≡ some x
IsOperation base (releases i x) = get_elem? base.semaphores i ≡ some x
IsOperation base (adds i b z) = get_elem? base.atomics i ≡ some b
IsOperation base (loads i b) = get_elem? base.atomics i ≡ some b
IsOperation base (stores i b z) = get_elem? base.atomics i ≡ some b
IsOperation base _ = Unit

abbrev pub flag_byte : Bool → ℕ
flag_byte exit_asked = if exit_asked then 1 else 0

-- The bytes hold the objects.
pub record Holds (lib : SemLib) (base : SharedMemory) (m : Mem) (a : Objects) : Type 0 where
  pub semaphores :
      (i : ℕ) (x : Semaphore)
      → get_elem? base.semaphores i ≡ some x
      → IsSem lib m x.sem (a.semaphore i)
  pub integers :
      (i : ℕ) (b : AtomicInt64) → get_elem? base.atomics i ≡ some b → load 8 m b.ptr ≡ a.integer i
  pub statuses : (w : ℕ) → m (2048 + w) ≡ a.status w
  pub counter : load 8 m 8 ≡ a.requests
  pub flag : m 0 ≡ flag_byte a.exit_asked

update_same : (f : ℕ → ℕ) (i v : ℕ) → update f i v i ≡ v
update_same f i v = ground arith

update_other : (f : ℕ → ℕ) (i v j : ℕ) → i ≢ j → update f i v j ≡ f j
update_other f i v j ne = elim (Bool-cases (i == j)) [
  | inl e ↦ absurd (ne (ground arith))
  | inr e ↦ rw e refl
]

-- A property of the updated value, at the place and elsewhere.
pub updated {ℓ} :
    (P : ℕ → ℕ → Type ℓ) (f : ℕ → ℕ) (i v : ℕ)
    → P i v
    → ((j : ℕ) → i ≢ j → P j (f j))
    → (j : ℕ) → P j (update f i v j)
updated P f i v h k j = elim (ℕ_discrete i j) [
  | yes e ↦ subst (λ j. P j (update f i v j)) e (subst (P i) (sym (update_same f i v)) h)
  | no ne ↦ subst (P j) (sym (update_other f i v j ne)) (k j ne)
]

module _ (lib : SemLib) (laws : SemLaws lib) (base : SharedMemory) {calls : ℕ}
    (v : IsLaidOut lib.sizeof_sem calls base) where
  sem-Fits :
      (i : ℕ) (x : Semaphore)
      → get_elem? base.semaphores i ≡ some x
      → Fits base.next_user_available_offset lib.sizeof_sem x.sem
  sem-Fits i x e = All-get_elem? _ base.semaphores i v.semaphores_fit e

  integer-Fits :
      (i : ℕ) (b : AtomicInt64)
      → get_elem? base.atomics i ≡ some b
      → Fits base.next_user_available_offset 8 b.ptr
  integer-Fits i b e = All-get_elem? _ base.atomics i v.atomics_fit e

  sems-Apart :
      (i j : ℕ) (x y : Semaphore)
      → i ≢ j
      → get_elem? base.semaphores i ≡ some x
      → get_elem? base.semaphores j ≡ some y
      → Apart x.sem lib.sizeof_sem y.sem lib.sizeof_sem
  sems-Apart i j x y ne e f =
      Pairs-get_elem? (λ x y. Apart x.sem lib.sizeof_sem y.sem lib.sizeof_sem)
        (λ x y h. omega arith) base.semaphores i j x y v.semaphores_apart ne e f

  integers-Apart :
      (i j : ℕ) (a b : AtomicInt64)
      → i ≢ j
      → get_elem? base.atomics i ≡ some a
      → get_elem? base.atomics j ≡ some b
      → Apart a.ptr 8 b.ptr 8
  integers-Apart i j a b ne e f =
      Pairs-get_elem? (λ a b. Apart a.ptr 8 b.ptr 8) (λ a b h. omega arith) base.atomics i j a b
        v.atomics_apart ne e f

  kinds-Apart :
      (i j : ℕ) (x : Semaphore) (b : AtomicInt64)
      → get_elem? base.semaphores i ≡ some x
      → get_elem? base.atomics j ≡ some b
      → Apart x.sem lib.sizeof_sem b.ptr 8
  kinds-Apart i j x b e f =
      All-get_elem? _ base.atomics j (All-get_elem? _ base.semaphores i v.kinds_apart e) f

  -- What is apart from the `n` bytes at `p`, outside which nothing changes, is as it was.
  module _ (p n : ℕ) (m m' : Mem) (same : SameOutside p n m m') where
    sem_kept :
        (x : Semaphore) (w : ℕ)
        → Apart p n x.sem lib.sizeof_sem
        → IsSem lib m x.sem w
        → IsSem lib m' x.sem w
    sem_kept x w far h = laws.local m m' x.sem w h (λ q lo hi. same q (omega arith))

    load_kept : (q : ℕ) → Apart p n q 8 → load 8 m' q ≡ load 8 m q
    load_kept q far = load_cong 8 m' m q (λ r lo hi. same r (omega arith))

  module _ (m m' : Mem) (a : Objects) (h : Holds lib base m a) where
    pub semaphore-Holds :
        (i : ℕ) (x : Semaphore) (w : ℕ)
        → get_elem? base.semaphores i ≡ some x
        → IsSem lib m' x.sem w
        → SameOutside x.sem lib.sizeof_sem m m'
        → Holds lib base m' (at_semaphore a i w)
    semaphore-Holds i x w e now same =
        let f = sem-Fits i x e in
        record {
          semaphores = λ j y g.
              updated
                (λ j w.
                  (y : Semaphore) → get_elem? base.semaphores j ≡ some y → IsSem lib m' y.sem w)
                a.semaphore i w
                (λ y g. subst (λ y. IsSem lib m' y.sem w) (some-injective x y (sym e ∙ g)) now)
                (λ j ne y g.
                  sem_kept x.sem lib.sizeof_sem m m' same y (a.semaphore j)
                    (sems-Apart i j x y ne e g) (h.semaphores j y g))
                j y g;
          integers = λ j b g.
              load_kept x.sem lib.sizeof_sem m m' same b.ptr (kinds-Apart i j x b e g)
              ∙ h.integers j b g;
          statuses = λ k. same (2048 + k) (omega (arith, f)) ∙ h.statuses k;
          counter = load_kept x.sem lib.sizeof_sem m m' same 8 (omega (arith, f)) ∙ h.counter;
          flag = same 0 (omega (arith, f)) ∙ h.flag;
        }

    -- An integer's new bytes.
    pub integer-Holds :
        (i : ℕ) (b : AtomicInt64) (w : ℕ)
        → get_elem? base.atomics i ≡ some b
        → load 8 m' b.ptr ≡ w
        → SameOutside b.ptr 8 m m'
        → Holds lib base m' (at_integer a i w)
    integer-Holds i b w e now same =
        let f = integer-Fits i b e in
        record {
          semaphores = λ j y g.
              let far = kinds-Apart j i y b g e in
              sem_kept b.ptr 8 m m' same y (a.semaphore j) (omega (arith, far))
                (h.semaphores j y g);
          integers = λ j c g.
              updated
                (λ j w. (c : AtomicInt64) → get_elem? base.atomics j ≡ some c → load 8 m' c.ptr ≡ w)
                a.integer i w
                (λ c g. subst (λ c. load 8 m' c.ptr ≡ w) (some-injective b c (sym e ∙ g)) now)
                (λ j ne c g.
                  load_kept b.ptr 8 m m' same c.ptr (integers-Apart i j b c ne e g)
                  ∙ h.integers j c g)
                j c g;
          statuses = λ k. same (2048 + k) (omega (arith, f)) ∙ h.statuses k;
          counter = load_kept b.ptr 8 m m' same 8 (omega (arith, f)) ∙ h.counter;
          flag = same 0 (omega (arith, f)) ∙ h.flag;
        }

    -- Bytes of no user's object change.
    pub others-Holds :
        (p n : ℕ) (status : ℕ → ℕ) (requests : ℕ) (exit_asked : Bool)
        → SameOutside p n m m'
        → (p + n ≤ 16) ⊎ (2048 ≤ p)
        → ((w : ℕ) → m' (2048 + w) ≡ status w)
        → load 8 m' 8 ≡ requests
        → m' 0 ≡ flag_byte exit_asked
        → Holds lib base m'
            (record a { status = status; requests = requests; exit_asked = exit_asked })
    others-Holds p n status requests exit_asked same low k c f = record {
      semaphores = λ j y g.
          let fits = sem-Fits j y g in
          sem_kept p n m m' same y (a.semaphore j) (omega (arith, fits, low)) (h.semaphores j y g);
      integers = λ j b g.
          let fits = integer-Fits j b g in
          load_kept p n m m' same b.ptr (omega (arith, fits, low)) ∙ h.integers j b g;
      statuses = k;
      counter = c;
      flag = f;
    }
