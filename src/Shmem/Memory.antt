-- ===== src/Shmem/Memory.antt =====
-- The bytes of the shared memory segment, as a function of the offset, and the accesses of
-- shmem.cpp: memset, and loads and stores of objects of a given width (little-endian).
use native.Mathlib.Nat.{pow-suc}
use blade_psgi.Base.{
  ℕ, zero, suc, ◌+◌, ◌*◌, ◌/◌, ◌%◌, ◌^◌, ◌≤◌, ◌<◌, ◌≡◌, refl, ◌⊎◌, inl, ◌&&◌, arith, ltb, leb, ◌==◌,
  if◌then◌else◌,
}

abbrev pub Mem : Type 0
Mem = ℕ → ℕ

abbrev pub set_byte : Mem → ℕ → ℕ → Mem
set_byte m p b q = if p == q then b else m q

-- memset(p, b, n)
abbrev pub fill : ℕ → Mem → ℕ → ℕ → Mem
fill n m p b q = if leb p q && ltb q (p + n) then b else m q

unfoldable pub load : ℕ → Mem → ℕ → ℕ
load zero m p = 0
load (suc n) m p = m p + 256 * load n m (p + 1)

unfoldable pub store : ℕ → Mem → ℕ → ℕ → Mem
store zero m p v = m
store (suc n) m p v = store n (set_byte m p (v % 256)) (p + 1) (v / 256)

-- Two ranges of bytes that do not meet.
abbrev pub Apart : ℕ → ℕ → ℕ → ℕ → Type 0
Apart p n q k = (p + n ≤ q) ⊎ (q + k ≤ p)

pub store_outside : (n : ℕ) (m : Mem) (p v q : ℕ) → (q < p) ⊎ (p + n ≤ q) → store n m p v q ≡ m q
unfolding store
store_outside zero m p v q h = refl
store_outside (suc n) m p v q h =
    ground (arith, store_outside n (set_byte m p (v % 256)) (p + 1) (v / 256) q)

pub fill_outside : (n : ℕ) (m : Mem) (p b q : ℕ) → (q < p) ⊎ (p + n ≤ q) → fill n m p b q ≡ m q
fill_outside n m p b q h = ground arith

-- A load reads its own bytes only.
pub load_cong :
    (n : ℕ) (m m' : Mem) (p : ℕ)
    → ((q : ℕ) → p ≤ q → q < p + n → m q ≡ m' q)
    → load n m p ≡ load n m' p
unfolding load
load_cong zero m m' p h = refl
load_cong (suc n) m m' p h = omega (
  arith,
  h p (omega arith) (omega arith),
  load_cong n m m' (p + 1) (λ q a b. h q (omega arith) (omega arith)),
)

pub load-store-Apart :
    (n k : ℕ) (m : Mem) (p v q : ℕ) → Apart p n q k → load k (store n m p v) q ≡ load k m q
load-store-Apart n k m p v q h = load_cong k _ m q (λ r a b. store_outside n m p v r (omega arith))

pub load-fill-Apart :
    (n k : ℕ) (m : Mem) (p b q : ℕ) → Apart p n q k → load k (fill n m p b) q ≡ load k m q
load-fill-Apart n k m p b q h = load_cong k _ m q (λ r a c. ground arith)

set_byte_self : (m : Mem) (p b : ℕ) → set_byte m p b p ≡ b
set_byte_self m p b = ground arith

-- A load returns what was stored, reduced to the width.
pub load-store_self : (n : ℕ) (m : Mem) (p v : ℕ) → v < 256 ^ n → load n (store n m p v) p ≡ v
unfolding load store
load-store_self zero m p v h = omega arith
load-store_self (suc n) m p v h = omega (
  arith,
  pow-suc 256 n,
  store_outside n (set_byte m p (v % 256)) (p + 1) (v / 256) p (inl (omega arith)),
  set_byte_self m p (v % 256),
  load-store_self n (set_byte m p (v % 256)) (p + 1) (v / 256) (omega (arith, pow-suc 256 n)),
)

pub load_lt : (n : ℕ) (m : Mem) (p : ℕ) → ((q : ℕ) → m q < 256) → load n m p < 256 ^ n
unfolding load
load_lt zero m p h = omega arith
load_lt (suc n) m p h = omega (arith, pow-suc 256 n, h p, load_lt n m (p + 1) h)
