-- ===== src/PerlModule/Integers.antt =====
-- The numbers that Perl stores in atomic integers, adds to them and loads.
use blade_psgi.Base.{
  ℕ, ◌+◌, ◌-◌, ◌%◌, ◌^◌, ◌<◌, ◌≡◌, refl, ap, ◌∙◌, inl, inr, Bool-cases, Option, some, arith, ltb,
  if◌then◌else◌,
}
use blade_psgi.Base.Words.{ℤ, pos, negsuc, u64, signed64, pattern64, pattern64-lt}
use blade_psgi.Base.Outcome.{Outcome, ok}
use blade_psgi.Shmem.Memory.{Mem, load, store, load-store_self}
use blade_psgi.PerlBridge.{cb_atomic_int64_load, cb_atomic_int64_store}
use blade_psgi.PerlModule.{
  atomic_int64_class, object, iv, unset, Reply, returns, World, to_int, t_ptrobj_special,
}
use blade_psgi.PerlModule.ObjectMethods.{
  atomic_int64_fetch_add, atomic_int64_load, atomic_int64_store,
}

-- -2^31 ≤ z < 2^31
abbrev pub FitsInt : ℤ → Type 0
FitsInt (pos n) = n < 2 ^ 31
FitsInt (negsuc n) = n < 2 ^ 31

to_int_fits : (z : ℤ) → FitsInt z → to_int z ≡ z
to_int_fits (pos n) h = ground arith
to_int_fits (negsuc n) h = ground arith

to_int_signed : (z : ℤ) → signed64 (pattern64 (to_int z)) ≡ to_int z
to_int_signed z = elim (Bool-cases (ltb (pattern64 z % 2 ^ 32) (2 ^ 31))) [
  | inl e ↦ rw e (ground arith)
  | inr e ↦ rw e (ground arith)
]

infixl 6 ◌+ℤ◌
abbrev pub ◌+ℤ◌ : ℤ → ℤ → ℤ
◌+ℤ◌ (pos m) (pos n) = pos (m + n)
◌+ℤ◌ (pos m) (negsuc n) = if ltb n m then pos (m - n - 1) else negsuc (n - m)
◌+ℤ◌ (negsuc m) (pos n) = if ltb m n then pos (n - m - 1) else negsuc (m - n)
◌+ℤ◌ (negsuc m) (negsuc n) = negsuc (m + n + 1)

-- The sum of two ints fits in 64 bits, whose addition is that of the integers.
sum_signed : (y z : ℤ) → FitsInt y → FitsInt z → signed64 (u64 (pattern64 y + pattern64 z)) ≡ y +ℤ z
sum_signed (pos m) (pos n) h k = ground arith
sum_signed (pos m) (negsuc n) h k = ground arith
sum_signed (negsuc m) (pos n) h k = ground arith
sum_signed (negsuc m) (negsuc n) h k = ground arith

abbrev pub has_returned : ℤ → World → Option (Outcome Reply × World)
has_returned z w = some (ok (returns (iv z)), w)

abbrev with_bytes : World → Mem → World
with_bytes w m = record w {
  mainapp = record w.mainapp { shmem = record w.mainapp.shmem { segment = m } };
}

-- For two numbers that fit in an int: once one is stored in an atomic integer, a load returns it, an
-- addition of the other returns it too, and the next load returns their sum.
pub stored-Loads :
    (w : World) (p : ℕ) (y z : ℤ)
    → FitsInt y
    → FitsInt z
    → let atm = object atomic_int64_class p in
      (w' : World) × (atomic_int64_store atm y w ≡ some (ok (returns unset), w'))
      × (atomic_int64_load atm w' ≡ has_returned y w')
      × (w'' : World) × (atomic_int64_fetch_add atm z w' ≡ has_returned y w'')
      × (atomic_int64_load atm w'' ≡ has_returned (y +ℤ z) w'')
unfolding atomic_int64_store atomic_int64_load atomic_int64_fetch_add t_ptrobj_special
    cb_atomic_int64_load cb_atomic_int64_store
stored-Loads w p y z h k =
    let m = store 8 w.mainapp.shmem.segment p (pattern64 (to_int y)) in
    let old : load 8 m p ≡ pattern64 (to_int y) =
      load-store_self 8 w.mainapp.shmem.segment p (pattern64 (to_int y))
        (pattern64-lt (to_int y)) in
    let read = ap signed64 old ∙ to_int_signed y ∙ to_int_fits y h in
    let sum = u64 (load 8 m p + pattern64 (to_int z)) in
    let total : signed64 sum ≡ y +ℤ z =
      ap (λ n. signed64 (u64 (n + pattern64 (to_int z)))) old
      ∙ ap (λ v. signed64 (u64 (pattern64 v + pattern64 (to_int z)))) (to_int_fits y h)
      ∙ ap (λ v. signed64 (u64 (pattern64 y + pattern64 v))) (to_int_fits z k)
      ∙ sum_signed y z h k in
    let w' = with_bytes w m in
    let w'' = with_bytes w (store 8 m p sum) in
    (
      w',
      refl,
      ap (λ v. has_returned v w') read,
      w'',
      ap (λ v. has_returned v w'') read,
      ap (λ v. has_returned v w'') (ap signed64 (load-store_self 8 m p sum (omega arith)) ∙ total),
    )
