-- ===== src/Base/Words.antt =====
-- Machine words as native numbers, and the int64_t that a 64-bit pattern stands for.
use Prim.Native.Nat.{ℕ, ◌-◌, ◌%◌, ◌^◌, ◌<◌}
use mathlib.Core.Path.{◌≡◌, refl}
use native.Mathlib.Omega.{arith}
use mathlib.Core.Bool.{Bool, true, false}
use mathlib.Core.Logic.{◌≢◌, inl, inr}
use blade_psgi.Base.Tests.{ltb, ◌==◌, Bool-cases, if◌then◌else◌}

-- size_t and the bit pattern of an int64_t.
abbrev pub u64 : ℕ → ℕ
u64 n = n % 2 ^ 64

-- `negsuc n` is -(n + 1).
pub data ℤ : Type 0 where
  pos : ℕ → ℤ
  negsuc : ℕ → ℤ

abbrev pub signed64 : ℕ → ℤ
signed64 w = if ltb w (2 ^ 63) then pos w else negsuc (2 ^ 64 - w - 1)

-- The pattern of an integer, reduced as a conversion to the type does.
abbrev pub pattern64 : ℤ → ℕ
pattern64 (pos n) = u64 n
pattern64 (negsuc n) = 2 ^ 64 - 1 - u64 n

pub pattern64-lt : (z : ℤ) → pattern64 z < 256 ^ 8
pattern64-lt (pos n) = omega arith
pattern64-lt (negsuc n) = omega arith

-- `==` and -1 of int and pid_t.
abbrev pub minus_one : ℤ
minus_one = negsuc 0

abbrev pub equal : ℤ → ℤ → Bool
equal (pos m) (pos n) = m == n
equal (pos m) (negsuc n) = false
equal (negsuc m) (pos n) = false
equal (negsuc m) (negsuc n) = m == n

pub eq_of_equal : (a b : ℤ) → equal a b ≡ true → a ≡ b
eq_of_equal a b h = ground arith

pub equal_self : (a : ℤ) → equal a a ≡ true
equal_self a = ground arith

pub equal_of_ne : (a b : ℤ) → a ≢ b → equal a b ≡ false
equal_of_ne (pos m) (pos n) h = elim (Bool-cases (m == n)) [
  | inl e ↦ absurd (h (ground arith))
  | inr e ↦ e
]
equal_of_ne (pos m) (negsuc n) h = refl
equal_of_ne (negsuc m) (pos n) h = refl
equal_of_ne (negsuc m) (negsuc n) h = elim (Bool-cases (m == n)) [
  | inl e ↦ absurd (h (ground arith))
  | inr e ↦ e
]
