-- ===== src/Base/Decimal.antt =====
-- Decimal numerals as bytes: how a stream prints an integer, and how the digits are read.
use native.Mathlib.Nat.{pow-suc}
use Prim.Native.Nat.{ℕ, zero, suc, ◌+◌, ◌-◌, ◌*◌, ◌/◌, ◌%◌, ◌^◌, ◌≤◌, ◌<◌}
use mathlib.Core.Path.{◌≡◌, ap, ◌∙◌}
use mathlib.Core.Bool.{Bool, ◌&&◌}
use mathlib.Core.Logic.{inl, inr}
use mathlib.Core.List.{[], ◌∷◌, ◌++◌, append_assoc}
use native.Mathlib.Omega.{arith}
use blade_psgi.Base.Tests.{ltb, leb, Bool-cases, if◌then◌else◌}
use blade_psgi.Base.Bytes.{Bytes}
use blade_psgi.Base.Words.{ℤ, pos, negsuc}

-- With at most `f` digits, of which there are 19 in an int64_t.
unfoldable pub digits : ℕ → ℕ → Bytes
digits zero n = []
digits (suc f) n =
    let rest = digits f (n / 10) in if ltb n 10 then (48 + n) ∷ [] else rest ++ (48 + n % 10) ∷ []

abbrev pub decimal : ℕ → Bytes
decimal n = digits 20 n

-- `oss << value`
abbrev pub print_int : ℤ → Bytes
print_int (pos n) = decimal n
print_int (negsuc n) = b'-' ∷ decimal (suc n)

abbrev pub is_digit : ℕ → Bool
is_digit b = leb 48 b && leb b 57

-- The value of the digits in front, after those that made `acc`, and what is behind them.
unfoldable pub read_digits : ℕ → Bytes → ℕ × Bytes
read_digits acc [] = (acc, [])
read_digits acc (b ∷ bs) =
    let rest = read_digits (acc * 10 + (b - 48)) bs in if is_digit b then rest else (acc, b ∷ bs)

same_digit : (acc d : ℕ) → acc * 10 + (48 + d - 48) ≡ acc * 10 + d
same_digit acc d = omega arith

read_digit :
    (acc d : ℕ) (bs : Bytes)
    → d < 10
    → read_digits acc ((48 + d) ∷ bs) ≡ read_digits (acc * 10 + d) bs
unfolding read_digits
read_digit acc d bs h = ground (arith, ap (λ x. read_digits x bs) (same_digit acc d))

pub positive : (f n : ℕ) → n < 10 ^ suc f → 10 ≤ n → 0 < f
positive zero n h g = absurd (omega arith)
positive (suc f) n h g = omega arith

pub read_digits-digits :
    (f n : ℕ) (bs : Bytes)
    → 0 < f
    → n < 10 ^ f
    → read_digits 0 (digits f n ++ bs) ≡ read_digits n bs
unfolding digits
read_digits-digits zero n bs f h = absurd (omega arith)
read_digits-digits (suc f) n bs p h = elim (Bool-cases (ltb n 10)) [
  | inl e ↦ rw e (read_digit 0 n bs (ground arith) ∙ ap (λ a. read_digits a bs) (omega arith))
  | inr e ↦
      let bound : n / 10 < 10 ^ f = omega (arith, pow-suc 10 f) in
      let front : read_digits 0 (digits f (n / 10) ++ (48 + n % 10) ∷ bs)
          ≡ read_digits (n / 10) ((48 + n % 10) ∷ bs) =
        read_digits-digits f (n / 10) ((48 + n % 10) ∷ bs) (positive f n h (ground arith)) bound in
      let last : read_digits (n / 10) ((48 + n % 10) ∷ bs) ≡ read_digits n bs =
        read_digit (n / 10) (n % 10) bs (omega arith) ∙ ap (λ a. read_digits a bs) (omega arith) in
      rw (e, append_assoc) (front ∙ last)
]
