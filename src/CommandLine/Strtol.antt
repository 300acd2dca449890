-- ===== src/CommandLine/Strtol.antt =====
-- `strtol(str, &endptr, 10)` of the C library, for a 64-bit long: the value, and the text at
-- `endptr`.
use blade_psgi.Base.{
  ℕ, zero, suc, ◌+◌, ◌-◌, ◌/◌, ◌%◌, ◌^◌, ◌<◌, ◌≤◌, ◌≡◌, refl, Bool, true, false, ◌||◌, ◌&&◌, [],
  ◌∷◌, ◌++◌, append-nil, arith, leb, ltb, ◌==◌, if◌then◌else◌, Bool-cases, inl, inr,
}
use blade_psgi.Base.Bytes.{Bytes}
use blade_psgi.Base.Words.{ℤ, pos, negsuc}
use blade_psgi.Base.Decimal.{digits, print_int, is_digit, read_digits, read_digits-digits, positive}
use native.Mathlib.Nat.{pow-suc}

abbrev pub is_space : ℕ → Bool
is_space b = b == 32 || leb 9 b && leb b 13

unfoldable pub skip_space : Bytes → Bytes
skip_space [] = []
skip_space (b ∷ bs) = let rest = skip_space bs in if is_space b then rest else b ∷ bs

-- Out of range, the nearest long.
abbrev pub saturated : Bool → ℕ → ℤ
saturated false n = if ltb n (2 ^ 63) then pos n else pos (2 ^ 63 - 1)
saturated true zero = pos 0
saturated true (suc n) = if ltb n (2 ^ 63) then negsuc n else negsuc (2 ^ 63 - 1)

-- The digits behind the sign; without one, `endptr` is the start of the text.
abbrev pub number : Bytes → Bool → Bytes → ℤ × Bytes
number str negative [] = (pos 0, str)
number str negative (b ∷ bs) =
    let r = read_digits 0 (b ∷ bs) in
    if is_digit b then (saturated negative r.0, r.1) else (pos 0, str)

abbrev pub signed : Bytes → Bytes → ℤ × Bytes
signed str [] = (pos 0, str)
signed str (b ∷ bs) =
    if b == b'-'
    then number str true bs
    else if b == b'+'
    then number str false bs
    else number str false (b ∷ bs)

unfoldable pub strtol : Bytes → ℤ × Bytes
strtol str = signed str (skip_space str)

digits_head :
    (f n : ℕ)
    → 0 < f
    → n < 10 ^ f
    → (b : ℕ) × (bs : Bytes) × (digits f n ≡ b ∷ bs) × (48 ≤ b) × (b ≤ 57)
unfolding digits
digits_head zero n p h = absurd (omega arith)
digits_head (suc f) n p h = elim (Bool-cases (ltb n 10)) [
  | inl e ↦ rw e (48 + n, [], refl, omega arith, ground arith)
  | inr e ↦
      let (b, bs, d, lo, hi) =
        digits_head f (n / 10) (positive f n h (ground arith)) (omega (arith, pow-suc 10 f)) in
      rw (e, d) (b, bs ++ (48 + n % 10) ∷ [], refl, lo, hi)
]

-- An integer that a long can hold.
abbrev pub IsLong : ℤ → Type 0
IsLong (pos n) = n < 2 ^ 63
IsLong (negsuc n) = n < 2 ^ 63

strtol_of_digits :
    (b : ℕ) (bs : Bytes) (n : ℕ)
    → 48 ≤ b
    → b ≤ 57
    → n < 2 ^ 63
    → read_digits 0 (b ∷ bs) ≡ (n, [])
    → strtol (b ∷ bs) ≡ (pos n, [])
unfolding strtol skip_space
strtol_of_digits b bs n lo hi small r = ground (arith, r)

strtol_of_minus :
    (b : ℕ) (bs : Bytes) (n : ℕ)
    → 48 ≤ b
    → b ≤ 57
    → n < 2 ^ 63
    → read_digits 0 (b ∷ bs) ≡ (suc n, [])
    → strtol (b'-' ∷ b ∷ bs) ≡ (negsuc n, [])
unfolding strtol skip_space
strtol_of_minus b bs n lo hi small r = ground (arith, r)

-- What a stream prints of an int64_t is read by strtol as that number, to the end of the text.
pub strtol-print_int : (z : ℤ) → IsLong z → strtol (print_int z) ≡ (z, [])
unfolding read_digits
strtol-print_int (pos n) h =
    let (b, bs, d, lo, hi) = digits_head 20 n (omega arith) (omega arith) in
    let whole : read_digits 0 (digits 20 n ++ []) ≡ read_digits n [] =
      read_digits-digits 20 n [] (omega arith) (omega arith) in
    rw d (strtol_of_digits b bs n lo hi h (rw (append-nil, d) at whole))
strtol-print_int (negsuc n) h =
    let (b, bs, d, lo, hi) = digits_head 20 (suc n) (omega arith) (omega arith) in
    let whole : read_digits 0 (digits 20 (suc n) ++ []) ≡ read_digits (suc n) [] =
      read_digits-digits 20 (suc n) [] (omega arith) (omega arith) in
    rw d (strtol_of_minus b bs n lo hi h (rw (append-nil, d) at whole))
