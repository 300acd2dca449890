-- ===== src/PerlBridge/Messages.antt =====
-- The text of a Perl exception.
use blade_psgi.Base.{
  ℕ, ◌≡◌, refl, ap, inl, inr, Bool, true, false, ◌||◌, [], ◌∷◌, ◌++◌, All, Bool-cases, ◌==◌,
  if◌then◌else◌, take,
}
use blade_psgi.Base.Bytes.{Bytes}
use blade_psgi.PerlBridge.{strip}

abbrev pub is_break : ℕ → Bool
is_break b = b == 13 || b == 10

-- Not empty, and with a last byte that is no line break; or empty.
abbrev pub IsStripped : Bytes → Type 0
IsStripped [] = Unit
IsStripped (b ∷ []) = is_break b ≡ false
IsStripped (b ∷ c ∷ cs) = IsStripped (c ∷ cs)

-- One byte more in front of a text whose rest is stripped already.
abbrev more : ℕ → Bytes → Bytes
more b [] = if is_break b then [] else b ∷ []
more b (c ∷ cs) = b ∷ c ∷ cs

strip_more :
    (b : ℕ) (bs kept rest : Bytes)
    → IsStripped kept
    → bs ≡ kept ++ rest
    → All (λ c. is_break c ≡ true) rest
    → IsStripped (more b kept)
      × (rest' : Bytes) × (b ∷ bs ≡ more b kept ++ rest')
      × All (λ c. is_break c ≡ true) rest'
strip_more b bs (c ∷ cs) rest fine e breaks = (fine, rest, ap (λ t. b ∷ t) e, breaks)
strip_more b bs [] rest fine e breaks = elim (Bool-cases (is_break b)) [
  | inl q ↦ rw q (tt, b ∷ rest, ap (λ t. b ∷ t) e, (q, breaks))
  | inr q ↦ rw q (q, rest, ap (λ t. b ∷ t) e, breaks)
]

-- The text of a Perl exception is what Perl gave without the line breaks at its end: the rest
-- consists of carriage returns and newlines, and the text does not end in one.
strip-IsStripped :
    (text : Bytes)
    → IsStripped (strip text)
      × (rest : Bytes) × (text ≡ strip text ++ rest)
      × All (λ b. is_break b ≡ true) rest
unfolding strip
strip-IsStripped [] = (tt, [], refl, tt)
strip-IsStripped (b ∷ bs) =
    let (fine, rest, e, breaks) = strip-IsStripped bs in
    strip_more b bs (strip bs) rest fine e breaks

-- The text of a PerlInterpreterException, from the error: its first 4095 bytes, without the line
-- breaks at their end.
pub record IsTextOf (error text : Bytes) : Type 0 where
  pub rest : Bytes
  pub cut : take 4095 error ≡ text ++ rest
  pub breaks : All (λ b. is_break b ≡ true) rest
  pub stripped : IsStripped text

pub strip-IsTextOf : (error : Bytes) → IsTextOf error (strip (take 4095 error))
strip-IsTextOf error =
    let (stripped, rest, cut, breaks) = strip-IsStripped (take 4095 error) in
    record { rest = rest; cut = cut; breaks = breaks; stripped = stripped }
