-- ===== src/Logging/Reader.antt =====
-- A reader of the log, which gets back what was logged.
use native.Mathlib.Nat.{pow-suc}
use blade_psgi.Base.{
  ℕ, zero, suc, ◌+◌, ◌-◌, ◌/◌, ◌%◌, ◌^◌, ◌≤◌, ◌<◌, ◌≡◌, refl, ap, ◌∙◌, Bool, true, false, Option,
  none, some, List, [], ◌∷◌, ◌++◌, append_assoc, arith, leb, ltb, ◌==◌, length, length-append,
  length-replicate, replicate, take, if◌then◌else◌, Bool-cases, inl, inr,
}
use blade_psgi.Base.Bytes.{Bytes}
use blade_psgi.Base.Decimal.{digits, decimal, read_digits, is_digit, read_digits-digits, positive}
use blade_psgi.Base.Outcome.{ok}
use blade_psgi.MainApp.{LogSeverity, ls_log, ls_warning, ls_error, ls_fatal, ls_panic}
use blade_psgi.Logging.{LocalTime, now, padded_decimal, time_text, severity_text, write_log}

-- Numbers, each with the byte behind it.
abbrev pub after_number : ℕ → ℕ × Bytes → Option (ℕ × Bytes)
after_number sep (n, []) = none
after_number sep (n, c ∷ rest) = if c == sep then some (n, rest) else none

abbrev pub read_number : ℕ → Bytes → Option (ℕ × Bytes)
read_number sep bs = after_number sep (read_digits 0 bs)

read_zeros : (k : ℕ) (bs : Bytes) → read_digits 0 (replicate k b'0' ++ bs) ≡ read_digits 0 bs
unfolding read_digits
read_zeros zero bs = refl
read_zeros (suc k) bs = read_zeros k bs

read_padded :
    (width n sep : ℕ) (rest : Bytes)
    → n < 10 ^ 20
    → is_digit sep ≡ false
    → read_digits 0 (padded_decimal width n ++ sep ∷ rest) ≡ (n, sep ∷ rest)
unfolding read_digits
read_padded width n sep rest h s =
    let zeros = read_zeros (width - length (decimal n)) (decimal n ++ sep ∷ rest) in
    let value = read_digits-digits 20 n (sep ∷ rest) (omega arith) h in
    rw (append_assoc, zeros, value, s) refl

abbrev pub with_number {ℓ} : {E : Type ℓ} → ℕ → Bytes → (ℕ → Bytes → Option E) → Option E
with_number sep bs k = elim (read_number sep bs) [ none ↦ none | some r ↦ k r.0 r.1 ]

with_number-padded {ℓ} :
    {E : Type ℓ}
    → (width n sep : ℕ) (rest : Bytes) (k : ℕ → Bytes → Option E) → n < 10 ^ 20
    → is_digit sep ≡ false
    → (sep == sep) ≡ true
    → with_number sep (padded_decimal width n ++ sep ∷ rest) k ≡ k n rest
with_number-padded {E = E} width n sep rest k h s e =
    let read : read_number sep (padded_decimal width n ++ sep ∷ rest) ≡ some (n, rest) =
      ap (after_number sep) (read_padded width n sep rest h s)
      ∙ ap (λ (b : Bool). if b then some (n, rest) else none) e in
    ap (λ (o : Option (ℕ × Bytes)). elim o as (λ p. Option E) [ none ↦ none | some r ↦ k r.0 r.1 ])
      read

-- What is behind a given text.
abbrev pub strip_prefix : Bytes → Bytes → Option Bytes
strip_prefix [] bs = some bs
strip_prefix (c ∷ cs) [] = none
strip_prefix (c ∷ cs) (b ∷ bs) = let rest = strip_prefix cs bs in if c == b then rest else none

abbrev pub first_severity : List LogSeverity → Bytes → Option (LogSeverity × Bytes)
first_severity [] bs = none
first_severity (severity ∷ severities) bs =
    let others = first_severity severities bs in
    elim (strip_prefix (severity_text severity) bs) [
      | none ↦ others
      | some rest ↦ some (severity, rest)
    ]

abbrev pub read_severity : Bytes → Option (LogSeverity × Bytes)
read_severity = first_severity (ls_log ∷ ls_warning ∷ ls_error ∷ ls_fatal ∷ ls_panic ∷ [])

read_severity-text :
    (severity : LogSeverity) (rest : Bytes)
    → read_severity (severity_text severity ++ rest) ≡ some (severity, rest)
read_severity-text ls_log rest = refl
read_severity-text ls_warning rest = refl
read_severity-text ls_error rest = refl
read_severity-text ls_fatal rest = refl
read_severity-text ls_panic rest = refl

-- A line of the log: the date and the time with its milliseconds, the severity, and the message with
-- the newline.
pub record Entry : Type 0 where
  pub year : ℕ
  pub month : ℕ
  pub day : ℕ
  pub hour : ℕ
  pub minute : ℕ
  pub second : ℕ
  pub fractional : ℕ
  pub severity : LogSeverity
  pub logged : Bytes

unfoldable pub read_entry : Bytes → Option Entry
read_entry line = with_number b'-' line λ year r. with_number b'-' r λ month r.
    with_number b' ' r λ day r. with_number b':' r λ hour r. with_number b':' r λ minute r.
      with_number b'.' r λ second r. with_number b' ' r λ fractional r. elim (read_severity r) [
        | none ↦ none
        | some s ↦ some (record {
          year = year;
          month = month;
          day = day;
          hour = hour;
          minute = minute;
          second = second;
          fractional = fractional;
          severity = s.0;
          logged = s.1;
        })
      ]

-- A year that an int can hold, and the other numbers of at most two digits.
abbrev pub IsTime : LocalTime → Type 0
IsTime t =
    (t.tm_year + 1900 < 2 ^ 31)
    × (t.tm_mon < 12)
    × (t.tm_mday ≤ 31)
    × (t.tm_hour < 24)
    × (t.tm_min < 60)
    × (t.tm_sec ≤ 60)

length-digits : (f k n : ℕ) → 0 < k → n < 10 ^ k → length (digits f n) ≤ k
unfolding digits
length-digits zero k n p h = omega arith
length-digits (suc f) zero n p h = absurd (omega arith)
length-digits (suc f) (suc k) n p h = elim (Bool-cases (ltb n 10)) [
  | inl e ↦ rw e (omega arith)
  | inr e ↦
      let shorter =
        length-digits f k (n / 10) (positive k n h (ground arith)) (omega (arith, pow-suc 10 k)) in
      rw e (omega (arith, shorter, length-append (digits f (n / 10)) ((48 + n % 10) ∷ [])))
]

length-padded :
    (width k n : ℕ) → 0 < k → width ≤ k → n < 10 ^ k → length (padded_decimal width n) ≤ k
length-padded width k n p w h = omega (
  arith,
  length-append (replicate (width - length (decimal n)) b'0') (decimal n),
  length-replicate {A = ℕ} (width - length (decimal n)) b'0',
  length-digits 20 k n p h,
)

-- The text of the time is short enough for its buffer of 40 bytes.
length-time_text :
    (t : LocalTime) (ms : ℕ) → IsTime t → ms < 1000 → leb 40 (length (time_text t ms)) ≡ false
length-time_text t ms h m = ground (
  arith,
  length-append (padded_decimal 4 (t.tm_year + 1900)) (b'-' ∷ from_month),
  length-append (padded_decimal 2 (t.tm_mon + 1)) (b'-' ∷ from_day),
  length-append (padded_decimal 2 t.tm_mday) (b' ' ∷ from_hour),
  length-append (padded_decimal 2 t.tm_hour) (b':' ∷ from_minute),
  length-append (padded_decimal 2 t.tm_min) (b':' ∷ from_second),
  length-append (padded_decimal 2 t.tm_sec) (b'.' ∷ from_fraction),
  length-append (padded_decimal 3 ms) (b' ' ∷ []),
  length-padded 4 10 (t.tm_year + 1900) (omega arith) (omega arith) (omega (arith, h)),
  length-padded 2 2 (t.tm_mon + 1) (omega arith) (omega arith) (omega (arith, h)),
  length-padded 2 2 t.tm_mday (omega arith) (omega arith) (omega (arith, h)),
  length-padded 2 2 t.tm_hour (omega arith) (omega arith) (omega (arith, h)),
  length-padded 2 2 t.tm_min (omega arith) (omega arith) (omega (arith, h)),
  length-padded 2 2 t.tm_sec (omega arith) (omega arith) (omega (arith, h)),
  length-padded 3 3 ms (omega arith) (omega arith) m,
)
  where
    from_fraction : Bytes
    from_fraction = padded_decimal 3 ms ++ b' ' ∷ []

    from_second : Bytes
    from_second = padded_decimal 2 t.tm_sec ++ (b'.' ∷ from_fraction)

    from_minute : Bytes
    from_minute = padded_decimal 2 t.tm_min ++ (b':' ∷ from_second)

    from_hour : Bytes
    from_hour = padded_decimal 2 t.tm_hour ++ (b':' ∷ from_minute)

    from_day : Bytes
    from_day = padded_decimal 2 t.tm_mday ++ (b' ' ∷ from_hour)

    from_month : Bytes
    from_month = padded_decimal 2 (t.tm_mon + 1) ++ (b'-' ∷ from_day)

-- Whatever the severity and the message: with a time that localtime can give and fewer than
-- 1000 milliseconds, `Log` does not throw, and
-- writes one line, from which a reader gets back the date, the time, the severity and the first
-- 2047 bytes of the message, with the newline.
pub write_log-read_entry :
    (milliseconds : ℕ → ℕ) (t : LocalTime) (usec : ℕ) (severity : LogSeverity) (message : Bytes)
    (out : List Bytes)
    → IsTime t
    → milliseconds usec < 1000
    → (line : Bytes) × (write_log milliseconds (now t usec) severity message out
        ≡ (ok tt, out ++ line ∷ []))
      × (read_entry line
          ≡ some (record {
            year = t.tm_year + 1900;
            month = t.tm_mon + 1;
            day = t.tm_mday;
            hour = t.tm_hour;
            minute = t.tm_min;
            second = t.tm_sec;
            fractional = milliseconds usec;
            severity = severity;
            logged = take 2047 message ++ 10 ∷ [];
          }))
unfolding write_log read_entry
write_log-read_entry milliseconds t usec severity message out h m =
    let ms = milliseconds usec in
    let rest = severity_text severity ++ (take 2047 message ++ 10 ∷ []) in
    let r6 = padded_decimal 3 ms ++ b' ' ∷ rest in
    let r5 = padded_decimal 2 t.tm_sec ++ b'.' ∷ r6 in
    let r4 = padded_decimal 2 t.tm_min ++ b':' ∷ r5 in
    let r3 = padded_decimal 2 t.tm_hour ++ b':' ∷ r4 in
    let r2 = padded_decimal 2 t.tm_mday ++ b' ' ∷ r3 in
    let r1 = padded_decimal 2 (t.tm_mon + 1) ++ b'-' ∷ r2 in
    let whole : time_text t ms ++ rest ≡ padded_decimal 4 (t.tm_year + 1900) ++ b'-' ∷ r1 =
      simp append_assoc refl in
    (
      time_text t ms ++ rest,
      rw (length-time_text t ms h m) refl,
      ap read_entry whole
          ∙ with_number-padded 4 (t.tm_year + 1900) b'-' r1 _ (omega (arith, h)) refl refl
          ∙ with_number-padded 2 (t.tm_mon + 1) b'-' r2 _ (omega (arith, h)) refl refl
          ∙ with_number-padded 2 t.tm_mday b' ' r3 _ (omega (arith, h)) refl refl
          ∙ with_number-padded 2 t.tm_hour b':' r4 _ (omega (arith, h)) refl refl
          ∙ with_number-padded 2 t.tm_min b':' r5 _ (omega (arith, h)) refl refl
          ∙ with_number-padded 2 t.tm_sec b'.' r6 _ (omega (arith, h)) refl refl
          ∙ with_number-padded 3 ms b' ' rest _ (omega (arith, m)) refl refl
          ∙ rw (read_severity-text severity (take 2047 message ++ 10 ∷ [])) refl,
    )
