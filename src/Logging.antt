-- ===== src/Logging.antt =====
-- `BPSGIMainApplication::Log` and `LogPanic` of src/bladepsgi.cpp. The state is what the process has written to stderr.
-- The message is the text that vsnprintf makes of the format and its arguments; the milliseconds, which
-- the code computes in doubles, are a parameter.
pub mod Reader
use blade_psgi.Base.{
  ℕ, ◌+◌, ◌-◌, ◌≡◌, Bool, true, false, List, [], ◌∷◌, ◌++◌, leb, length, replicate, take,
  if◌then◌else◌,
}
use blade_psgi.Base.Bytes.{Bytes, codes}
use blade_psgi.Base.Decimal.{decimal}
use blade_psgi.Base.Outcome.{
  syscall_failed, logic_error, Outcome, ok, throw, aborted, M, ◌>>=◌, ◌>>◌, throw_if,
}
use blade_psgi.MainApp.{LogSeverity, ls_log, ls_warning, ls_error, ls_fatal, ls_panic}

-- What localtime gives for a time since the epoch.
pub record LocalTime : Type 0 where
  pub tm_year : ℕ
  pub tm_mon : ℕ
  pub tm_mday : ℕ
  pub tm_hour : ℕ
  pub tm_min : ℕ
  pub tm_sec : ℕ

-- gettimeofday: the local time with the microseconds, or `errno`.
pub data Clock : Type 0 where
  now : LocalTime → ℕ → Clock
  clock_failed : ℕ → Clock

-- "%0<width>d"
abbrev pub padded_decimal : ℕ → ℕ → Bytes
padded_decimal width n = replicate (width - length (decimal n)) b'0' ++ decimal n

-- "%04d-%02d-%02d %02d:%02d:%02d.%03d "
abbrev pub time_text : LocalTime → ℕ → Bytes
time_text t fractional =
    padded_decimal 4 (t.tm_year + 1900)
    ++ (b'-' ∷ padded_decimal 2 (t.tm_mon + 1)
        ++ (b'-' ∷ padded_decimal 2 t.tm_mday
            ++ (b' ' ∷ padded_decimal 2 t.tm_hour
                ++ (b':' ∷ padded_decimal 2 t.tm_min
                    ++ (b':' ∷ padded_decimal 2 t.tm_sec
                        ++ (b'.' ∷ padded_decimal 3 fractional ++ b' ' ∷ []))))))

abbrev pub severity_text : LogSeverity → Bytes
severity_text ls_log = codes "LOG:  "
severity_text ls_warning = codes "WARNING:  "
severity_text ls_error = codes "ERROR:  "
severity_text ls_fatal = codes "FATAL:  "
severity_text ls_panic = codes "PANIC:  "

abbrev pub write_line : Bytes → M (List Bytes) (Unit {0})
write_line line out = (ok tt, out ++ line ∷ [])

module _ (milliseconds : ℕ → ℕ) where
  unfoldable pub write_log : Clock → LogSeverity → Bytes → M (List Bytes) (Unit {0})
  write_log (clock_failed errno) severity message out =
      (throw (syscall_failed (codes "gettimeofday") errno), out)
  write_log (now t usec) severity message out =
      (do
        let timestr = time_text t (milliseconds usec)
        throw_if (leb 40 (length timestr)) (logic_error (codes "unexpected snprintf return value"))
        write_line (timestr ++ (severity_text severity ++ (take 2047 message ++ 10 ∷ []))))
        out

-- `LogPanic`, which is not implemented.
unfoldable pub log_panic : Bytes → M (List Bytes) (Unit {0})
log_panic message out = (aborted, out)
