-- ===== src/Tests/Texts.antt =====
-- Exceptions, the log, and the texts of the FastCGI wrapper.
use blade_psgi.Base.{ℕ, ◌/◌, ◌≡◌, refl, none, some, [], ◌∷◌, ◌++◌, arith}
use blade_psgi.Base.Bytes.{Bytes, codes}
use blade_psgi.Base.Words.{ℤ}
use blade_psgi.Base.Outcome.{ok, aborted}
use blade_psgi.MainApp.{ls_warning}
use blade_psgi.Exceptions.{
  Heap, syscall_exception_strerror, destroy_syscall_exception, perl_exception,
  perl_exception_strerror, destroy_perl_exception,
}
use blade_psgi.Exceptions.Lifetime.{
  Lives, by_text, construct, explained, destroyed_twice, syscall-Lives, perl-Lives,
}
use blade_psgi.PerlBridge.Messages.{IsTextOf}
use blade_psgi.Logging.{LocalTime, now, write_log}
use blade_psgi.Logging.Reader.{read_entry, write_log-read_entry}
use blade_psgi.FastcgiWrapper.{module_path, header_text}
use blade_psgi.FastcgiWrapper.ModulePath.{module_path-join}
use blade_psgi.FastcgiWrapper.Headers.{crlf_lines, header_text-lines}

abbrev empty_heap : Heap
empty_heap = record { next = 0; cell = λ p. none }

abbrev no_text : ℤ → Bytes
no_text errno = []

syscall-Lives_example :
    Lives
      (explained no_text (by_text (codes "no such file")))
      (destroyed_twice (by_text (codes "no such file")))
      (syscall_exception_strerror no_text)
      destroy_syscall_exception
      empty_heap
      (construct (codes "open") (by_text (codes "no such file")) empty_heap)
syscall-Lives_example =
    syscall-Lives no_text (codes "open") (by_text (codes "no such file")) empty_heap (λ p h. refl)

abbrev died : Bytes
died = codes "died" ++ 10 ∷ []

perl-Lives_example :
    (kept : Bytes) × IsTextOf died kept
    × Lives
        (ok kept)
        (λ e. aborted)
        perl_exception_strerror
        destroy_perl_exception
        empty_heap
        (perl_exception died empty_heap)
perl-Lives_example = perl-Lives died empty_heap (λ p h. refl)

abbrev new_year : LocalTime
new_year = record { tm_year = 115; tm_mon = 0; tm_mday = 1; tm_hour = 0; tm_min = 0; tm_sec = 7 }

abbrev milliseconds : ℕ → ℕ
milliseconds usec = usec / 1000

write_log-read_entry_example :
    (line : Bytes) × (write_log milliseconds (now new_year 42000) ls_warning (codes "hello") []
      ≡ (ok tt, line ∷ []))
    × (read_entry line
        ≡ some (record {
          year = 2015;
          month = 1;
          day = 1;
          hour = 0;
          minute = 0;
          second = 7;
          fractional = 42;
          severity = ls_warning;
          logged = codes "hello" ++ 10 ∷ [];
        }))
write_log-read_entry_example =
    write_log-read_entry milliseconds new_year 42000 ls_warning (codes "hello") [] (omega arith)
      (omega arith)

module_path-join_example : module_path (codes "This::That") ≡ codes "This/That.pm"
module_path-join_example = module_path-join (codes "This" ∷ codes "That" ∷ []) (
  ((refl, refl), ((refl, refl), ((refl, refl), ((refl, refl), tt)))),
  (((refl, refl), ((refl, refl), ((refl, refl), ((refl, refl), tt)))), tt),
)

header_text-lines_example :
    crlf_lines (header_text (codes "200") (codes "OK") (codes "X" ∷ codes "1" ∷ []) ++ codes "hi")
    ≡ codes "Status: 200 OK" ∷ (codes "X: 1" ∷ ([] ∷ crlf_lines (codes "hi")))
header_text-lines_example =
    header_text-lines (codes "200") (codes "OK") ((codes "X", codes "1") ∷ []) (codes "hi")
      (refl, (refl, (refl, tt))) (refl, (refl, tt)) (((refl, tt), (refl, tt)), tt)
