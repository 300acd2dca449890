-- ===== src/CommandLine.antt =====
-- `main` of src/bladepsgi.cpp: the command line, and what is left to do when `Run` comes back. The
-- state is the list of what was printed. getopt_long is a parameter.
pub mod Strtol
pub mod Answers
pub mod Failure
use blade_psgi.Base.{
  ℕ, ◌+◌, ◌-◌, ◌≡◌, Bool, true, false, ◌||◌, Option, none, some, List, [], ◌∷◌, ◌++◌, leb, ltb,
  ◌==◌, length, get_elem?, if◌then◌else◌,
}
use blade_psgi.Base.Bytes.{Bytes, codes, same}
use blade_psgi.Base.Words.{ℤ, pos, negsuc}
use blade_psgi.Base.Outcome.{
  Exn, syscall_failed, syscall_failed_text, runtime_error, Outcome, ok, throw, exited, aborted, M,
  continue, ◌>>=◌, ◌>>◌, return, quit,
}
use Strtol.{strtol}
use blade_psgi.MainApp.{MainApp, sigquit, ls_fatal, text, log, ask_exit, kill_process_group}

-- What is printed: the usage to stdout or stderr, the version, or an error.
pub data Printed : Type 0 where
  usage version usage_error try_help out_of_range : Printed
  invalid_integer : Bytes → Printed

-- A value that getopt_long returns before -1, with its argument.
pub data Opt : Type 0 where
  question : Opt
  loader prefix : Bytes → Opt
  other : ℕ → Opt

-- What getopt_long did: its values, `optind`, and the arguments, which it permutes.
pub record Getopt : Type 0 where
  pub returned : List Opt
  pub optind : ℕ
  pub argv : List Bytes

pub record Config : Type 0 where
  pub psgi_application_path : Bytes
  pub nworkers : ℕ
  pub application_loader : Option Bytes
  pub fastcgi_socket_path : Bytes
  pub stats_socket_path : Bytes
  pub process_title_prefix : Bytes

abbrev pub print : Printed → M (List Printed) (Unit {0})
print p out = (ok tt, out ++ p ∷ [])

-- The tests of `argv[1]`, for `argc > 1`.
unfoldable pub first_argument : Option Bytes → M (List Printed) (Unit {0})
first_argument none = return tt
first_argument (some arg) =
    if same arg (codes "--help") || same arg (codes "-?") || same arg (codes "-h")
    then print usage >> quit 0
    else if same arg (codes "-v") || same arg (codes "--version")
    then print version >> quit 0
    else return tt

-- The loop over the options: the loader and the prefix of the titles.
unfoldable pub options : List Opt → Option Bytes × Bytes → M (List Printed) (Option Bytes × Bytes)
options [] o out = (ok o, out)
options (question ∷ opts) o out = (print usage >> quit 0) out
options (loader arg ∷ opts) o out = options opts (some arg, o.1) out
options (prefix arg ∷ opts) o out = options opts (o.0, arg) out
options (other c ∷ opts) o out = (print try_help >> quit 1) out

-- `argv[i]`, for an index in range.
abbrev pub argument : List Bytes → ℕ → Bytes
argument argv i = elim (get_elem? argv i) [ none ↦ [] | some arg ↦ arg ]

-- `optind != argc - 4`
abbrev pub check_count : Bool → M (List Printed) (Unit {0})
check_count true = return tt
check_count false = print usage_error >> quit 1

-- `*endptr != '\0'`, and the tests of the range.
abbrev pub worker_count : Bytes → ℤ × Bytes → M (List Printed) ℕ
worker_count str (value, c ∷ rest) = print (invalid_integer str) >> (print usage_error >> quit 1)
worker_count str (negsuc n, []) = print out_of_range >> quit 1
worker_count str (pos n, []) =
    if n == 0 || ltb 65536 n then print out_of_range >> quit 1 else return n

module _ (getopt_long : List Bytes → Getopt) where
  unfoldable pub parse_arguments : List Bytes → M (List Printed) Config
  parse_arguments argv = do
    first_argument (get_elem? argv 1)
    let g = getopt_long argv
    opts ← options g.returned (none, codes "Blade")
    check_count (g.optind + 4 == length g.argv)
    let argc = length g.argv
    let str = argument g.argv (argc - 3)
    n ← worker_count str (strtol str)
    return (record {
      psgi_application_path = argument g.argv (argc - 4);
      nworkers = n;
      application_loader = opts.0;
      fastcgi_socket_path = argument g.argv (argc - 2);
      stats_socket_path = argument g.argv (argc - 1);
      process_title_prefix = opts.1;
    })

-- The handlers around `mainapp->Run()`, and the end of `main`. Other exceptions have no handler.
abbrev pub fatal : Bytes → M MainApp (Unit {0})
fatal message = do won ← ask_exit; if won then log ls_fatal (text message) else return tt

abbrev pub give_up : M MainApp (Unit {0})
give_up = do kill_process_group sigquit; quit 1

abbrev pub system_call_failed : Bytes → Bytes → Bytes
system_call_failed call error = codes "system call " ++ call ++ codes " failed: " ++ error

-- `strerror` gives the text of an `errno`.
unfoldable pub after_run : (ℕ → Bytes) → Outcome ℕ × MainApp → Outcome (Unit {0}) × MainApp
after_run strerror (ok n, s) = give_up s
after_run strerror (throw (syscall_failed call errno), s) =
    (fatal (system_call_failed call (strerror errno)) >> give_up) s
after_run strerror (throw (syscall_failed_text call error), s) =
    (fatal (system_call_failed call error) >> give_up) s
after_run strerror (throw (runtime_error error), s) = (fatal error >> give_up) s
after_run strerror (throw e, s) = (aborted, s)
after_run strerror (exited n, s) = (exited n, s)
after_run strerror (aborted, s) = (aborted, s)
