-- ===== src/Tests/Console.antt =====
-- A command line, the title of a process, and the texts of errors.
use blade_psgi.Base.{
  ℕ, ◌+◌, ◌^◌, ◌<◌, ◌≡◌, refl, ◌⊎◌, none, some, List, [], ◌∷◌, ◌++◌, arith, get_elem?, take,
}
use blade_psgi.Base.Bytes.{Bytes, codes, same}
use blade_psgi.Base.Words.{pos}
use blade_psgi.Base.Decimal.{decimal}
use blade_psgi.Base.Outcome.{ok, exited, throw, syscall_failed}
use blade_psgi.Shmem.Memory.{Mem}
use blade_psgi.MainApp.{new_main_app}
use blade_psgi.MainApp.Kill.{targets}
use blade_psgi.MainApp.Deaths.{EndsProgram}
use blade_psgi.Startup.{end_early}
use blade_psgi.CommandLine.{
  Getopt, first_argument, options, loader, parse_arguments, after_run, system_call_failed,
}
use blade_psgi.CommandLine.Answers.{IsAnswer, parse_arguments-IsAnswer, parse_arguments-decimal}
use blade_psgi.CommandLine.Failure.{reason, after_run-EndsProgram}
use blade_psgi.Process.Title.{
  Argument, arguments_end, full_title, set_process_title, Holds, room, set_process_title-Holds,
}
use blade_psgi.PerlBridge.{cb_new_semaphore}
use blade_psgi.PerlBridge.Errors.{IsReported, cb_new_semaphore-IsReported}
use blade_psgi.Tests.Sems.{byte_sems}
use blade_psgi.Tests.Segment.{shm}

abbrev command_line : List Bytes
command_line =
    codes "bladepsgi"
    ∷ codes "--loader=L"
    ∷ codes "app.psgi"
    ∷ decimal 12
    ∷ codes "app.sock"
    ∷ codes "stats.sock"
    ∷ []

abbrev getopt : List Bytes → Getopt
getopt argv = record { returned = loader (codes "L") ∷ []; optind = 2; argv = argv }

parse_arguments-IsAnswer_example : IsAnswer (parse_arguments getopt command_line [])
parse_arguments-IsAnswer_example = parse_arguments-IsAnswer getopt command_line

no_help : first_argument (get_elem? command_line 1) [] ≡ (ok tt, [])
unfolding first_argument same
no_help = refl

with_loader :
    options (loader (codes "L") ∷ []) (none, codes "Blade") []
    ≡ (ok (some (codes "L"), codes "Blade"), [])
unfolding options
with_loader = refl

parse_arguments-decimal_example : parse_arguments getopt command_line [] ≡ (
  ok (record {
    psgi_application_path = codes "app.psgi";
    nworkers = 12;
    application_loader = some (codes "L");
    fastcgi_socket_path = codes "app.sock";
    stats_socket_path = codes "stats.sock";
    process_title_prefix = codes "Blade";
  }),
  [],
)
parse_arguments-decimal_example =
    parse_arguments-decimal getopt command_line (codes "bladepsgi" ∷ codes "--loader=L" ∷ [])
      (codes "app.psgi") (codes "app.sock") (codes "stats.sock") 12
      (some (codes "L"), codes "Blade") no_help refl refl with_loader (omega arith) (omega arith)

abbrev errors : ℕ → Bytes
errors errno = codes "Permission denied"

after_run-EndsProgram_example :
    let m = system_call_failed (codes "bind") (codes "Permission denied") in
    EndsProgram
      (targets (new_main_app shm))
      (reason (new_main_app shm) m)
      (new_main_app shm)
      (after_run errors (throw (syscall_failed (codes "bind") 13), new_main_app shm))
    × (end_early m none ≡ (exited 1, (none, m ∷ [])))
after_run-EndsProgram_example =
    after_run-EndsProgram errors (syscall_failed (codes "bind") 13)
      (system_call_failed (codes "bind") (codes "Permission denied")) (new_main_app shm) refl
      (omega arith)

-- "bladepsgi" at 1000, "x" behind it, and the environment behind both.
abbrev name : Argument
name = record { address = 1000; len = 9 }

abbrev others : List Argument
others = record { address = 1010; len = 1 } ∷ []

abbrev blank : Mem
blank q = 0

low : arguments_end 1009 others + 2 < 2 ^ 64
unfolding arguments_end
low = omega arith

set_process_title-Holds_example :
    let end = arguments_end 1009 others in
    let t = set_process_title (codes "Blade") name others 1012 (codes "overseer") blank in
    Holds t 1000
      (take (room 1000 end 1012) (full_title (codes "Blade") (codes "overseer")) ++ 0 ∷ [])
    × ((q : ℕ) → (q < 1000) ⊎ (end < q) → t q ≡ blank q)
set_process_title-Holds_example =
    set_process_title-Holds (codes "Blade") name others 1012 (codes "overseer") blank (omega arith)
      low

cb_new_semaphore-IsReported_example :
    IsReported (codes "gate") shm (cb_new_semaphore byte_sems errors (codes "gate") (pos 0) shm)
cb_new_semaphore-IsReported_example =
    cb_new_semaphore-IsReported byte_sems errors (codes "gate") (pos 0) shm
