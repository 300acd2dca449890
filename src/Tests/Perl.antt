-- ===== src/Tests/Perl.antt =====
-- A small Perl, and the uses of its interpreter.
use blade_psgi.Base.{
  ℕ, ◌+◌, ◌≡◌, refl, true, false, none, some, List, [], ◌∷◌, ◌++◌, ◌==◌, if◌then◌else◌,
}
use blade_psgi.Base.Bytes.{Bytes, codes, same}
use blade_psgi.Base.Outcome.{ok, return}
use blade_psgi.PerlGlue.{
  Sv, undef, code_ref, other_ref, plain, Called, PerlLib, Callback, Glue, callback_init,
  callback_call, callback_call_and_receive_callback,
}
use blade_psgi.PerlGlue.Balance.{Request, load_text, call, receive, serve, serve_all}
use blade_psgi.PerlInterpreter.{
  PerlProcess, load_callback, load_callback_from_cstring, call_and_receive_callback,
  initialize_perl_interpreter,
}
use blade_psgi.PerlInterpreter as Interpreter
use blade_psgi.PerlInterpreter.Reports.{Reports, callbacks-Report}
use blade_psgi.PerlInterpreter.Life.{Made, initialize_perl_interpreter-Made}

abbrev fine : Sv → Called
fine sv = record { value = sv; errsv = none; errno = 0 }

abbrev died : Bytes → Called
died message = record { value = undef; errsv = some message; errno = 0 }

-- Every source gives subroutine 1, which gives subroutine 2, which returns 1; the others die. The state
-- counts the calls.
abbrev run_code : Sv → Called
run_code undef = died (codes "not a subroutine")
run_code (code_ref n) =
    if n == 1
    then fine (code_ref 2)
    else if n == 2
    then fine (plain (codes "1"))
    else died (codes "broken" ++ 10 ∷ [])
run_code (other_ref n) = died (codes "not a subroutine")
run_code (plain text) = died (codes "not a subroutine")

abbrev perl : PerlLib ℕ
perl = record {
  perl_alloc = return true;
  perl_construct = return tt;
  perl_parse = λ args. return 0;
  perl_run = return 0;
  eval_pv = λ text croak p. (ok (fine (code_ref 1)), p + 1);
  call_pv = λ name argument p. (ok (fine (code_ref 1)), p + 1);
  call_sv = λ sv ctx p. (ok (run_code sv), p + 1);
  perl_destruct = return tt;
}

abbrev no_text : ℕ → Bytes
no_text errno = []

abbrev glue : Glue ℕ
glue = record {
  perl = 0;
  perl_args = [];
  destruct_end = false;
  origalen = 0;
  scopes = 0;
  references = [];
  callbacks = [];
}

abbrev callback : ℕ → Callback
callback n = record { bladepsgictx = 0; sv = code_ref n }

abbrev requests : List Request
requests =
    load_text 0 (codes "sub { }")
    ∷ receive (callback 1)
    ∷ call (callback 2)
    ∷ call (callback 2)
    ∷ call (callback 3)
    ∷ call (callback 3)
    ∷ []

-- Two calls have failed, so two scopes are open.
leaks : (serve_all perl no_text requests glue).1.scopes ≡ 2
unfolding serve_all serve callback_init callback_call callback_call_and_receive_callback same
leaks = refl

callbacks-Report_example :
    Reports
      (callback_init perl no_text 0 (codes "app.psgi") (codes "do") glue)
      (load_callback perl no_text 0 (codes "app.psgi") glue)
    × Reports
        (callback_init perl no_text 0 (codes "app.psgi") (codes "eval") glue)
        (load_callback_from_cstring perl no_text 0 (codes "app.psgi") glue)
    × Reports (callback_call perl (callback 2) glue) (Interpreter.call perl (callback 2) glue)
    × Reports
        (callback_call_and_receive_callback perl (callback 2) glue)
        (call_and_receive_callback perl (callback 2) glue)
callbacks-Report_example = callbacks-Report perl no_text 0 (codes "app.psgi") (callback 2) glue

abbrev process : PerlProcess ℕ
process = record { glue = glue; has_perl_interpreter = false; interpreter = none }

initialize_perl_interpreter-Made_example : Made perl 7 (initialize_perl_interpreter perl 7 process)
initialize_perl_interpreter-Made_example = initialize_perl_interpreter-Made perl 7 process refl refl
