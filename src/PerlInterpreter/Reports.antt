-- ===== src/PerlInterpreter/Reports.antt =====
-- How the errors of the glue become exceptions.
use blade_psgi.Base.{ℕ, ◌≡◌, refl, take}
use blade_psgi.Base.Bytes.{Bytes, codes}
use blade_psgi.Base.Outcome.{perl_error, Outcome, ok, throw, exited, aborted, continue}
use blade_psgi.PerlBridge.{strip, perl_interpreter_exception}
use blade_psgi.PerlBridge.Messages.{IsTextOf, strip-IsTextOf}
use blade_psgi.PerlGlue.{
  PerlLib, Callback, Glue, Returned, success, failure, callback_init, callback_call,
  callback_call_and_receive_callback,
}
use blade_psgi.PerlInterpreter.{
  or_throw, same_text, load_callback, load_callback_from_cstring, call, call_and_receive_callback,
}

-- A call of the glue, and the call that reports it: what the first passes out is returned, its error is
-- thrown, and an end of the process stays one. Both leave the same state.
abbrev pub Reports : {A S : Type 0} → Outcome (Returned A) × S → Outcome A × S → Type 0
Reports (ok (success a), t) r = r ≡ (ok a, t)
Reports (ok (failure error), t) r =
    (text : Bytes) × (r ≡ (throw (perl_error text), t)) × IsTextOf error text
Reports (throw e, t) r = r ≡ (throw e, t)
Reports (exited n, t) r = r ≡ (exited n, t)
Reports (aborted, t) r = r ≡ (aborted, t)

or_throw-Reports :
    {A P : Type 0} (x : Outcome (Returned A) × Glue P) → Reports x (continue x (or_throw same_text))
unfolding perl_interpreter_exception
or_throw-Reports (ok (success a), t) = refl
or_throw-Reports (ok (failure error), t) = (strip (take 4095 error), refl, strip-IsTextOf error)
or_throw-Reports (throw e, t) = refl
or_throw-Reports (exited n, t) = refl
or_throw-Reports (aborted, t) = refl

module _ {P : Type 0} (lib : PerlLib P) (strerror : ℕ → Bytes) where
  -- LoadCallback, LoadCallbackFromCString, Call and CallAndReceiveCallback report what the glue does:
  -- they return what it passes out, and otherwise throw a PerlInterpreterException, whose text is the
  -- first 4095 bytes of the error without the carriage returns and newlines at their end.
  pub callbacks-Report :
      (ctx : ℕ) (source : Bytes) (p : Callback) (g : Glue P)
      → Reports
          (callback_init lib strerror ctx source (codes "do") g)
          (load_callback lib strerror ctx source g)
        × Reports
            (callback_init lib strerror ctx source (codes "eval") g)
            (load_callback_from_cstring lib strerror ctx source g)
        × Reports (callback_call lib p g) (call lib p g)
        × Reports (callback_call_and_receive_callback lib p g) (call_and_receive_callback lib p g)
  unfolding load_callback load_callback_from_cstring call call_and_receive_callback
  callbacks-Report ctx source p g = (
    or_throw-Reports (callback_init lib strerror ctx source (codes "do") g),
    or_throw-Reports (callback_init lib strerror ctx source (codes "eval") g),
    or_throw-Reports (callback_call lib p g),
    or_throw-Reports (callback_call_and_receive_callback lib p g),
  )
