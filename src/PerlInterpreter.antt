-- ===== src/PerlInterpreter.antt =====
-- `BPSGIPerlInterpreter` and `BPSGIPerlCallbackFunction` of src/perl_interpreter.cpp, over the glue of
-- PerlGlue.antt, and `BPSGIMainApplication::InitializePerlInterpreter` of src/bladepsgi.cpp. One context
-- is made for each interpreter; `mainapp` is its only application.
pub mod Reports
pub mod Life
use blade_psgi.Base.{
  ℕ, ◌≡◌, Bool, true, false, not, Option, none, some, List, [], ◌∷◌, ◌++◌, if◌then◌else◌,
}
use blade_psgi.Base.Bytes.{Bytes, codes}
use blade_psgi.Base.Outcome.{
  Outcome, ok, throw, exited, aborted, logic_error, M, ◌>>=◌, ◌>>◌, return, raise, throw_if, assert,
  quit,
}
use blade_psgi.PerlBridge.{perl_interpreter_exception}
use blade_psgi.PerlGlue.{
  PerlLib, Callback, Glue, Returned, success, failure, per_process_init, interpreter_init,
  interpreter_destroy, callback_init, callback_call, callback_call_and_receive_callback,
}

-- BPSGI_Context
pub record Context : Type 0 where
  pub mainapp : ℕ
  pub worker : Option ℕ

pub record PerlInterpreter : Type 0 where
  pub destroyed : Bool
  pub context : Context

-- A process: its interpreter, if it has made one, and the flag `_has_perl_interpreter`.
pub record PerlProcess (P : Type 0) : Type 0 where
  pub glue : Glue P
  pub has_perl_interpreter : Bool
  pub interpreter : Option PerlInterpreter

abbrev pub same_text : Bytes → Bytes
same_text error = error

abbrev pub could_not_initialize : Bytes → Bytes
could_not_initialize error = codes "could not initialize a Perl interpreter: " ++ error

abbrev pub is_free : Option ℕ → Bool
is_free none = true
is_free (some worker) = false

module _ {P : Type 0} where
  -- What a function of the glue returns, as an exception where it is -1.
  abbrev pub or_throw : {A : Type 0} → (Bytes → Bytes) → Returned A → M (Glue P) A
  or_throw text (success a) = return a
  or_throw text (failure error) = raise (perl_interpreter_exception (text error))

  abbrev pub in_glue : {A : Type 0} → M (Glue P) A → M (PerlProcess P) A
  in_glue m s = let r = m s.glue in (r.0, record s { glue = r.1 })

  abbrev pub keep_interpreter : PerlInterpreter → M (PerlProcess P) (Unit {0})
  keep_interpreter i s = (ok tt, record s { interpreter = some i })

  -- `WorkerInitialize`, once for each context.
  unfoldable pub worker_initialize : ℕ → PerlInterpreter → M (PerlProcess P) (Unit {0})
  worker_initialize worker i = do
    assert (is_free i.context.worker)
    keep_interpreter (record i { context = record i.context { worker = some worker } })

  -- The destructor, for an object that is there.
  abbrev pub destruct : Option PerlInterpreter → M (PerlProcess P) (Unit {0})
  destruct none s = (ok tt, s)
  destruct (some i) s =
      if i.destroyed then (ok tt, record s { interpreter = none }) else (exited 1, s)

  unfoldable pub destroy_interpreter : M (PerlProcess P) (Unit {0})
  destroy_interpreter s = destruct s.interpreter s

  abbrev pub set_has_perl_interpreter : M (PerlProcess P) (Unit {0})
  set_has_perl_interpreter s = (ok tt, record s { has_perl_interpreter = true })

  module _ (lib : PerlLib P) where
    -- The constructor.
    unfoldable pub new_perl_interpreter : ℕ → M (PerlProcess P) (Unit {0})
    new_perl_interpreter mainapp = do
      in_glue (interpreter_init lib >>= or_throw could_not_initialize)
      keep_interpreter
          (record { destroyed = false; context = record { mainapp = mainapp; worker = none } })

    abbrev pub check_first : M (PerlProcess P) (Unit {0})
    check_first s =
        throw_if s.has_perl_interpreter
          (logic_error
            (codes "InitializePerlInterpreter called but _has_perl_interpreter is already set"))
          s

    unfoldable pub initialize_perl_interpreter : ℕ → M (PerlProcess P) (Unit {0})
    initialize_perl_interpreter mainapp = do
      check_first
      set_has_perl_interpreter
      in_glue per_process_init
      new_perl_interpreter mainapp

    unfoldable pub call : Callback → M (Glue P) (Unit {0})
    call p = callback_call lib p >>= or_throw same_text

    unfoldable pub call_and_receive_callback : Callback → M (Glue P) Callback
    call_and_receive_callback p = callback_call_and_receive_callback lib p >>= or_throw same_text

    -- `destroyed_` is set first, so that it is also when an exception follows.
    unfoldable pub destroy_perl : PerlInterpreter → M (PerlProcess P) (Unit {0})
    destroy_perl i = do
      keep_interpreter (record i { destroyed = true })
      in_glue (interpreter_destroy lib >>= or_throw same_text)

    module _ (strerror : ℕ → Bytes) where
      unfoldable pub load_callback : ℕ → Bytes → M (Glue P) Callback
      load_callback ctx filename =
          callback_init lib strerror ctx filename (codes "do") >>= or_throw same_text

      unfoldable pub load_callback_from_cstring : ℕ → Bytes → M (Glue P) Callback
      load_callback_from_cstring ctx perl =
          callback_init lib strerror ctx perl (codes "eval") >>= or_throw same_text
