-- ===== src/PerlInterpreter/Life.antt =====
-- The life of the interpreter of a process: made once, used, and destroyed before its object goes.
use blade_psgi.Base.{ℕ, ◌≡◌, refl, ◌⊎◌, ◌≢◌, inl, inr, [], ◌∷◌, true, false, none, some}
use blade_psgi.Base.Bytes.{codes}
use blade_psgi.Base.Outcome.{logic_error, Outcome, ok, throw, exited, aborted, ◌>>=◌, continue}
use blade_psgi.PerlGlue.{PerlLib, Glue, per_process_init, interpreter_init}
use blade_psgi.PerlInterpreter.{
  PerlInterpreter, PerlProcess, or_throw, could_not_initialize, keep_interpreter,
  destroy_interpreter, new_perl_interpreter, initialize_perl_interpreter, destroy_perl,
}

abbrev pub fresh : ℕ → PerlInterpreter
fresh mainapp = record { destroyed = false; context = record { mainapp = mainapp; worker = none } }

-- The process with another state of Perl, as its uses leave it.
abbrev pub used : {P : Type 0} → Glue P → PerlProcess P → PerlProcess P
used g s = record s { glue = g }

module _ {P : Type 0} (lib : PerlLib P) (mainapp : ℕ) where
  -- The interpreter is there, not destroyed, and with no worker. After any uses, its object cannot go
  -- without Destroy, and goes after Destroy, whether that throws or not.
  pub record IsAlive (t : PerlProcess P) : Type 0 where
    pub made : t.interpreter ≡ some (fresh mainapp)
    pub not_yet : (g : Glue P) → (destroy_interpreter (used g t)).0 ≡ exited 1
    pub destroyed :
        (g : Glue P)
        → let d = destroy_perl lib (fresh mainapp) (used g t) in (destroy_interpreter d.1).0 ≡ ok tt

  -- Made, or not, and then the first outcome is not that it was; the next try is refused.
  abbrev pub Made : Outcome (Unit {0}) × PerlProcess P → Type 0
  Made (r, t) =
      (initialize_perl_interpreter lib mainapp t ≡ (
        throw (
            logic_error
              (codes "InitializePerlInterpreter called but _has_perl_interpreter is already set")),
        t,
      ))
      × (((r ≡ ok tt) × IsAlive t) ⊎ ((t.interpreter ≡ none) × (r ≢ ok tt)))

  -- Behind the call that makes Perl's interpreter, in a process whose flag is set.
  abbrev stored : PerlProcess P → Outcome (Unit {0}) × Glue P → Outcome (Unit {0}) × PerlProcess P
  stored s x = continue (x.0, record s { glue = x.1 }) (λ u. keep_interpreter (fresh mainapp))

  -- Destroy, behind the call that ends Perl.
  destroyed_lem :
      (s : PerlProcess P) (x : Outcome (Unit {0}) × Glue P)
      → s.interpreter ≡ some (record (fresh mainapp) { destroyed = true })
      → (destroy_interpreter (record s { glue = x.1 })).0 ≡ ok tt
  unfolding destroy_interpreter
  destroyed_lem s x e = rw e refl

  refused :
      (s : PerlProcess P)
      → s.has_perl_interpreter ≡ true
      → initialize_perl_interpreter lib mainapp s ≡ (
        throw (
            logic_error
              (codes "InitializePerlInterpreter called but _has_perl_interpreter is already set")),
        s,
      )
  unfolding initialize_perl_interpreter
  refused s e = rw e refl

  stored-Made :
      (s : PerlProcess P) (x : Outcome (Unit {0}) × Glue P)
      → s.has_perl_interpreter ≡ true
      → s.interpreter ≡ none
      → Made (stored s x)
  unfolding destroy_interpreter destroy_perl
  stored-Made s (ok tt, g) e none_yet = (
    refused (record s { glue = g; interpreter = some (fresh mainapp) }) e,
    inl (refl, record { made = refl; not_yet = λ h. refl; destroyed = λ h. refl }),
  )
  stored-Made s (throw err, g) e none_yet =
      (refused (record s { glue = g }) e, inr (none_yet, λ z. cc))
  stored-Made s (exited n, g) e none_yet =
      (refused (record s { glue = g }) e, inr (none_yet, λ z. cc))
  stored-Made s (aborted, g) e none_yet =
      (refused (record s { glue = g }) e, inr (none_yet, λ z. cc))

  -- In a process that has not tried yet, InitializePerlInterpreter makes an interpreter without a
  -- worker that is not destroyed, or it does not succeed and there is none; a second try throws
  -- a logic error and changes nothing. After any uses of Perl, the interpreter's destructor ends the
  -- process with status 1 if Destroy was not called, and succeeds if it was, also if Destroy threw.
  pub initialize_perl_interpreter-Made :
      (s : PerlProcess P)
      → s.has_perl_interpreter ≡ false
      → s.interpreter ≡ none
      → Made (initialize_perl_interpreter lib mainapp s)
  unfolding initialize_perl_interpreter new_perl_interpreter per_process_init
  initialize_perl_interpreter-Made s e none_yet =
      let g = record s.glue { perl_args = codes "" ∷ codes "-e" ∷ codes "0" ∷ [] } in
      rw e (
        stored-Made (record s { has_perl_interpreter = true; glue = g })
          ((interpreter_init lib >>= or_throw could_not_initialize) g) refl none_yet)
