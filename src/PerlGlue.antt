-- ===== src/PerlGlue.antt =====
-- The C side of the Perl interpreter, src/perl/bladepsgi_perl.c. What Perl does is the parameter
-- `lib`, over a state `P` of the interpreter: its calls return, or end the process. `strerror` gives
-- the text of an `errno`. Memory is never short, and the strings of the errors are not freed.
pub mod Balance
use blade_psgi.Base.{
  ℕ, suc, ◌+◌, ◌-◌, ◌≡◌, Bool, true, false, not, Option, none, some, List, [], ◌∷◌, ◌++◌, ◌==◌,
  if◌then◌else◌,
}
use blade_psgi.Base.Bytes.{Bytes, codes, same}
use blade_psgi.Base.Outcome.{
  Outcome, ok, throw, exited, aborted, M, ◌>>=◌, ◌>>◌, continue, return, quit,
}

-- A value: undefined, a reference to a subroutine, a reference to something else, or no reference.
pub data Sv : Type 0 where
  undef : Sv
  code_ref : ℕ → Sv
  other_ref : ℕ → Sv
  plain : Bytes → Sv

-- What a call leaves: its value, $@ if that is true, and `errno`.
pub record Called : Type 0 where
  pub value : Sv
  pub errsv : Option Bytes
  pub errno : ℕ

pub record PerlLib (P : Type 0) : Type 0 where
  pub perl_alloc : M P Bool
  pub perl_construct : M P (Unit {0})
  pub perl_parse : List Bytes → M P ℕ
  pub perl_run : M P ℕ
  -- With the flag that lets an error end the process.
  pub eval_pv : Bytes → Bool → M P Called
  pub call_pv : Bytes → Bytes → M P Called
  -- A call of a subroutine with a context as its argument.
  pub call_sv : Sv → ℕ → M P Called
  pub perl_destruct : M P (Unit {0})

-- bladepsgi_perl_callback_t: the context, and the value that is called.
pub record Callback : Type 0 where
  pub bladepsgictx : ℕ
  pub sv : Sv

pub record Glue (P : Type 0) : Type 0 where
  pub perl : P
  pub perl_args : List Bytes
  -- PERL_EXIT_DESTRUCT_END, and the assignments to $0 that are disabled.
  pub destruct_end : Bool
  pub origalen : ℕ
  -- ENTER without its LEAVE so far.
  pub scopes : ℕ
  -- The references that the program holds, and the callbacks that it has made.
  pub references : List Sv
  pub callbacks : List Callback

-- The return value 0 with what is passed out, or -1 with the error.
pub data Returned (A : Type 0) : Type 0 where
  success : A → Returned A
  failure : Bytes → Returned A

module _ {P : Type 0} where
  abbrev pub in_perl : {A : Type 0} → M P A → M (Glue P) A
  in_perl m g = let r = m g.perl in (r.0, record g { perl = r.1 })

  abbrev pub unless_failed :
      {A B : Type 0} → (A → M (Glue P) (Returned B)) → Returned A → M (Glue P) (Returned B)
  unless_failed k (success a) g = k a g
  unless_failed k (failure error) g = (ok (failure error), g)

  -- What follows if there was no error, which is returned at once.
  infixl 5 ◌>>?◌
  abbrev pub ◌>>?◌ :
      {A B : Type 0}
      → M (Glue P) (Returned A)
      → (A → M (Glue P) (Returned B))
      → M (Glue P) (Returned B)
  ◌>>?◌ m k = m >>= unless_failed k

  abbrev pub fail_if : Bool → Bytes → M (Glue P) (Returned (Unit {0}))
  fail_if b error g = (ok (if b then failure error else success tt), g)

  -- ENTER and SAVETMPS; FREETMPS and LEAVE.
  abbrev pub enter : M (Glue P) (Unit {0})
  enter g = (ok tt, record g { scopes = g.scopes + 1 })

  abbrev pub leave_scope : M (Glue P) (Unit {0})
  leave_scope g = (ok tt, record g { scopes = g.scopes - 1 })

  abbrev pub sv_refcnt_inc : Sv → M (Glue P) (Unit {0})
  sv_refcnt_inc sv g = (ok tt, record g { references = sv ∷ g.references })

  abbrev pub new_callback : ℕ → Sv → M (Glue P) (Returned Callback)
  new_callback ctx sv g =
      let c : Callback = record { bladepsgictx = ctx; sv = sv } in
      (ok (success c), record g { callbacks = c ∷ g.callbacks })

  unfoldable pub per_process_init : M (Glue P) (Unit {0})
  per_process_init g = (ok tt, record g { perl_args = codes "" ∷ codes "-e" ∷ codes "0" ∷ [] })

abbrev pub load_error : Option Bytes → Returned (Unit {0})
load_error none = success tt
load_error (some msg) = failure (codes "could not load Plack::Util: " ++ msg)

abbrev pub is_ok : Sv → Bool
is_ok undef = false
is_ok (code_ref n) = true
is_ok (other_ref n) = true
is_ok (plain text) = true

module _ {P : Type 0} (lib : PerlLib P) where
  abbrev pub evaluated : Bytes → Bool → M (Glue P) (Returned (Unit {0}))
  evaluated text croak g = (in_perl (lib.eval_pv text croak) >>= λ c. return (load_error c.errsv)) g

  abbrev pub nonzero : M P ℕ → Bytes → M (Glue P) (Returned (Unit {0}))
  nonzero m error g = (in_perl m >>= λ status. fail_if (not (status == 0)) error) g

  abbrev pub set_destruct_end : M (Glue P) (Unit {0})
  set_destruct_end g = (ok tt, record g { destruct_end = true })

  abbrev pub set_origalen : M (Glue P) (Unit {0})
  set_origalen g = (ok tt, record g { origalen = 1 })

  abbrev pub configure : M (Glue P) (Unit {0})
  configure = do set_destruct_end; in_perl lib.perl_construct; set_origalen

  unfoldable pub interpreter_init : M (Glue P) (Returned (Unit {0}))
  interpreter_init g =
      ((in_perl lib.perl_alloc >>= λ (allocated : Bool).
      fail_if (not allocated) (codes "could not allocate perl interpreter" ++ 10 ∷ []))
          >>? (λ u.
              configure
              >> nonzero (lib.perl_parse g.perl_args) (codes "perl_parse failed" ++ 10 ∷ []))
          >>? (λ u. nonzero lib.perl_run (codes "perl_run failed" ++ 10 ∷ []))
          >>? (λ u. evaluated (codes "eval { require Plack::Util; }; die $@ if ($@);") false)
          >>? (λ u. evaluated (codes "BPSGI::bootstrap") true)
          >>? (λ u. evaluated (codes "sub _bladepsgi_do_wrapper { return do $_[0]; }") false))
        g

  unfoldable pub interpreter_destroy : M (Glue P) (Returned (Unit {0}))
  interpreter_destroy = do in_perl lib.perl_destruct; return (success tt)

  -- The call by which a callback is loaded; any other loader is an internal error.
  abbrev pub load_source : Bytes → Bytes → M (Glue P) Called
  load_source source loader g =
      if same loader (codes "do")
      then in_perl (lib.call_pv (codes "_bladepsgi_do_wrapper") source) g
      else if same loader (codes "eval")
      then in_perl (lib.eval_pv source false) g
      else (aborted, g)

  -- The reference is taken while the scope is open.
  abbrev pub keep_value : Sv → M (Glue P) (Unit {0})
  keep_value sv = if is_ok sv then sv_refcnt_inc sv else return tt

  module _ (strerror : ℕ → Bytes) where
    -- Why there is no value: the error of Perl, that of the system, or neither, which ends the process.
    abbrev pub no_value : Option Bytes → ℕ → M (Glue P) (Returned Callback)
    no_value (some msg) errno g = (ok (failure msg), g)
    no_value none errno g = if errno == 0 then (exited 1, g) else (ok (failure (strerror errno)), g)

    abbrev pub loaded : ℕ → Called → M (Glue P) (Returned Callback)
    loaded ctx c = if is_ok c.value then new_callback ctx c.value else no_value c.errsv c.errno

    unfoldable pub callback_init : ℕ → Bytes → Bytes → M (Glue P) (Returned Callback)
    callback_init ctx source loader = do
      enter
      c ← load_source source loader
      keep_value c.value
      leave_scope
      loaded ctx c

  abbrev pub finished : Option Bytes → M (Glue P) (Returned (Unit {0}))
  finished (some error) g = (ok (failure error), g)
  finished none g = (leave_scope >> return (success tt)) g

  unfoldable pub callback_call : Callback → M (Glue P) (Returned (Unit {0}))
  callback_call cbs = do enter; c ← in_perl (lib.call_sv cbs.sv cbs.bladepsgictx); finished c.errsv

  -- SvTYPE of SvRV: looking behind a value that is no reference is a fault.
  abbrev pub received : ℕ → Option Bytes → Sv → M (Glue P) (Returned Callback)
  received ctx (some error) sv g = (ok (failure error), g)
  received ctx none undef g = (aborted, g)
  received ctx none (plain text) g = (aborted, g)
  received ctx none (other_ref n) g = (ok (failure (codes "return value is not a callback")), g)
  received ctx none (code_ref n) g =
      (do sv_refcnt_inc (code_ref n); leave_scope; new_callback ctx (code_ref n)) g

  unfoldable pub callback_call_and_receive_callback : Callback → M (Glue P) (Returned Callback)
  callback_call_and_receive_callback cbs = do
    enter
    c ← in_perl (lib.call_sv cbs.sv cbs.bladepsgictx)
    received cbs.bladepsgictx c.errsv c.value
