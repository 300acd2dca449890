-- ===== src/PerlGlue/Balance.antt =====
-- What the calls of the Perl glue leave behind: references, and scopes of Perl that stay open.
use blade_psgi.Base.{ℕ, ◌+◌, ◌≡◌, ◌⊎◌, Bool, none, some, List, [], ◌∷◌, map}
use blade_psgi.Base.Bytes.{Bytes, codes}
use blade_psgi.Base.Outcome.{Outcome, ok, exited, M, ◌>>=◌, ◌>>◌, return}
use blade_psgi.PerlGlue.{
  Sv, code_ref, other_ref, Called, PerlLib, Callback, Glue, Returned, success, failure,
  callback_init, callback_call, callback_call_and_receive_callback,
}

-- The uses of the glue once the interpreter is made.
pub data Request : Type 0 where
  load_file load_text : ℕ → Bytes → Request
  call receive : Callback → Request

abbrev failed_calls : {A : Type 0} → Returned A → ℕ
failed_calls (success a) = 0
failed_calls (failure error) = 1

module _ {P : Type 0} (lib : PerlLib P) (strerror : ℕ → Bytes) where
  -- A request, and how many calls it has seen fail.
  unfoldable pub serve : Request → M (Glue P) ℕ
  serve (load_file ctx path) = do callback_init lib strerror ctx path (codes "do"); return 0
  serve (load_text ctx text) = do callback_init lib strerror ctx text (codes "eval"); return 0
  serve (call cbs) = do r ← callback_call lib cbs; return (failed_calls r)
  serve (receive cbs) = do r ← callback_call_and_receive_callback lib cbs; return (failed_calls r)

  unfoldable pub serve_all : List Request → M (Glue P) ℕ
  serve_all [] = return 0
  serve_all (q ∷ qs) = do n ← serve q; m ← serve_all qs; return (n + m)

-- Every call into Perl returns.
pub record PerlReturns {P : Type 0} (lib : PerlLib P) : Type 0 where
  pub eval_returns :
      (text : Bytes) (croak : Bool) (p : P)
      → (c : Called) × (p' : P) × (lib.eval_pv text croak p ≡ (ok c, p'))
  pub pv_returns :
      (name argument : Bytes) (p : P)
      → (c : Called) × (p' : P) × (lib.call_pv name argument p ≡ (ok c, p'))
  pub sv_returns :
      (sv : Sv) (ctx : ℕ) (p : P) → (c : Called) × (p' : P) × (lib.call_sv sv ctx p ≡ (ok c, p'))

-- A callback that another one is received from returns a reference, or fails.
abbrev pub GivesReference : {P : Type 0} → PerlLib P → Request → Type 0
GivesReference {P} lib (receive cbs) =
    (p : P) (c : Called) (p' : P)
    → lib.call_sv cbs.sv cbs.bladepsgictx p ≡ (ok c, p')
    → ((error : Bytes) × (c.errsv ≡ some error))
      ⊎ ((c.errsv ≡ none) × (n : ℕ) × ((c.value ≡ code_ref n) ⊎ (c.value ≡ other_ref n)))
GivesReference lib _ = Unit

-- One reference is held for each callback, to its value.
abbrev pub IsBalanced : {P : Type 0} → Glue P → Type 0
IsBalanced g = map (λ (c : Callback). c.sv) g.callbacks ≡ g.references

-- Afterwards the references are balanced and one scope is open for each call that failed; or the
-- process has ended with status 1.
abbrev pub Leaves : {P : Type 0} → Glue P → Outcome ℕ × Glue P → Type 0
Leaves g (r, t) = ((n : ℕ) × (r ≡ ok n) × IsBalanced t × (t.scopes ≡ g.scopes + n)) ⊎ (r ≡ exited 1)
