-- ===== src/FastcgiWrapper/Promises.antt =====
-- What the modules of the wrapper promise, and how a request can be answered.
use blade_psgi.Base.{
  ℕ, ◌≡◌, Bool, true, false, Option, none, some, List, [], ◌∷◌, ◌++◌, if◌then◌else◌,
}
use blade_psgi.Base.Bytes.{Bytes}
use blade_psgi.Base.Words.{ℤ, pos, minus_one}
use blade_psgi.Base.Outcome.{Exn, Outcome, ok, throw, M, ◌>>=◌, return}
use blade_psgi.FastcgiWrapper.{Value, Response, Answered, Env, WrapperLib, print_all}

abbrev pub is_request : Option Env → Bool
is_request none = false
is_request (some env) = true

-- What the modules promise, by what is printed for the present request, whether that is unfinished, and
-- the responses that were sent. FCGI finishes an unfinished request when it is asked for the next one,
-- keeps what is printed for a request, and sends that when the request is finished; `run_app` of Plack
-- catches what an application throws; and an application that responds later calls the function that it
-- is given once, and writes pieces if the response has no body.
pub record WrapperLaws {P : Type 0} (lib : WrapperLib P) : Type 0 where
  pub printed : P → Bytes
  pub unfinished : P → Bool
  pub sent : P → List Bytes
  pub accepts :
      (p : P)
      → (env : Option Env) × (p' : P) × (lib.accept p ≡ (ok env, p'))
        × (printed p' ≡ [])
        × (sent p' ≡ sent p ++ (if unfinished p then printed p ∷ [] else []))
        × (unfinished p' ≡ is_request env)
  pub prints :
      (bytes : Bytes) (p : P)
      → unfinished p ≡ true
      → (p' : P) × (lib.print bytes p ≡ (ok tt, p'))
        × (printed p' ≡ printed p ++ bytes)
        × (sent p' ≡ sent p)
        × (unfinished p' ≡ true)
  pub finishes :
      (p : P)
      → unfinished p ≡ true
      → (p' : P) × (lib.finish p ≡ (ok tt, p'))
        × (sent p' ≡ sent p ++ printed p ∷ [])
        × (unfinished p' ≡ false)
  pub runs :
      (app : Value) (env : Env) (p : P)
      → (answered : Answered) × (p' : P) × (lib.run_app app env p ≡ (ok answered, p'))
        × (printed p' ≡ printed p)
        × (sent p' ≡ sent p)
        × (unfinished p' ≡ unfinished p)
  pub calls_back :
      (n : ℕ) (p : P)
      → (res : Response) × (pieces : List Bytes) × ((k : Response → M P Bool)
          → lib.call_code n k p
            ≡ (k res >>= λ later. if later then print_all lib pieces else return tt) p)

abbrev pub flat : List Bytes → Bytes
flat [] = []
flat (piece ∷ pieces) = piece ++ flat pieces

-- The pieces of the body, or those that are written later if there is none.
abbrev pub body_or : Option (List Bytes) → List Bytes → List Bytes
body_or none later = later
body_or (some body) later = body

-- What a call of the callback meets: no request, an application that gives no response, or one that
-- gives the response with these bytes.
pub data Reply : Type 0 where
  no_request no_response : Reply
  responds : Bytes → Reply

-- What the server gets of it. A request without a response is finished with nothing printed.
abbrev pub reply_bytes : Reply → List Bytes
reply_bytes no_request = []
reply_bytes no_response = [] ∷ []
reply_bytes (responds bytes) = bytes ∷ []

-- How the call ends.
abbrev pub Ends : Reply → Outcome ℤ → Type 0
Ends no_request o = o ≡ ok minus_one
Ends no_response o = (e : Exn) × (o ≡ throw e)
Ends (responds bytes) o = o ≡ ok (pos 1)
