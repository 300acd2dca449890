-- ===== src/FastcgiWrapper/Served.antt =====
-- What a web server gets from the requests that a worker serves.
use blade_psgi.Base.{
  subst, ℕ, ◌≡◌, refl, sym, ap, ◌∙◌, true, false, Option, none, some, List, [], ◌∷◌, ◌++◌,
  append_assoc, append-nil, if◌then◌else◌,
}
use blade_psgi.Base.Bytes.{Bytes}
use blade_psgi.Base.Words.{ℤ, pos}
use blade_psgi.Base.Outcome.{Outcome, ok, ◌>>=◌, ◌>>◌, return, continue}
use blade_psgi.FastcgiWrapper.{
  Value, Response, Answered, array, code, bad, Env, WrapperLib, header_text, print_all, write_body,
  handle_response, request_env, respond, serve_accepted, serve_request,
}
use blade_psgi.FastcgiWrapper.Promises.{
  is_request, WrapperLaws, flat, body_or, Reply, no_request, no_response, responds, reply_bytes,
  Ends,
}

module _ {P : Type 0} (lib : WrapperLib P) (laws : WrapperLaws lib) where
  open laws use {printed, sent, unfinished}

  -- The responses that were sent, and the one of an unfinished request, as far as it is printed.
  abbrev pub delivered : P → List Bytes
  delivered p = sent p ++ (if unfinished p then printed p ∷ [] else [])

  abbrev headers : Response → Bytes
  headers res = header_text res.status (lib.status_message res.status) res.headers

  abbrev pub response_text : Response → List Bytes → Bytes
  response_text res later = headers res ++ flat (body_or res.body later)

  abbrev pub reply_of : Answered → P → Reply
  reply_of (array res) p = responds (response_text res [])
  reply_of (code n) p = let c = laws.calls_back n p in responds (response_text c.0 c.1)
  reply_of (bad kind) p = no_response

  abbrev pub accepted_reply : Value → Value → Option Env → P → Reply
  accepted_reply psgi_env psgi_app none p = no_request
  accepted_reply psgi_env psgi_app (some env) p =
      let a = laws.runs psgi_app (request_env env (lib.entries psgi_env)) p in reply_of a.0 a.1

  -- What the next request is answered with, in a state.
  abbrev pub reply : Value → Value → P → Reply
  reply psgi_env psgi_app p = let a = laws.accepts p in accepted_reply psgi_env psgi_app a.0 a.1

  -- The call returns, has printed the bytes, and has sent nothing.
  abbrev Prints : {A : Type 0} → Bytes → P → A → Outcome A × P → Type 0
  Prints bytes p a r =
      (p' : P) × (r ≡ (ok a, p'))
      × (printed p' ≡ printed p ++ bytes)
      × (sent p' ≡ sent p)
      × (unfinished p' ≡ true)

  print_all-Prints :
      (pieces : List Bytes) (p : P)
      → unfinished p ≡ true
      → Prints (flat pieces) p tt (print_all lib pieces p)
  print_all-Prints [] p u = (p, refl, sym (append-nil (printed p)), refl, u)
  print_all-Prints (piece ∷ pieces) p u =
      let (p₁, e₁, out₁, s₁, u₁) = laws.prints piece p u in
      let (p₂, e₂, out₂, s₂, u₂) = print_all-Prints pieces p₁ u₁ in
      (
        p₂,
        rw (e₁, e₂) refl,
        out₂ ∙ ap (λ t. t ++ flat pieces) out₁ ∙ append_assoc (printed p) piece (flat pieces),
        s₂ ∙ s₁,
        u₂,
      )

  -- The headers, and then some pieces.
  pieces-Prints :
      (res : Response) (pieces : List Bytes) (p : P)
      → unfinished p ≡ true
      → Prints
          (headers res ++ flat pieces)
          p
          tt
          ((lib.print (headers res) >> print_all lib pieces) p)
  pieces-Prints res pieces p u =
      let (p₁, e₁, out₁, s₁, u₁) = laws.prints (headers res) p u in
      let (p₂, e₂, out₂, s₂, u₂) = print_all-Prints pieces p₁ u₁ in
      (
        p₂,
        rw (e₁, e₂) refl,
        out₂
            ∙ ap (λ t. t ++ flat pieces) out₁
            ∙ append_assoc (printed p) (headers res) (flat pieces),
        s₂ ∙ s₁,
        u₂,
      )

  -- The body behind the headers, or the pieces that come later.
  write_later :
      (body : Option (List Bytes)) (later : List Bytes) (p : P)
      → unfinished p ≡ true
      → (write_body lib body >>= λ b. if b then print_all lib later else return tt) p
        ≡ print_all lib (body_or body later) p
  write_later none later p u = refl
  write_later (some body) later p u =
      let (p', e, out, s, v) = print_all-Prints body p u in rw e refl

  write_now :
      (body : Option (List Bytes)) (p : P)
      → unfinished p ≡ true
      → (write_body lib body >> return tt) p ≡ print_all lib (body_or body []) p
  write_now none p u = refl
  write_now (some body) p u = let (p', e, out, s, v) = print_all-Prints body p u in rw e refl

  array-Prints :
      (res : Response) (p : P)
      → unfinished p ≡ true
      → Prints (response_text res []) p tt (respond lib (array res) p)
  unfolding handle_response
  array-Prints res p u =
      let (p₁, e₁, out, s, u₁) = laws.prints (headers res) p u in
      let same : respond lib (array res) p
          ≡ (lib.print (headers res) >> print_all lib (body_or res.body [])) p =
        rw e₁ (write_now res.body p₁ u₁) in
      subst (Prints (response_text res []) p tt) (sym same)
        (pieces-Prints res (body_or res.body []) p u)

  code-Prints :
      (n : ℕ) (p : P)
      → unfinished p ≡ true
      → let c = laws.calls_back n p in Prints (response_text c.0 c.1) p tt (respond lib (code n) p)
  unfolding handle_response
  code-Prints n p u =
      let (res, later, calls) = laws.calls_back n p in
      let (p₁, e₁, out, s, u₁) = laws.prints (headers res) p u in
      let same : respond lib (code n) p
          ≡ (lib.print (headers res) >> print_all lib (body_or res.body later)) p =
        calls (handle_response lib) ∙ rw e₁ (write_later res.body later p₁ u₁) in
      subst (Prints (response_text res later) p tt) (sym same)
        (pieces-Prints res (body_or res.body later) p u)

  -- The call ends as the reply says, and the server gets what the reply says behind what it got before.
  abbrev pub Served : Reply → List Bytes → Outcome ℤ × P → Type 0
  Served w before r = Ends w r.0 × (delivered r.1 ≡ before ++ reply_bytes w)

  delivered_finished : (p : P) → unfinished p ≡ false → delivered p ≡ sent p
  delivered_finished p u = rw u (append-nil (sent p))

  finished-Served :
      (bytes : Bytes) (before : List Bytes) (p : P) (r : Outcome (Unit {0}) × P)
      → printed p ≡ []
      → sent p ≡ before
      → Prints bytes p tt r
      → Served (responds bytes) before (continue r λ u. lib.finish >> return (pos 1))
  finished-Served bytes before p r clear same (p₂, e, out, s, u) =
      let (p₃, e₃, all, done) = laws.finishes p₂ u in
      let one_more =
        delivered_finished p₃ done
        ∙ all
        ∙ ap (λ l. l ++ printed p₂ ∷ []) (s ∙ same)
        ∙ ap (λ t. before ++ t ∷ []) (out ∙ ap (λ t. t ++ bytes) clear) in
      rw (e, e₃) (refl, one_more)

  answered-Served :
      (before : List Bytes) (p : P) (answered : Answered)
      → printed p ≡ []
      → sent p ≡ before
      → unfinished p ≡ true
      → Served
          (reply_of answered p)
          before
          (continue (respond lib answered p) λ u. lib.finish >> return (pos 1))
  answered-Served before p (array res) clear same u =
      finished-Served (response_text res []) before p (respond lib (array res) p) clear same
        (array-Prints res p u)
  answered-Served before p (code n) clear same u =
      let c = laws.calls_back n p in
      finished-Served (response_text c.0 c.1) before p (respond lib (code n) p) clear same
        (code-Prints n p u)
  answered-Served before p (bad kind) clear same u = ((_, refl), rw (u, clear, same) refl)

  accepted-Served :
      (psgi_env psgi_app : Value) (before : List Bytes) (p : P) (env : Option Env)
      → printed p ≡ []
      → sent p ≡ before
      → unfinished p ≡ is_request env
      → Served
          (accepted_reply psgi_env psgi_app env p)
          before
          (serve_accepted lib psgi_env psgi_app env p)
  accepted-Served psgi_env psgi_app before p none clear same u =
      (refl, delivered_finished p u ∙ same ∙ sym (append-nil before))
  accepted-Served psgi_env psgi_app before p (some env) clear same u =
      let (answered, p₂, e, out, s, v) =
        laws.runs psgi_app (request_env env (lib.entries psgi_env)) p in
      rw e (answered-Served before p₂ answered (out ∙ clear) (s ∙ same) (v ∙ u))

  pub serve_request-Served :
      (psgi_env psgi_app : Value) (p : P)
      → Served (reply psgi_env psgi_app p) (delivered p) (serve_request lib psgi_env psgi_app p)
  unfolding serve_request
  serve_request-Served psgi_env psgi_app p =
      let (env, p₁, e, clear, s, u) = laws.accepts p in
      rw e (accepted-Served psgi_env psgi_app (delivered p) p₁ env clear s u)
