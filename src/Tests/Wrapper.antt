-- ===== src/Tests/Wrapper.antt =====
-- A small FCGI whose requests wait in a list, with an application that responds at once if the request has
-- an entry HTTPS, and later if it has not.
use blade_psgi.Base.{
  ◌≡◌, refl, Option, none, some, Bool, true, false, List, [], ◌∷◌, ◌++◌, if◌then◌else◌,
}
use blade_psgi.Base.Bytes.{Bytes, codes, same}
use blade_psgi.Base.Outcome.{Outcome, ok, throw, exited, aborted, continue, M, ◌>>=◌, return}
use blade_psgi.FastcgiWrapper.{
  Value, undef, text, reference, Response, Answered, array, code, bad, Env, WrapperLib, request_env,
  print_all, header_text, header_lines, serve_request, handle_response,
}
use blade_psgi.FastcgiWrapper.Promises.{WrapperLaws, is_request}
use blade_psgi.FastcgiWrapper.Served.{delivered, response_text}
use blade_psgi.FastcgiWrapper.Series.{serve_times}

record Server : Type 0 where
  waiting : List Env
  out : Bytes
  open_request : Bool
  finished : List Bytes

-- The responses, with that of an unfinished request.
abbrev all_finished : Bool → Bytes → List Bytes → List Bytes
all_finished b out finished = finished ++ (if b then out ∷ [] else [])

abbrev take_request : Server → Outcome (Option Env) × Server
take_request s =
    next s.waiting (record s { out = []; finished = all_finished s.open_request s.out s.finished })
  where
    next : List Env → Server → Outcome (Option Env) × Server
    next [] s = (ok none, record s { open_request = false })
    next (env ∷ rest) s = (ok (some env), record s { waiting = rest; open_request = true })

abbrev print_more : Bytes → M Server (Unit {0})
print_more bytes s = (ok tt, record s { out = s.out ++ bytes })

abbrev response : Option (List Bytes) → Response
response body = record {
  status = codes "200";
  headers = codes "Content-Type" ∷ codes "text/plain" ∷ [];
  body = body;
}

abbrev answer : Option Value → Answered
answer none = code 0
answer (some undef) = bad (codes "HASH")
answer (some (text t)) = array (response (some (codes "hello" ∷ codes "!" ∷ [])))
answer (some (reference kind n)) = array (response none)

abbrev print_later : Bool → M Server (Unit {0})
print_later true = print_more (codes "later")
print_later false = return tt

abbrev server : WrapperLib Server
server = record {
  require = λ path s. (ok tt, s);
  inc = λ path s. (ok none, s);
  do_file = λ path s. (ok (undef, [], []), s);
  call_loader = λ loader s. (ok (undef, undef), s);
  load_psgi = λ path s. (ok undef, s);
  empty_hash = λ s. (ok undef, s);
  new_request = λ sockfd s. (ok tt, s);
  accept = take_request;
  finish = λ s.
      (ok tt, record s { out = []; open_request = false; finished = s.finished ++ s.out ∷ [] });
  print = print_more;
  status_message = λ status. codes "OK";
  entries = λ v key. none;
  run_app = λ app env s. (ok (answer (env (codes "HTTPS"))), s);
  call_code = λ n k. k (response none) >>= print_later;
}

print_later_lem :
    (r : Outcome Bool × Server)
    → continue r print_later
      ≡ continue r λ later. if later then print_all server (codes "later" ∷ []) else return tt
print_later_lem (ok true, s) = refl
print_later_lem (ok false, s) = refl
print_later_lem (throw e, s) = refl
print_later_lem (exited n, s) = refl
print_later_lem (aborted, s) = refl

accepts_next :
    (waiting : List Env) (out : Bytes) (b : Bool) (finished : List Bytes)
    → let s : Server = record {
      waiting = waiting;
      out = out;
      open_request = b;
      finished = finished;
    } in
      (env : Option Env) × (t : Server) × (take_request s ≡ (ok env, t))
      × (t.out ≡ [])
      × (t.finished ≡ all_finished b out finished)
      × (t.open_request ≡ is_request env)
accepts_next [] out b finished = (none, _, refl, refl, refl, refl)
accepts_next (env ∷ rest) out b finished = (some env, _, refl, refl, refl, refl)

abbrev server_laws : WrapperLaws server
server_laws = record {
  printed = λ s. s.out;
  unfinished = λ s. s.open_request;
  sent = λ s. s.finished;
  accepts = λ s. accepts_next s.waiting s.out s.open_request s.finished;
  prints = λ bytes s u. (record s { out = s.out ++ bytes }, refl, refl, refl, u);
  finishes = λ s u. (
    record s { out = []; open_request = false; finished = s.finished ++ s.out ∷ [] },
    refl,
    refl,
    refl,
  );
  runs = λ app env s. (answer (env (codes "HTTPS")), s, refl, refl, refl, refl);
  calls_back =
      λ n s. (response none, codes "later" ∷ [], λ k. print_later_lem (k (response none) s));
}

abbrev start : Server
start = record {
  waiting = (λ key. none) ∷ (λ key. some undef) ∷ (λ key. some (text (codes "on"))) ∷ [];
  out = [];
  open_request = false;
  finished = [];
}

-- Two responses: the second request gets none.
two_responses : (serve_times server undef undef 4 start).0 ≡ 2
unfolding serve_times serve_request handle_response request_env same
two_responses = refl

-- The second one is empty, and was sent when the third request was asked for.
empty_second :
    delivered server server_laws (serve_times server undef undef 4 start).1
    ≡ response_text server server_laws (response none) (codes "later" ∷ [])
      ∷ []
      ∷ response_text server server_laws (response (some (codes "hello" ∷ codes "!" ∷ []))) []
      ∷ []
unfolding serve_times serve_request handle_response request_env same header_text header_lines
empty_second = refl
