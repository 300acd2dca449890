-- ===== src/FastcgiWrapper/Series.antt =====
-- The calls that a worker makes of the callback.
use blade_psgi.Base.{ℕ, zero, suc, ◌+◌, List, [], ◌∷◌, ◌++◌}
use blade_psgi.Base.Bytes.{Bytes}
use blade_psgi.Base.Words.{ℤ, pos}
use blade_psgi.Base.Outcome.{Outcome, ok}
use blade_psgi.FastcgiWrapper.{Value, WrapperLib, serve_request}
use blade_psgi.FastcgiWrapper.Promises.{
  WrapperLaws, Reply, no_request, no_response, responds, reply_bytes,
}
use blade_psgi.FastcgiWrapper.Served.{reply}

-- The calls of the callback, with the number of those that return 1.
abbrev pub returned_one : Outcome ℤ → ℕ
returned_one (ok (pos n)) = n
returned_one _ = 0

unfoldable pub serve_times : {P : Type 0} → WrapperLib P → Value → Value → ℕ → P → ℕ × P
serve_times lib psgi_env psgi_app zero p = (0, p)
serve_times lib psgi_env psgi_app (suc n) p =
    let r = serve_request lib psgi_env psgi_app p in
    let rest = serve_times lib psgi_env psgi_app n r.1 in (returned_one r.0 + rest.0, rest.1)

abbrev pub responses : Reply → ℕ
responses no_request = 0
responses no_response = 0
responses (responds bytes) = 1

-- The replies, their bytes, and how many of them are responses.
abbrev pub all_bytes : List Reply → List Bytes
all_bytes [] = []
all_bytes (w ∷ ws) = reply_bytes w ++ all_bytes ws

abbrev pub all_responses : List Reply → ℕ
all_responses [] = 0
all_responses (w ∷ ws) = responses w + all_responses ws

module _ {P : Type 0} (lib : WrapperLib P) (laws : WrapperLaws lib)
    (psgi_env psgi_app : Value) where
  -- What the application gives for the requests that come, each in the state that its call begins in.
  abbrev pub replies : ℕ → P → List Reply
  replies zero p = []
  replies (suc n) p =
      reply lib laws psgi_env psgi_app p ∷ replies n (serve_request lib psgi_env psgi_app p).1
