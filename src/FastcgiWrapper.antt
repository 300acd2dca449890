-- ===== src/FastcgiWrapper.antt =====
-- The FastCGI wrapper, whose Perl text is src/perl/fastcgi_wrapper_loader.cpp: how it loads the
-- application, the environment and the headers that it makes, and a request. `die` throws. FCGI, Plack
-- and HTTP::Status, and the files that are loaded, are the parameter `lib`, over a state `P` of Perl.
pub mod ModulePath
pub mod Headers
pub mod Promises
pub mod Served
pub mod Series
use blade_psgi.Base.{
  ℕ, ◌+◌, ◌≡◌, ◌<◌, Bool, true, false, not, ◌||◌, ◌&&◌, Option, none, some, List, [], ◌∷◌, ◌++◌,
  map, ◌==◌, leb, if◌then◌else◌,
}
use blade_psgi.Base.Bytes.{Bytes, codes, same}
use blade_psgi.Base.Words.{ℤ, pos, negsuc, minus_one}
use blade_psgi.Base.Outcome.{
  perl_error, Outcome, ok, throw, exited, aborted, M, ◌>>=◌, ◌>>◌, return, raise, throw_if,
}

-- A value, with what `ref` says of a reference.
pub data Value : Type 0 where
  undef : Value
  text : Bytes → Value
  reference : Bytes → ℕ → Value

abbrev pub ref : Value → Bytes
ref undef = []
ref (text t) = []
ref (reference kind n) = kind

abbrev pub is_defined : Value → Bool
is_defined undef = false
is_defined (text t) = true
is_defined (reference kind n) = true

-- A response: the status, the headers, names and values in turn, and the pieces of the body, if there
-- is one.
pub record Response : Type 0 where
  pub status : Bytes
  pub headers : List Bytes
  pub body : Option (List Bytes)

-- What an application gives.
pub data Answered : Type 0 where
  array : Response → Answered
  code : ℕ → Answered
  bad : Bytes → Answered

-- The environment of a request: the values by their keys.
abbrev pub Env : Type 0
Env = Bytes → Option Value

pub record WrapperLib (P : Type 0) : Type 0 where
  pub require : Bytes → M P (Unit {0})
  -- %INC
  pub inc : Bytes → M P (Option Bytes)
  -- The value of a file, and $@ and $! behind it.
  pub do_file : Bytes → M P (Value × Bytes × Bytes)
  pub call_loader : Value → M P (Value × Value)
  pub load_psgi : Bytes → M P Value
  pub empty_hash : M P Value
  -- FCGI::Request, on a socket.
  pub new_request : ℕ → M P (Unit {0})
  -- FCGI: a request whose environment is given, or a negative number.
  pub accept : M P (Option Env)
  pub finish : M P (Unit {0})
  pub print : Bytes → M P (Unit {0})
  pub status_message : Bytes → Bytes
  pub entries : Value → Env
  pub run_app : Value → Env → M P Answered
  -- A response that is given later, to the function that is passed.
  pub call_code : ℕ → (Response → M P Bool) → M P (Unit {0})

-- s/::/\//g
unfoldable pub slashes : Bytes → Bytes
slashes [] = []
slashes (b ∷ []) = b ∷ []
slashes (b ∷ c ∷ bs) = elim (b == b':' && c == b':') [
  | true ↦ b'/' ∷ slashes bs
  | false ↦ b ∷ slashes (c ∷ bs)
]

-- s/$/.pm/, in front of a newline at the end.
unfoldable pub add_pm : Bytes → Bytes
add_pm [] = codes ".pm"
add_pm (b ∷ []) = if b == 10 then codes ".pm" ++ b ∷ [] else b ∷ codes ".pm"
add_pm (b ∷ c ∷ bs) = b ∷ add_pm (c ∷ bs)

abbrev pub module_path : Bytes → Bytes
module_path name = add_pm (slashes name)

-- "$k: $v\r\n" for each two of the headers; a last name alone has an undefined value.
unfoldable pub header_lines : List Bytes → Bytes
header_lines [] = []
header_lines (k ∷ []) = k ++ (codes ": " ++ (13 ∷ 10 ∷ []))
header_lines (k ∷ v ∷ rest) = k ++ (codes ": " ++ (v ++ (13 ∷ 10 ∷ header_lines rest)))

unfoldable pub header_text : Bytes → Bytes → List Bytes → Bytes
header_text status message headers =
    codes "Status: "
    ++ (status ++ (b' ' ∷ message ++ (13 ∷ 10 ∷ header_lines headers ++ 13 ∷ 10 ∷ [])))

-- ($env{HTTPS}||'off') =~ /^(?:on|1)$/i, where `$` also stands in front of a last newline.
abbrev pub lower : ℕ → ℕ
lower b = if leb 65 b && leb b 90 then b + 32 else b

unfoldable pub is_https : Option Value → Bool
is_https none = false
is_https (some undef) = false
is_https (some (reference kind n)) = false
is_https (some (text t)) =
    let l = map lower t in
    same l (codes "on")
    || (same l (codes "1") || (same l (codes "on" ++ 10 ∷ []) || same l (codes "1" ++ 10 ∷ [])))

abbrev pub url_scheme : Option Value → Value
url_scheme https = if is_https https then text (codes "https") else text (codes "http")

abbrev pub perl_true : Value
perl_true = text (codes "1")

abbrev pub perl_false : Value
perl_false = text []

-- The entries that the wrapper sets; those that are references are numbered.
abbrev pub own_entries : Value → List (Bytes × Value)
own_entries scheme =
    (codes "psgi.version", reference (codes "ARRAY") 0)
    ∷ (codes "psgi.url_scheme", scheme)
    ∷ (codes "psgi.input", reference (codes "IO::Handle") 1)
    ∷ (codes "psgi.errors", reference (codes "GLOB") 2)
    ∷ (codes "psgi.multithread", perl_false)
    ∷ (codes "psgi.multiprocess", perl_true)
    ∷ (codes "psgi.run_once", perl_false)
    ∷ (codes "psgi.streaming", perl_true)
    ∷ (codes "psgi.nonblocking", perl_false)
    ∷ (codes "psgix.harakiri", perl_false)
    ∷ []

-- The entry of the last list that has the key.
abbrev pub or_else : Option Value → Option Value → Option Value
or_else none b = b
or_else (some v) b = some v

abbrev pub find : List (Bytes × Value) → Bytes → Option Value
find [] key = none
find ((k, v) ∷ rest) key = let others = find rest key in if same k key then some v else others

unfoldable pub request_env : Env → Env → Env
request_env env psgi_env key =
    or_else (find (own_entries (url_scheme (env (codes "HTTPS")))) key)
      (or_else (psgi_env key) (env key))

abbrev pub die : {A P : Type 0} → Bytes → M P A
die message = raise (perl_error message)

module _ {P : Type 0} (lib : WrapperLib P) where
  abbrev pub in_inc : Bytes → Option Bytes → M P Bytes
  in_inc path none =
      die (codes "internal error: required module " ++ (path ++ codes " not present in %INC"))
  in_inc path (some file) = return file

  abbrev pub check_loader : Bytes → Value × Bytes × Bytes → M P Value
  check_loader path (undef, eval_error, os_error) = die (
      codes "could not load PSGI application loader "
      ++ (path
          ++ (codes ": " ++ ((if same eval_error [] then os_error else eval_error) ++ 10 ∷ []))))
  check_loader path (v, eval_error, os_error) =
      if same (ref v) (codes "CODE")
      then return v
      else die (
          codes "PSGI application loader "
          ++ (path ++ (codes " must return a subroutine; got " ++ (ref v ++ 10 ∷ []))))

  abbrev pub check_loaded : Value × Value → M P (Value × Value)
  check_loaded (psgi_env, psgi_app) =
      if not (same (ref psgi_env) (codes "HASH"))
      then die (
          codes
            "the first returned value from PSGI application loader must be a HASH reference; got "
          ++ (ref psgi_env ++ 10 ∷ []))
      else if not (same (ref psgi_app) (codes "CODE"))
      then die (
          codes
            "the second returned value from PSGI application loader must be a CODE reference; got "
          ++ (ref psgi_app ++ 10 ∷ []))
      else return (psgi_env, psgi_app)

  -- The environment and the application, by the loader's module if there is one.
  unfoldable pub load_psgi_application : Option Bytes → Bytes → M P (Value × Value)
  load_psgi_application none path = do
    psgi_app ← lib.load_psgi path
    psgi_env ← lib.empty_hash
    return (psgi_env, psgi_app)
  load_psgi_application (some module_name) path = do
    lib.require (module_path module_name)
    entry ← lib.inc (module_path module_name)
    file ← in_inc (module_path module_name) entry
    result ← lib.do_file file
    loader ← check_loader file result
    loaded ← lib.call_loader loader
    check_loaded loaded

  -- The wrapper itself, with what the methods of the context return. It gives the callback of a worker,
  -- which is `serve_request` with the environment and the application.
  unfoldable pub fastcgi_wrapper : Option Bytes → Bytes → ℕ → M P (Value × Value)
  fastcgi_wrapper loader path sockfd = do
    loaded ← load_psgi_application loader path
    lib.new_request sockfd
    return loaded

  abbrev pub print_all : List Bytes → M P (Unit {0})
  print_all [] p = (ok tt, p)
  print_all (piece ∷ pieces) p = (lib.print piece >> print_all pieces) p

  -- Whether an object is returned by which the body is written later.
  abbrev pub write_body : Option (List Bytes) → M P Bool
  write_body none = return true
  write_body (some pieces) = do print_all pieces; return false

  unfoldable pub handle_response : Response → M P Bool
  handle_response res = do
    lib.print (header_text res.status (lib.status_message res.status) res.headers)
    write_body res.body

  abbrev pub respond : Answered → M P (Unit {0})
  respond (array res) = do handle_response res; return tt
  respond (code n) = lib.call_code n handle_response
  respond (bad kind) = die (codes "Bad response " ++ kind)

  abbrev pub serve_accepted : Value → Value → Option Env → M P ℤ
  serve_accepted psgi_env psgi_app none = return minus_one
  serve_accepted psgi_env psgi_app (some env) = do
    res ← lib.run_app psgi_app (request_env env (lib.entries psgi_env))
    respond res
    lib.finish
    return (pos 1)

  -- The callback of a worker.
  unfoldable pub serve_request : Value → Value → M P ℤ
  serve_request psgi_env psgi_app = do env ← lib.accept; serve_accepted psgi_env psgi_app env
