-- ===== src/PerlModule/ContextMethods.antt =====
-- The methods of BPSGI::Context.
use blade_psgi.Base.{ℕ, Bool, true, false, Option, none, some, List, [], ◌∷◌, ◌++◌, length}
use blade_psgi.Base.Bytes.{Bytes, codes}
use blade_psgi.Base.Words.{ℤ, pos}
use blade_psgi.Base.Outcome.{ok, M, ◌>>=◌, ◌>>◌}
use blade_psgi.Shmem.PosixSem.{SemLib}
use blade_psgi.Shmem.{Semaphore}
use blade_psgi.MainApp.{MainApp}
use blade_psgi.PerlGlue.{Callback, Sv, undef, plain}
use blade_psgi.PerlBridge.{
  Requested, granted, refused, cb_new_semaphore, cb_new_atomic_int64, cb_set_worker_status,
}
use blade_psgi.PerlBridge.Callbacks.{
  cb_fastcgi_listen_sockfd, cb_psgi_application_path, cb_psgi_application_loader,
  cb_request_auxiliary_process,
}
use blade_psgi.PerlModule.{
  Value, Reply, World, Method, with_shmem, finish, with_context, to_int, return_value, croak, pure,
  semaphore_class, atomic_int64_class, sv, iv, truth, object, unset, returns,
}

-- The first byte of a C string.
abbrev pub first_byte : Bytes → ℕ
first_byte [] = 0
first_byte (b ∷ bs) = b

abbrev pub status_of : Option ℕ → Bytes → M World Reply
status_of none chr =
    croak (codes "worker status change attempted from a non-worker BladePSGI context" ++ 10 ∷ [])
status_of (some workerno) chr = do
  with_shmem (cb_set_worker_status (some workerno) (first_byte chr))
  return_value unset

unfoldable pub context_set_worker_status : Value → Bytes → Method
context_set_worker_status ctx chr = with_context ctx λ c. finish (status_of c.worker chr)

unfoldable pub context_fastcgi_listen_sockfd : Value → Method
context_fastcgi_listen_sockfd ctx =
    with_context ctx
      λ c w. finish (pure (cb_fastcgi_listen_sockfd (some w.serving)) λ fd. iv (pos fd)) w

unfoldable pub context_psgi_application_path : Value → Method
context_psgi_application_path ctx =
    with_context ctx
      λ c w. finish (pure (cb_psgi_application_path (some w.serving)) λ path. sv (plain path)) w

-- newSVpv of NULL is undefined.
abbrev pub new_svpv : Option Bytes → Value
new_svpv none = sv undef
new_svpv (some text) = sv (plain text)

unfoldable pub context_psgi_application_loader : Value → Method
context_psgi_application_loader ctx =
    with_context ctx λ c w. finish (pure (cb_psgi_application_loader (some w.serving)) new_svpv) w

abbrev pub is_set : Option ℕ → Bool
is_set none = false
is_set (some worker) = true

unfoldable pub context_is_worker : Value → Method
context_is_worker ctx = with_context ctx λ c. finish (return_value (truth (is_set c.worker)))

abbrev pub could_not_create : Bytes → Bytes → Bytes → Bytes
could_not_create kind name error =
    codes "could not create a new " ++ kind ++ codes " " ++ name ++ codes ": " ++ error ++ 10 ∷ []

abbrev pub on_application : M (MainApp × List Callback) (Option Bytes) → M World (Option Bytes)
on_application m w =
    let r = m (w.mainapp, w.callbacks) in (r.0, record w { mainapp = r.1.0; callbacks = r.1.1 })

abbrev pub retain : Sv → M World Reply
retain cback w = (ok (returns unset), record w { retained = cback ∷ w.retained })

abbrev pub requested_process : Bytes → Sv → Option Bytes → M World Reply
requested_process name cback (some error) = croak (could_not_create (codes "semaphore") name error)
requested_process name cback none = retain cback

unfoldable pub context_request_auxiliary_process : Value → Bytes → Sv → Method
context_request_auxiliary_process ctx name cback = with_context ctx λ c w.
    finish
      (on_application (cb_request_auxiliary_process w.ctx name cback)
        >>= requested_process name cback)
      w

-- malloc; and the assignment by the callback, to the struct that is the last one.
abbrev pub malloc_handle : M World (Unit {0})
malloc_handle w = (ok tt, record w { handles = w.handles ++ none ∷ [] })

abbrev pub set_last : List (Option Semaphore) → Semaphore → List (Option Semaphore)
set_last [] x = []
set_last (h ∷ []) x = some x ∷ []
set_last (h ∷ g ∷ gs) x = h ∷ set_last (g ∷ gs) x

abbrev pub made_semaphore : ℕ → Bytes → Requested Semaphore → M World Reply
made_semaphore place name (granted x) w =
    (ok (returns (object semaphore_class place)), record w { handles = set_last w.handles x })
made_semaphore place name (refused error) w =
    croak (could_not_create (codes "semaphore") name error) w

abbrev pub made_atomic : Bytes → Requested ℕ → M World Reply
made_atomic name (granted p) = return_value (object atomic_int64_class p)
made_atomic name (refused error) =
    croak (could_not_create (codes "64-bit atomic integer") name error)

unfoldable pub context_new_atomic_int64 : Value → Bytes → ℤ → Method
context_new_atomic_int64 ctx name value =
    with_context ctx
      λ c. finish (with_shmem (cb_new_atomic_int64 name (to_int value)) >>= made_atomic name)

module _ (lib : SemLib) where
  unfoldable pub context_new_semaphore : (ℕ → Bytes) → Value → Bytes → ℤ → Method
  context_new_semaphore strerror ctx name value = with_context ctx λ c w.
      finish
        (malloc_handle
          >> with_shmem (cb_new_semaphore lib strerror name (to_int value))
          >>= made_semaphore (length w.handles) name)
        w
