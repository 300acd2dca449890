-- ===== src/PerlModule/Calls.antt =====
-- The calls that Perl makes of the methods, on the objects that it has got.
use blade_psgi.Base.{
  ℕ, ◌≡◌, refl, Bool, false, some, List, [], ◌∷◌, get_elem?, All, All-mono, All-get_elem?, subst,
  sym,
}
use blade_psgi.Base.Bytes.{Bytes}
use blade_psgi.Base.Words.{ℤ}
use blade_psgi.Base.Outcome.{ok}
use blade_psgi.Shmem.PosixSem.{SemLib}
use blade_psgi.PerlGlue.{Sv}
use blade_psgi.PerlModule.{
  Class, context_class, Value, object, sv, iv, truth, unset, Reply, returns, croaks, World, Method,
  derived_from,
}
use blade_psgi.PerlModule.ContextMethods.{
  context_set_worker_status, context_fastcgi_listen_sockfd, context_psgi_application_path,
  context_psgi_application_loader, context_is_worker, context_request_auxiliary_process,
  context_new_semaphore, context_new_atomic_int64,
}
use blade_psgi.PerlModule.ObjectMethods.{
  semaphore_acquire, semaphore_tryacquire, semaphore_release, atomic_int64_incr,
  atomic_int64_fetch_add, atomic_int64_load, atomic_int64_store,
}
use blade_psgi.PerlModule.Held.{IsHeld, IsReceiver, IsSound, IsHeld-Grows}
use blade_psgi.PerlModule.Semaphores.{acquire-IsSound, tryacquire-IsSound, release-IsSound}
use blade_psgi.PerlModule.Requests.{
  IsServing, set_worker_status-IsSound, fastcgi_listen_sockfd-IsSound,
  psgi_application_path-IsSound, psgi_application_loader-IsSound, is_worker-IsSound,
  request_auxiliary_process-IsSound, new_semaphore-IsSound, new_atomic_int64-IsSound, incr-IsSound,
  fetch_add-IsSound, load-IsSound, store-IsSound,
}

-- A method with its arguments but the first.
pub data Call : Type 0 where
  sets_worker_status : Bytes → Call
  gets_sockfd gets_path gets_loader is_worker : Call
  requests_process : Bytes → Sv → Call
  makes_semaphore makes_atomic : Bytes → ℤ → Call
  acquires tries : List Bool → Call
  releases increments loads : Call
  adds stores : ℤ → Call

module _ (lib : SemLib) (strerror : ℕ → Bytes) where
  unfoldable pub invoke : Value → Call → Method
  invoke v (sets_worker_status chr) = context_set_worker_status v chr
  invoke v gets_sockfd = context_fastcgi_listen_sockfd v
  invoke v gets_path = context_psgi_application_path v
  invoke v gets_loader = context_psgi_application_loader v
  invoke v is_worker = context_is_worker v
  invoke v (requests_process name cback) = context_request_auxiliary_process v name cback
  invoke v (makes_semaphore name value) = context_new_semaphore lib strerror v name value
  invoke v (makes_atomic name value) = context_new_atomic_int64 v name value
  invoke v (acquires rounds) = semaphore_acquire lib v rounds
  invoke v (tries rounds) = semaphore_tryacquire lib v rounds
  invoke v releases = semaphore_release lib v
  invoke v increments = atomic_int64_incr v
  invoke v loads = atomic_int64_load v
  invoke v (adds val) = atomic_int64_fetch_add v val
  invoke v (stores val) = atomic_int64_store v val

-- The methods of semaphores.
abbrev pub OnSemaphore : Call → Type 0
OnSemaphore (acquires rounds) = Unit
OnSemaphore (tries rounds) = Unit
OnSemaphore releases = Unit
OnSemaphore _ = ⊥

-- One of the objects, or another value that is not the name of a class.
abbrev pub IsFrom : List Value → Value → Type 0
IsFrom vs (object k p) = (i : ℕ) × (get_elem? vs i ≡ some (object k p))
IsFrom vs v = (k : Class) → derived_from k v ≡ false

abbrev pub with_reply : List Value → Reply → List Value
with_reply vs (returns v) = v ∷ vs
with_reply vs (croaks text) = vs

-- The world and the values that Perl has got, after calls that return or croak, each on one of these
-- values or on one that is no object. Perl begins with an object of the context.
pub data Reaches (lib : SemLib) (strerror : ℕ → Bytes) (w₀ : World)
    : World → List Value → Type 0 where
  begins : Reaches lib strerror w₀ w₀ (object context_class w₀.ctx ∷ [])
  calls :
      (w w' : World) (vs : List Value) (v : Value) (c : Call) (r : Reply)
      → Reaches lib strerror w₀ w vs
      → IsFrom vs v
      → invoke lib strerror v c w ≡ some (ok r, w')
      → Reaches lib strerror w₀ w' (with_reply vs r)

IsFrom-IsReceiver :
    (w : World) (vs : List Value) (v : Value) → All (IsHeld w) vs → IsFrom vs v → IsReceiver w v
IsFrom-IsReceiver w vs (object k p) h from = All-get_elem? (IsHeld w) vs from.0 h from.1
IsFrom-IsReceiver w vs (sv s) h from = from
IsFrom-IsReceiver w vs (iv z) h from = from
IsFrom-IsReceiver w vs (truth b) h from = from
IsFrom-IsReceiver w vs unset h from = from

module _ (lib : SemLib) (strerror : ℕ → Bytes) where
  invoke-IsSound :
      (w : World) (v : Value) (c : Call)
      → IsServing w.serving
      → IsReceiver w v
      → IsSound w (OnSemaphore c) (invoke lib strerror v c w)
  unfolding invoke
  invoke-IsSound w v (sets_worker_status chr) s h = set_worker_status-IsSound w ⊥ v h chr
  invoke-IsSound w v gets_sockfd s h = fastcgi_listen_sockfd-IsSound w ⊥ v h s
  invoke-IsSound w v gets_path s h = psgi_application_path-IsSound w ⊥ v h s
  invoke-IsSound w v gets_loader s h = psgi_application_loader-IsSound w ⊥ v h
  invoke-IsSound w v is_worker s h = is_worker-IsSound w ⊥ v h
  invoke-IsSound w v (requests_process name cback) s h =
      request_auxiliary_process-IsSound w ⊥ v h name cback
  invoke-IsSound w v (makes_semaphore name value) s h =
      new_semaphore-IsSound w ⊥ v h lib strerror name value
  invoke-IsSound w v (makes_atomic name value) s h = new_atomic_int64-IsSound w ⊥ v h name value
  invoke-IsSound w v (acquires rounds) s h = acquire-IsSound lib w v h rounds
  invoke-IsSound w v (tries rounds) s h = tryacquire-IsSound lib w v h rounds
  invoke-IsSound w v releases s h = release-IsSound lib w v h
  invoke-IsSound w v increments s h = incr-IsSound w ⊥ v h
  invoke-IsSound w v loads s h = load-IsSound w ⊥ v h
  invoke-IsSound w v (adds val) s h = fetch_add-IsSound w ⊥ v h val
  invoke-IsSound w v (stores val) s h = store-IsSound w ⊥ v h val

  with_reply-IsHeld :
      (w w' : World) (vs : List Value) (r : Reply) (MayFail : Type 0)
      → All (IsHeld w) vs
      → IsServing w.serving
      → IsSound w MayFail (some (ok r, w'))
      → All (IsHeld w') (with_reply vs r) × IsServing w'.serving
  with_reply-IsHeld w w' vs (returns v) F h s g = (
    (g.1, All-mono (λ u held. IsHeld-Grows w w' u g.0 held) vs h),
    subst IsServing (sym g.0.same_serving) s,
  )
  with_reply-IsHeld w w' vs (croaks text) F h s g =
      (All-mono (λ u held. IsHeld-Grows w w' u g held) vs h, subst IsServing (sym g.same_serving) s)

  reached :
      (w₀ w : World) (vs : List Value)
      → IsServing w₀.serving
      → Reaches lib strerror w₀ w vs
      → All (IsHeld w) vs × IsServing w.serving
  reached w₀ w vs s begins = ((refl, tt), s)
  reached w₀ w vs s (calls w₁ w' vs₁ v c r before from e) =
      let (h, s₁) = reached w₀ w₁ vs₁ s before in
      with_reply-IsHeld w₁ w' vs₁ r (OnSemaphore c) h s₁ (
        subst (IsSound w₁ (OnSemaphore c)) e
          (invoke-IsSound w₁ v c s₁ (IsFrom-IsReceiver w₁ vs₁ v h from)))

  -- Whatever methods Perl calls while the application serves, beginning with an object of the context,
  -- on the objects that it has got and on values that are neither objects nor names of classes: each
  -- object refers to the context, to a struct that holds a semaphore of the table, or to an integer of
  -- the table, and the next such call does not end the process. It returns or croaks, or, if its method
  -- is one of a semaphore, waits or throws; all these entries stay, and an object that it returns refers
  -- to such an entry.
  pub Reaches-IsSound :
      (w₀ w : World) (vs : List Value) (v : Value) (c : Call)
      → IsServing w₀.serving
      → Reaches lib strerror w₀ w vs
      → IsFrom vs v
      → All (IsHeld w) vs × IsSound w (OnSemaphore c) (invoke lib strerror v c w)
  Reaches-IsSound w₀ w vs v c s path from =
      let (h, s') = reached w₀ w vs s path in
      (h, invoke-IsSound w v c s' (IsFrom-IsReceiver w vs v h from))
