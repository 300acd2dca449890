-- ===== src/PerlModule/Requests.antt =====
-- The methods of the context and of atomic integers: they return or croak, and what they return is held.
use blade_psgi.Base.{
  ℕ, ◌≡◌, refl, ap, Option, none, some, List, [], ◌∷◌, ◌++◌, length, get_elem?, get_elem?-append,
  get_elem?-kept, inl, inr,
}
use blade_psgi.Base.Bytes.{Bytes}
use blade_psgi.Base.Words.{ℤ, pos}
use blade_psgi.Base.Outcome.{◌>>=◌, ◌>>◌}
use blade_psgi.Shmem.PosixSem.{SemLib}
use blade_psgi.Shmem.{set_worker_status, SharedMemory, Semaphore}
use blade_psgi.MainApp.Spawn.{request_auxiliary_process}
use blade_psgi.PerlGlue.{Sv, plain}
use blade_psgi.PerlBridge.{
  cb_new_semaphore, cb_new_atomic_int64, cb_set_worker_status, cb_atomic_int64_store,
}
use blade_psgi.PerlBridge.Callbacks.{
  Serving, non_null, cb_fastcgi_listen_sockfd, cb_psgi_application_path, cb_psgi_application_loader,
  cb_request_auxiliary_process,
}
use blade_psgi.PerlBridge.Errors.{cb_new_semaphore-IsReported, cb_new_atomic_int64-IsReported}
use blade_psgi.PerlModule.{
  World, Value, sv, iv, truth, pure, return_value, with_shmem, atomic_int64_class, finish, to_int,
}
use blade_psgi.PerlModule.ContextMethods.{
  is_set, on_application, requested_process, made_atomic, made_semaphore, malloc_handle, first_byte,
  status_of, set_last, new_svpv, context_set_worker_status, context_fastcgi_listen_sockfd,
  context_psgi_application_path, context_psgi_application_loader, context_is_worker,
  context_request_auxiliary_process, context_new_semaphore, context_new_atomic_int64,
}
use blade_psgi.PerlModule.ObjectMethods.{
  atomic_int64_incr, atomic_int64_fetch_add, atomic_int64_load, atomic_int64_store,
}
use blade_psgi.PerlModule.Held.{
  IsHeld, IsReceiver, Grows, same-Grows, IsSound, t_ptrobj_special-IsSound, with_context-IsSound,
}
use blade_psgi.PerlModule.Semaphores.{bytes-Grows}

-- The application serves: it has its socket and the path of a PSGI application.
pub record IsServing (serving : Serving) : Type 0 where
  pub fd : ℕ
  pub has_fd : serving.fastcgi_sockfd ≡ some fd
  pub path : Bytes
  pub has_path : serving.psgi_application_path ≡ some path

set_last_lem :
    (hs : List (Option Semaphore)) (x : Semaphore)
    → set_last (hs ++ none ∷ []) x ≡ hs ++ some x ∷ []
set_last_lem [] x = refl
set_last_lem (h ∷ []) x = refl
set_last_lem (h ∷ g ∷ hs) x = ap (λ r. h ∷ r) (set_last_lem (g ∷ hs) x)

module _ {ℓ} {A : Type ℓ} where
  abbrev Kept : List A → List A → Type ℓ
  Kept xs ys = (i : ℕ) (a : A) → get_elem? xs i ≡ some a → get_elem? ys i ≡ some a

  equal-Kept : (xs ys : List A) → ys ≡ xs → Kept xs ys
  equal-Kept xs ys e i a f = rw e f

  append-Kept : (xs ys zs : List A) → ys ≡ xs ++ zs → Kept xs ys
  append-Kept xs ys zs e i a f = rw e (get_elem?-kept xs zs i a f)

-- Longer tables, and structs behind the present ones.
tables-Grows :
    (w : World) (hs : List (Option Semaphore)) (t : SharedMemory)
    → Kept w.mainapp.shmem.semaphores t.semaphores
    → Kept w.mainapp.shmem.atomics t.atomics
    → Grows w (record w { handles = w.handles ++ hs; mainapp = record w.mainapp { shmem = t } })
tables-Grows w hs t sems atoms = record {
  same_ctx = refl;
  same_serving = refl;
  handles = λ p x e. get_elem?-kept w.handles hs p (some x) e;
  semaphores = sems;
  atomics = atoms;
}

new_svpv-IsHeld : (w : World) (text : Option Bytes) → IsHeld w (new_svpv text)
new_svpv-IsHeld w none = tt
new_svpv-IsHeld w (some text) = tt

shmem-Grows :
    (w : World) (t : SharedMemory)
    → Kept w.mainapp.shmem.semaphores t.semaphores
    → Kept w.mainapp.shmem.atomics t.atomics
    → Grows w (record w { mainapp = record w.mainapp { shmem = t } })
shmem-Grows w t sems atoms = record {
  same_ctx = refl;
  same_serving = refl;
  handles = λ p x e. e;
  semaphores = sems;
  atomics = atoms;
}

module _ (w : World) (MayFail : Type 0) (v : Value) (h : IsReceiver w v) where
  non_null-IsSound :
      {A : Type 0} (o : Option A) (a : A) (f : A → Value)
      → o ≡ some a
      → ((b : A) → IsHeld w (f b))
      → IsSound w MayFail (some (pure (non_null o) f w))
  non_null-IsSound none a f e held = absurd (cc)
  non_null-IsSound (some b) a f e held = (same-Grows w, held b)

  status_of-IsSound :
      (worker : Option ℕ) (chr : Bytes) → IsSound w MayFail (finish (status_of worker chr) w)
  unfolding cb_set_worker_status set_worker_status
  status_of-IsSound none chr = same-Grows w
  status_of-IsSound (some n) chr =
      (bytes-Grows w (set_worker_status n (first_byte chr) w.mainapp.shmem).1 refl, tt)

  pub set_worker_status-IsSound :
      (chr : Bytes) → IsSound w MayFail (context_set_worker_status v chr w)
  unfolding context_set_worker_status
  set_worker_status-IsSound chr =
      with_context-IsSound w MayFail v (λ c. finish (status_of c.worker chr)) h
        (status_of-IsSound w.context.worker chr)

  pub fastcgi_listen_sockfd-IsSound :
      IsServing w.serving → IsSound w MayFail (context_fastcgi_listen_sockfd v w)
  unfolding context_fastcgi_listen_sockfd cb_fastcgi_listen_sockfd
  fastcgi_listen_sockfd-IsSound s =
      with_context-IsSound w MayFail v
        (λ c w. finish (pure (cb_fastcgi_listen_sockfd (some w.serving)) λ fd. iv (pos fd)) w) h
        (non_null-IsSound w.serving.fastcgi_sockfd s.fd (λ fd. iv (pos fd)) s.has_fd (λ fd. tt))

  pub psgi_application_path-IsSound :
      IsServing w.serving → IsSound w MayFail (context_psgi_application_path v w)
  unfolding context_psgi_application_path cb_psgi_application_path
  psgi_application_path-IsSound s =
      with_context-IsSound w MayFail v
        (λ c w. finish (pure (cb_psgi_application_path (some w.serving)) λ path. sv (plain path)) w)
        h
        (non_null-IsSound w.serving.psgi_application_path s.path (λ path. sv (plain path))
          s.has_path (λ path. tt))

  pub psgi_application_loader-IsSound : IsSound w MayFail (context_psgi_application_loader v w)
  unfolding context_psgi_application_loader cb_psgi_application_loader
  psgi_application_loader-IsSound =
      with_context-IsSound w MayFail v
        (λ c w. finish (pure (cb_psgi_application_loader (some w.serving)) new_svpv) w) h
        (same-Grows w, new_svpv-IsHeld w w.serving.psgi_application_loader)

  pub is_worker-IsSound : IsSound w MayFail (context_is_worker v w)
  unfolding context_is_worker
  is_worker-IsSound =
      with_context-IsSound w MayFail v (λ c. finish (return_value (truth (is_set c.worker)))) h
        (same-Grows w, tt)

  pub request_auxiliary_process-IsSound :
      (name : Bytes) (cback : Sv)
      → IsSound w MayFail (context_request_auxiliary_process v name cback w)
  unfolding context_request_auxiliary_process cb_request_auxiliary_process request_auxiliary_process
  request_auxiliary_process-IsSound name cback =
      with_context-IsSound w MayFail v
        (λ c w.
          finish
            (on_application (cb_request_auxiliary_process w.ctx name cback)
              >>= requested_process name cback)
            w)
        h
        (
          record {
            same_ctx = refl;
            same_serving = refl;
            handles = λ p x e. e;
            semaphores = λ i x e. e;
            atomics = λ i a e. e;
          },
          tt,
        )

  pub new_atomic_int64-IsSound :
      (name : Bytes) (value : ℤ) → IsSound w MayFail (context_new_atomic_int64 v name value w)
  unfolding context_new_atomic_int64
  new_atomic_int64-IsSound name value =
      let s = w.mainapp.shmem in
      let r = cb_new_atomic_int64 name (to_int value) s in
      let (how, same) = cb_new_atomic_int64-IsReported name (to_int value) s in
      with_context-IsSound w MayFail v
        (λ c. finish (with_shmem (cb_new_atomic_int64 name (to_int value)) >>= made_atomic name)) h
        (elim how [
          | inl (a, e, named, more) ↦ rw e (
            shmem-Grows w r.1 (equal-Kept s.semaphores r.1.semaphores same)
                (append-Kept s.atomics r.1.atomics (a ∷ []) more),
            (length s.atomics, a, rw more (get_elem?-append s.atomics a), refl),
          )
          | inr (m, e, kept) ↦ rw e (
              shmem-Grows w r.1 (equal-Kept s.semaphores r.1.semaphores same)
                (equal-Kept s.atomics r.1.atomics kept))
        ])

  pub new_semaphore-IsSound :
      (lib : SemLib) (strerror : ℕ → Bytes) (name : Bytes) (value : ℤ)
      → IsSound w MayFail (context_new_semaphore lib strerror v name value w)
  unfolding context_new_semaphore
  new_semaphore-IsSound lib strerror name value =
      let s = w.mainapp.shmem in
      let r = cb_new_semaphore lib strerror name (to_int value) s in
      let (how, same) = cb_new_semaphore-IsReported lib strerror name (to_int value) s in
      with_context-IsSound w MayFail v
        (λ c w.
          finish
            (malloc_handle
              >> with_shmem (cb_new_semaphore lib strerror name (to_int value))
              >>= made_semaphore (length w.handles) name)
            w)
        h
        (elim how [
          | inl (x, e, named, more) ↦
              rw (e, set_last_lem w.handles x)
                (
                  tables-Grows w (some x ∷ []) r.1
                      (append-Kept s.semaphores r.1.semaphores (x ∷ []) more)
                      (equal-Kept s.atomics r.1.atomics same),
                  (
                    x,
                    get_elem?-append w.handles (some x),
                    length s.semaphores,
                    rw more (get_elem?-append s.semaphores x),
                  ),
                )
          | inr (m, e, kept) ↦ rw e (
              tables-Grows w (none ∷ []) r.1 (equal-Kept s.semaphores r.1.semaphores kept)
                (equal-Kept s.atomics r.1.atomics same))
        ])

  pub incr-IsSound : IsSound w MayFail (atomic_int64_incr v w)
  unfolding atomic_int64_incr
  incr-IsSound =
      t_ptrobj_special-IsSound w MayFail atomic_int64_class _ v _ h
        (λ p held. (bytes-Grows w _ refl, tt))

  pub fetch_add-IsSound : (val : ℤ) → IsSound w MayFail (atomic_int64_fetch_add v val w)
  unfolding atomic_int64_fetch_add
  fetch_add-IsSound val =
      t_ptrobj_special-IsSound w MayFail atomic_int64_class _ v _ h
        (λ p held. (bytes-Grows w _ refl, tt))

  pub load-IsSound : IsSound w MayFail (atomic_int64_load v w)
  unfolding atomic_int64_load
  load-IsSound =
      t_ptrobj_special-IsSound w MayFail atomic_int64_class _ v _ h (λ p held. (same-Grows w, tt))

  pub store-IsSound : (val : ℤ) → IsSound w MayFail (atomic_int64_store v val w)
  unfolding atomic_int64_store cb_atomic_int64_store
  store-IsSound val =
      t_ptrobj_special-IsSound w MayFail atomic_int64_class _ v _ h
        (λ p held. (bytes-Grows w _ refl, tt))
