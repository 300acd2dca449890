-- ===== src/PerlModule.antt =====
-- The Perl module BPSGI: the methods of src/perl/XS.xs, with the conversion of their first argument by
-- src/perl/typemap, over the callbacks of PerlBridge.antt. What xsubpp adds is not modelled: the number
-- of the arguments, the conversion of the others, except that of an integer to int, and the place that
-- croak appends to a text. The methods are in ContextMethods and ObjectMethods.
pub mod ContextMethods
pub mod ObjectMethods
pub mod Held
pub mod Semaphores
pub mod Requests
pub mod Calls
pub mod Integers
use blade_psgi.Base.{
  ℕ, ◌+◌, ◌-◌, ◌%◌, ◌^◌, ◌≡◌, Bool, true, false, not, Option, none, some, List, [], ◌∷◌, ◌++◌,
  length, get_elem?, ltb, ◌==◌, if◌then◌else◌,
}
use blade_psgi.Base.Bytes.{Bytes, codes, same}
use blade_psgi.Base.Words.{ℤ, pos, negsuc, signed64, pattern64}
use blade_psgi.Base.Outcome.{Outcome, ok, throw, exited, aborted, M, ◌>>=◌, ◌>>◌, return, get, put}
use blade_psgi.Shmem.PosixSem.{SemLib}
use blade_psgi.Shmem.{SharedMemory, Semaphore, fetch_add}
use blade_psgi.MainApp.{MainApp}
use blade_psgi.PerlGlue.{Callback, Sv, undef, plain}
use blade_psgi.PerlInterpreter.{Context}
use blade_psgi.PerlBridge.{
  Requested, granted, refused, cb_new_semaphore, cb_new_atomic_int64, cb_set_worker_status,
  cb_atomic_int64_load, cb_atomic_int64_store,
}
use blade_psgi.PerlBridge.Callbacks.{
  Serving, cb_fastcgi_listen_sockfd, cb_psgi_application_path, cb_psgi_application_loader,
  cb_request_auxiliary_process, cb_sem_acquire, cb_sem_tryacquire, cb_sem_release,
}

pub data Class : Type 0 where
  context_class semaphore_class atomic_int64_class : Class

abbrev pub class_name : Class → Bytes
class_name context_class = codes "BPSGI::Context"
class_name semaphore_class = codes "BPSGI::Semaphore"
class_name atomic_int64_class = codes "BPSGI::AtomicInt64"

-- A value of Perl: an integer, a truth value, a reference to an object of a class, or of one derived from
-- it, which holds an address; or another value. `unset` is what a method gives that is void,
-- or whose RETVAL is not set.
pub data Value : Type 0 where
  sv : Sv → Value
  iv : ℤ → Value
  truth : Bool → Value
  object : Class → ℕ → Value
  unset : Value

pub data Reply : Type 0 where
  returns : Value → Reply
  croaks : Bytes → Reply

-- What the methods change: the application with the callbacks of its auxiliary processes, the structs
-- BPSGI_Semaphore on the heap, which are `none` as malloc leaves them, and the references taken. The
-- interpreter's context lies at `ctx`; an atomic integer's address is its place in the segment.
pub record World : Type 0 where
  pub ctx : ℕ
  pub context : Context
  pub serving : Serving
  pub mainapp : MainApp
  pub callbacks : List Callback
  pub handles : List (Option Semaphore)
  pub retained : List Sv

-- A method; a call that waits has no result.
abbrev pub Method : Type 0
Method = World → Option (Outcome Reply × World)

abbrev pub with_shmem : {A : Type 0} → M SharedMemory A → M World A
with_shmem m w =
    let r = m w.mainapp.shmem in (r.0, record w { mainapp = record w.mainapp { shmem = r.1 } })

abbrev pub finish : M World Reply → Method
finish m w = some (m w)

abbrev pub same_class : Class → Class → Bool
same_class context_class context_class = true
same_class semaphore_class semaphore_class = true
same_class atomic_int64_class atomic_int64_class = true
same_class _ _ = false

-- `sv_derived_from`, which takes the name of a class, too.
abbrev pub derived_from : Class → Value → Bool
derived_from k (object c p) = same_class c k
derived_from k (sv (plain text)) = same text (class_name k)
derived_from k _ = false

abbrev pub not_of_type : Bytes → Class → Bytes
not_of_type var k = var ++ codes " is not of type " ++ class_name k

-- The address behind a reference; there is none behind another value.
abbrev pub dereferenced : Value → (ℕ → Method) → Method
dereferenced (object c p) f w = f p w
dereferenced v f w = some (aborted, w)

-- T_PTROBJ_SPECIAL
unfoldable pub t_ptrobj_special : Class → Bytes → Value → (ℕ → Method) → Method
t_ptrobj_special k var v f w =
    if derived_from k v then dereferenced v f w else some (ok (croaks (not_of_type var k)), w)

abbrev pub when : {A : Type 0} → Option A → (A → Method) → Method
when none f w = some (aborted, w)
when (some a) f w = f a w

-- What lies at an address that was given to Perl; any other is a fault.
abbrev pub with_context : Value → (Context → Method) → Method
with_context v f =
    t_ptrobj_special context_class (codes "CTX") v
      λ p w. if p == w.ctx then f w.context w else some (aborted, w)

abbrev pub with_semaphore : Value → (Option Semaphore → Method) → Method
with_semaphore v f =
    t_ptrobj_special semaphore_class (codes "SEM") v λ p w. when (get_elem? w.handles p) f w

abbrev pub with_atomic : Value → (ℕ → Method) → Method
with_atomic v f = t_ptrobj_special atomic_int64_class (codes "ATM") v f

-- The conversion of an integer to int.
abbrev pub to_int : ℤ → ℤ
to_int z = let u = pattern64 z % 2 ^ 32 in if ltb u (2 ^ 31) then pos u else negsuc (2 ^ 32 - 1 - u)

abbrev pub return_value : Value → M World Reply
return_value v w = (ok (returns v), w)

abbrev pub croak : Bytes → M World Reply
croak text w = (ok (croaks text), w)

-- A call of a function that changes nothing.
abbrev pub pure : {A : Type 0} → Outcome A → (A → Value) → M World Reply
pure (ok a) f w = (ok (returns (f a)), w)
pure (throw e) f w = (throw e, w)
pure (exited n) f w = (exited n, w)
pure aborted f w = (aborted, w)
