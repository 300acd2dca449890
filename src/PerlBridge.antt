-- ===== src/PerlBridge.antt =====
-- The callbacks of the Perl module (src/perl_interpreter_sea_bridge.cpp), and
-- PerlInterpreterException (src/perl_interpreter.cpp). `strerror` gives the text of an `errno`.
pub mod Errors
pub mod Callbacks
pub mod Messages
use blade_psgi.Base.{
  ℕ, ◌≡◌, Bool, true, false, ◌||◌, Option, none, some, List, [], ◌∷◌, ◌++◌, take, ◌==◌,
  if◌then◌else◌,
}
use blade_psgi.Base.Bytes.{Bytes, codes}
use blade_psgi.Base.Words.{ℤ, pattern64}
use blade_psgi.Base.Outcome.{
  Exn, syscall_failed, syscall_failed_text, string_error, perl_error, Outcome, ok, throw, exited,
  aborted, M,
}
use blade_psgi.Shmem.Memory.{load, store}
use blade_psgi.Shmem.PosixSem.{SemLib}
use blade_psgi.Shmem.{
  SharedMemory, Semaphore, new_semaphore, new_atomic_int64, fetch_add, set_worker_status,
}
use blade_psgi.Semaphore.{acquire, try_acquire, release}
use blade_psgi.CommandLine.{system_call_failed}

-- `snprintf` into a buffer of `n + 1` bytes.
abbrev pub snprintf : ℕ → Bytes → Bytes
snprintf n text = take n text

-- What the caller gets: NULL with an object in the place that it passed, or a message.
pub data Requested {ℓ} (A : Type ℓ) : Type ℓ where
  granted : A → Requested A
  refused : Bytes → Requested A

abbrev pub message {ℓ} : {A : Type ℓ} → (ℕ → Bytes) → Outcome A → Outcome (Requested A)
message strerror (ok a) = ok (granted a)
message strerror (throw (string_error m)) = ok (refused m)
message strerror (throw (syscall_failed call errno)) =
    ok (refused (snprintf 2047 (system_call_failed call (strerror errno))))
message strerror (throw (syscall_failed_text call error)) =
    ok (refused (snprintf 2047 (system_call_failed call error)))
message strerror (throw e) = throw e
message strerror (exited n) = exited n
message strerror aborted = aborted

-- The same with a handler for strings only.
abbrev pub string_message {ℓ} : {A : Type ℓ} → Outcome A → Outcome (Requested A)
string_message (ok a) = ok (granted a)
string_message (throw (string_error m)) = ok (refused m)
string_message (throw e) = throw e
string_message (exited n) = exited n
string_message aborted = aborted

-- The requests of the loader, whose `value` is an int.
unfoldable pub cb_new_semaphore :
    SemLib → (ℕ → Bytes) → Bytes → ℤ → M SharedMemory (Requested Semaphore)
cb_new_semaphore lib strerror name value s =
    let r = new_semaphore lib name value s in (message strerror r.0, r.1)

unfoldable pub cb_new_atomic_int64 : Bytes → ℤ → M SharedMemory (Requested ℕ)
cb_new_atomic_int64 name value s =
    let r = new_atomic_int64 name value s in (string_message r.0, r.1)

-- With the worker's number, if the context has a worker, and the first byte of the status.
unfoldable pub cb_set_worker_status : Option ℕ → ℕ → M SharedMemory (Unit {0})
cb_set_worker_status none status s = (aborted, s)
cb_set_worker_status (some workerno) status s = set_worker_status workerno status s

-- `std::atomic_load` and `std::atomic_store` on a user's atomic integer.
unfoldable pub cb_atomic_int64_load : ℕ → SharedMemory → ℕ
cb_atomic_int64_load p s = load 8 s.segment p

unfoldable pub cb_atomic_int64_store : ℕ → ℤ → M SharedMemory (Unit {0})
cb_atomic_int64_store p value s =
    (ok tt, record s { segment = store 8 s.segment p (pattern64 value) })

-- The loop of PerlInterpreterException over the text from its end: carriage returns and newlines
-- there are cut off. `vsnprintf` has kept 4095 bytes.
unfoldable pub strip : Bytes → Bytes
strip [] = []
strip (b ∷ bs) =
    let rest = strip bs in
    elim rest [ [] ↦ if b == 13 || b == 10 then [] else b ∷ [] | c ∷ cs ↦ b ∷ c ∷ cs ]

unfoldable pub perl_interpreter_exception : Bytes → Exn
perl_interpreter_exception text = perl_error (strip (snprintf 4095 text))
