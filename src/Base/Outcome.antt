-- ===== src/Base/Outcome.antt =====
-- What a call can do besides return: throw an exception, or end the process. The classes of
-- exceptions are those that the program throws (bladepsgi.hpp, and std::logic_error, std::string).
use Prim.Native.Nat.{ℕ}
use mathlib.Core.Bool.{Bool, true, false}
use blade_psgi.Base.Bytes.{Bytes}

pub data Exn : Type 0 where
  syscall_failed : Bytes → ℕ → Exn  -- SyscallException(syscall, errno)
  syscall_failed_text : Bytes → Bytes → Exn  -- SyscallException(syscall, fmt, ...)
  runtime_error : Bytes → Exn  -- RuntimeException
  logic_error : Bytes → Exn  -- std::logic_error, a std::exception
  string_error : Bytes → Exn  -- std::string
  perl_error : Bytes → Exn  -- PerlInterpreterException

pub data Outcome {ℓ} (A : Type ℓ) : Type ℓ where
  ok : A → Outcome A
  throw : Exn → Outcome A
  exited : ℕ → Outcome A  -- exit(n) or _exit(n)
  aborted : Outcome A  -- abort(), and a failed Assert

-- A member function: what it does, and the object afterwards.
abbrev pub M {ℓ κ} : Type ℓ → Type κ → Type (ℓ ⊔ κ)
M S A = S → Outcome A × S

module _ {ℓ κ μ} {S : Type ℓ} {A : Type κ} {B : Type μ} where
  abbrev pub continue : Outcome A × S → (A → M S B) → Outcome B × S
  continue (ok a, s) f = f a s
  continue (throw e, s) f = (throw e, s)
  continue (exited n, s) f = (exited n, s)
  continue (aborted, s) f = (aborted, s)

  infixl 5 ◌>>=◌
  abbrev pub ◌>>=◌ : M S A → (A → M S B) → M S B
  ◌>>=◌ m f s = continue (m s) f

module _ {ℓ κ μ} {S : Type ℓ} {A : Type κ} {B : Type μ} where
  infixl 5 ◌>>◌
  abbrev pub ◌>>◌ : M S A → M S B → M S B
  ◌>>◌ m k = m >>= λ _. k

module _ {ℓ κ} {S : Type ℓ} {A : Type κ} where
  abbrev pub return : A → M S A
  return a s = (ok a, s)

  abbrev pub raise : Exn → M S A
  raise e s = (throw e, s)

  abbrev pub quit : ℕ → M S A
  quit n s = (exited n, s)

-- An early `throw`.
abbrev pub throw_if {ℓ} : {S : Type ℓ} → Bool → Exn → M S (Unit {0})
throw_if true e s = (throw e, s)
throw_if false e s = (ok tt, s)

-- `Assert(cond)`, which aborts.
abbrev pub assert {ℓ} : {S : Type ℓ} → Bool → M S (Unit {0})
assert true s = (ok tt, s)
assert false s = (aborted, s)

module _ {ℓ} {S : Type ℓ} where
  abbrev pub get : M S S
  get s = (ok s, s)

  abbrev pub put : S → M S (Unit {0})
  put t s = (ok tt, t)
