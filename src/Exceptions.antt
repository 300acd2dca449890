-- ===== src/Exceptions.antt =====
-- The classes of exceptions: `SyscallException` and `RuntimeException` of src/exceptions.cpp, and
-- `PerlInterpreterException` of src/perl_interpreter.cpp. The state is the heap, of which a buffer holds
-- a text; malloc succeeds, and freeing what is not allocated aborts. What vsnprintf makes of the
-- format and its arguments is an argument.
pub mod Lifetime
use blade_psgi.Base.{
  ℕ, ◌+◌, ◌≡◌, Bool, true, false, not, Option, none, some, List, [], ◌∷◌, take, ◌==◌, if◌then◌else◌,
}
use blade_psgi.Base.Bytes.{Bytes}
use blade_psgi.Base.Words.{ℤ, minus_one, equal}
use blade_psgi.Base.Outcome.{Outcome, ok, throw, exited, aborted, M, ◌>>=◌, ◌>>◌, return, assert}
use blade_psgi.PerlBridge.{strip}

pub record Heap : Type 0 where
  pub next : ℕ
  pub cell : ℕ → Option Bytes

abbrev pub update : (ℕ → Option Bytes) → ℕ → Option Bytes → ℕ → Option Bytes
update f p v q = if p == q then v else f q

-- `malloc(4096)` and vsnprintf into it, which keeps 4095 bytes.
abbrev pub format : Bytes → M Heap ℕ
format text h =
    (ok h.next, record h { next = h.next + 1; cell = update h.cell h.next (some (take 4095 text)) })

abbrev pub free_cell : ℕ → Option Bytes → M Heap (Unit {0})
free_cell p none h = (aborted, h)
free_cell p (some text) h = (ok tt, record h { cell = update h.cell p none })

abbrev pub free : ℕ → M Heap (Unit {0})
free p h = free_cell p (h.cell p) h

-- The text of a buffer; reading one that is not allocated aborts.
abbrev pub text_of : Option Bytes → M Heap Bytes
text_of none h = (aborted, h)
text_of (some text) h = (ok text, h)

abbrev pub read_text : ℕ → M Heap Bytes
read_text p h = text_of (h.cell p) h

pub record SyscallException : Type 0 where
  pub syscall : Bytes
  pub s_errno : ℤ
  pub strerror : Option ℕ

-- The constructors: with an `errno`, and with a text.
abbrev pub syscall_exception : Bytes → ℤ → SyscallException
syscall_exception syscall s_errno = record { syscall = syscall; s_errno = s_errno; strerror = none }

unfoldable pub syscall_exception_text : Bytes → Bytes → M Heap SyscallException
syscall_exception_text syscall text = do
  buf ← format text
  return (record { syscall = syscall; s_errno = minus_one; strerror = some buf })

-- The destructor; what it leaves is the object as its memory holds it.
abbrev pub destroy_buffer : Option ℕ → SyscallException → M Heap SyscallException
destroy_buffer none e = return e
destroy_buffer (some p) e = do free p; return (record e { strerror = none })

unfoldable pub destroy_syscall_exception : SyscallException → M Heap SyscallException
destroy_syscall_exception e = destroy_buffer e.strerror e

abbrev pub is_set : Option ℕ → Bool
is_set none = false
is_set (some p) = true

-- Exactly one of the buffer and the `errno` is set.
abbrev pub one_set : SyscallException → Bool
one_set e = if is_set e.strerror then equal e.s_errno minus_one else not (equal e.s_errno minus_one)

abbrev pub chosen_text : (ℤ → Bytes) → SyscallException → Option ℕ → M Heap Bytes
chosen_text c_strerror e none = return (c_strerror e.s_errno)
chosen_text c_strerror e (some p) = read_text p

-- `SyscallException::strerror`, over the function of the C library.
unfoldable pub syscall_exception_strerror : (ℤ → Bytes) → SyscallException → M Heap Bytes
syscall_exception_strerror c_strerror e = do assert (one_set e); chosen_text c_strerror e e.strerror

pub record RuntimeException : Type 0 where
  pub error : Option ℕ

unfoldable pub runtime_exception : Bytes → M Heap RuntimeException
runtime_exception text = do buf ← format text; return (record { error = some buf })

abbrev pub destroy_error : Option ℕ → M Heap RuntimeException
destroy_error none = return (record { error = none })
destroy_error (some p) = do free p; return (record { error = none })

unfoldable pub destroy_runtime_exception : RuntimeException → M Heap RuntimeException
destroy_runtime_exception e = destroy_error e.error

pub record PerlInterpreterException : Type 0 where
  pub strerror : Option ℕ

-- The constructor writes zeros over the line breaks at the end of the buffer.
abbrev pub cut_breaks : ℕ → Option Bytes → M Heap (Unit {0})
cut_breaks p none h = (aborted, h)
cut_breaks p (some text) h = (ok tt, record h { cell = update h.cell p (some (strip text)) })

unfoldable pub perl_exception : Bytes → M Heap PerlInterpreterException
perl_exception text = do
  buf ← format text
  λ h. (do cut_breaks buf (h.cell buf); return (record { strerror = some buf })) h

-- `PerlInterpreterException::strerror` gives the pointer, and its reader the text.
abbrev pub read_buffer : Option ℕ → M Heap Bytes
read_buffer none h = (aborted, h)
read_buffer (some p) h = read_text p h

abbrev pub perl_exception_strerror : PerlInterpreterException → M Heap Bytes
perl_exception_strerror e = read_buffer e.strerror

abbrev pub runtime_exception_error : RuntimeException → M Heap Bytes
runtime_exception_error e = read_buffer e.error

abbrev pub destroy_strerror : Option ℕ → M Heap PerlInterpreterException
destroy_strerror none h = (aborted, h)
destroy_strerror (some p) h = (free p >> return (record { strerror = none })) h

unfoldable pub destroy_perl_exception : PerlInterpreterException → M Heap PerlInterpreterException
destroy_perl_exception e = destroy_strerror e.strerror
