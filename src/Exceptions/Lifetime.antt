-- ===== src/Exceptions/Lifetime.antt =====
-- The life of an exception: made, asked for its text any number of times, destroyed.
use blade_psgi.Base.{
  ℕ, ◌+◌, ◌≤◌, ◌≡◌, refl, ap, ◌∙◌, inl, inr, true, Option, none, some, take, arith, ◌==◌,
  if◌then◌else◌, Bool-cases,
}
use blade_psgi.Base.Bytes.{Bytes}
use blade_psgi.Base.Words.{ℤ, minus_one, equal}
use blade_psgi.Base.Outcome.{Outcome, ok, aborted, M, continue, return}
use blade_psgi.PerlBridge.{strip}
use blade_psgi.PerlBridge.Messages.{IsTextOf, strip-IsTextOf}
use blade_psgi.Exceptions.{
  Heap, update, free, text_of, read_text, perl_exception_strerror, runtime_exception_error,
  SyscallException, syscall_exception, syscall_exception_text, destroy_syscall_exception,
  syscall_exception_strerror, runtime_exception, destroy_runtime_exception, perl_exception,
  destroy_perl_exception,
}

-- Nothing is allocated from `next` on.
abbrev pub IsHeap : Heap → Type 0
IsHeap h = (p : ℕ) → h.next ≤ p → h.cell p ≡ none

-- The same buffers with the same texts.
abbrev pub SameCells : Heap → Heap → Type 0
SameCells h t = (p : ℕ) → t.cell p ≡ h.cell p

-- The life of an exception in a heap: it is made; asked for its text, it gives `answer` and changes
-- nothing, so that it can be asked again; its destructor succeeds and leaves the heap with the
-- buffers that it had before; and destroying a copy of the object behind it gives `twice`.
pub record Lives {E : Type 0} (answer : Outcome Bytes) (twice : E → Outcome E)
    (ask : E → M Heap Bytes) (destroy : E → M Heap E) (h : Heap) (made : Outcome E × Heap)
    : Type 0 where
  pub object : E
  pub constructed : made.0 ≡ ok object
  pub asked : ask object made.1 ≡ (answer, made.1)
  pub gone : E
  pub destroyed : (destroy object made.1).0 ≡ ok gone
  pub freed : SameCells h (destroy object made.1).1
  pub copied : (destroy object (destroy object made.1).1).0 ≡ twice object

-- What a SyscallException is made of.
pub data Cause : Type 0 where
  by_errno : ℤ → Cause
  by_text : Bytes → Cause

abbrev pub construct : Bytes → Cause → M Heap SyscallException
construct syscall (by_errno n) = return (syscall_exception syscall n)
construct syscall (by_text text) = syscall_exception_text syscall text

-- The error's text: that of `errno`, or the first 4095 bytes of the formatted text. The `errno` -1
-- looks like none, and fails the assertion.
abbrev pub explained : (ℤ → Bytes) → Cause → Outcome Bytes
explained c_strerror (by_errno n) = if equal n minus_one then aborted else ok (c_strerror n)
explained c_strerror (by_text text) = ok (take 4095 text)

abbrev allocated : Bytes → Heap → Heap
allocated text h = record h { next = h.next + 1; cell = update h.cell h.next (some text) }

-- Two objects that own one buffer cannot both be destroyed.
abbrev pub destroyed_twice : Cause → SyscallException → Outcome SyscallException
destroyed_twice (by_errno n) e = ok e
destroyed_twice (by_text text) e = aborted

updated_back :
    (f : ℕ → Option Bytes) (p q : ℕ) (v : Option Bytes)
    → f p ≡ none
    → update (update f p v) p none q ≡ f q
updated_back f p q v h = elim (Bool-cases (p == q)) [
  | inl e ↦ ground (arith, ap f (eq_of_test p q e))
  | inr e ↦ ground arith
]
  where
    eq_of_test : (m n : ℕ) → (m == n) ≡ true → m ≡ n
    eq_of_test m n e = ground arith

update_self : (f : ℕ → Option Bytes) (p : ℕ) (v : Option Bytes) → update f p v p ≡ v
update_self f p v = ground arith

-- A buffer is freed once.
free_once :
    (h : Heap) (p : ℕ) (text : Bytes)
    → h.cell p ≡ some text
    → free p h ≡ (ok tt, record h { cell = update h.cell p none })
free_once h p text e = rw e refl

free_again : (h : Heap) (p : ℕ) → h.cell p ≡ none → free p h ≡ (aborted, h)
free_again h p e = rw e refl

-- The life of an object that owns the buffer at `p`.
module _ {E : Type 0} (object gone : E) (ask : E → M Heap Bytes) (destroy : E → M Heap E) where
  owner-Lives :
      (p : ℕ) (text : Bytes) (h made : Heap)
      → made.cell p ≡ some text
      → ((q : ℕ) → update made.cell p none q ≡ h.cell q)
      → ((m : Heap) → ask object m ≡ read_text p m)
      → ((m : Heap) → destroy object m ≡ continue (free p m) (λ u. return gone))
      → Lives (ok text) (λ e. aborted) ask destroy h (ok object, made)
  owner-Lives p text h made here back asks frees =
      let end = record made { cell = update made.cell p none } in
      let once : destroy object made ≡ (ok gone, end) =
        frees made ∙ ap (λ r. continue r (λ u. return gone)) (free_once made p text here) in
      let again : destroy object end ≡ (aborted, end) =
        frees end
        ∙ ap (λ r. continue r (λ u. return gone))
            (free_again end p (update_self made.cell p none)) in
      record {
        object = object;
        constructed = refl;
        asked = asks made ∙ ap (λ c. text_of c made) here;
        gone = gone;
        destroyed = ap (λ r. r.0) once;
        freed = λ q. ap (λ r. r.1.cell q) once ∙ back q;
        copied = ap (λ r. (destroy object r.1).0) once ∙ ap (λ r. r.0) again;
      }

-- For every cause and in every heap, a SyscallException lives: it gives the text of its cause each
-- time that it is asked, and its destructor frees what it has allocated, and nothing else. An
-- object made of the `errno` -1 aborts when it is asked, and of two objects that share a buffer
-- the second aborts when it is destroyed.
pub syscall-Lives :
    (c_strerror : ℤ → Bytes) (syscall : Bytes) (cause : Cause) (h : Heap)
    → IsHeap h
    → Lives
        (explained c_strerror cause)
        (destroyed_twice cause)
        (syscall_exception_strerror c_strerror)
        destroy_syscall_exception
        h
        (construct syscall cause h)
unfolding syscall_exception_text destroy_syscall_exception syscall_exception_strerror
syscall-Lives c_strerror syscall (by_errno n) h v = record {
  object = syscall_exception syscall n;
  constructed = refl;
  asked = elim (Bool-cases (equal n minus_one)) [ inl e ↦ rw e refl | inr e ↦ rw e refl ];
  gone = syscall_exception syscall n;
  destroyed = refl;
  freed = λ p. refl;
  copied = refl;
}
syscall-Lives c_strerror syscall (by_text text) h v =
    owner-Lives (record { syscall = syscall; s_errno = minus_one; strerror = some h.next })
      (record { syscall = syscall; s_errno = minus_one; strerror = none })
      (syscall_exception_strerror c_strerror) destroy_syscall_exception h.next (take 4095 text) h
      (allocated (take 4095 text) h) (update_self h.cell h.next (some (take 4095 text)))
      (λ q. updated_back h.cell h.next q (some (take 4095 text)) (v h.next (omega arith)))
      (λ m. refl) (λ m. refl)

-- A PerlInterpreterException lives in every heap: it gives the first 4095 bytes of the text without
-- the carriage returns and newlines at their end, and its destructor frees what it has allocated, and nothing else;
-- of two objects that share a buffer the second aborts when it is destroyed.
pub perl-Lives :
    (text : Bytes) (h : Heap)
    → IsHeap h
    → (kept : Bytes) × IsTextOf text kept
      × Lives
          (ok kept)
          (λ e. aborted)
          perl_exception_strerror
          destroy_perl_exception
          h
          (perl_exception text h)
unfolding perl_exception destroy_perl_exception
perl-Lives text h v =
    let first = allocated (take 4095 text) h in
    let made = record first { cell = update first.cell h.next (some (strip (take 4095 text))) } in
    let cut : perl_exception text h ≡ (ok (record { strerror = some h.next }), made) =
      rw (update_self h.cell h.next (some (take 4095 text))) refl in
    (
      strip (take 4095 text),
      strip-IsTextOf text,
      rw cut (
          owner-Lives (record { strerror = some h.next }) (record { strerror = none })
            perl_exception_strerror destroy_perl_exception h.next (strip (take 4095 text)) h made
            (update_self first.cell h.next (some (strip (take 4095 text))))
            (λ q. ground (
              arith,
              updated_back h.cell h.next q (some (take 4095 text)) (v h.next (omega arith)),
            ))
            (λ m. refl) (λ m. refl)),
    )

-- A RuntimeException lives in every heap: it gives the first 4095 bytes of the text, and its
-- destructor frees what it has allocated, and nothing else.
runtime-Lives :
    (text : Bytes) (h : Heap)
    → IsHeap h
    → Lives
        (ok (take 4095 text))
        (λ e. aborted)
        runtime_exception_error
        destroy_runtime_exception
        h
        (runtime_exception text h)
unfolding runtime_exception destroy_runtime_exception
runtime-Lives text h v =
    owner-Lives (record { error = some h.next }) (record { error = none }) runtime_exception_error
      destroy_runtime_exception h.next (take 4095 text) h (allocated (take 4095 text) h)
      (update_self h.cell h.next (some (take 4095 text)))
      (λ q. updated_back h.cell h.next q (some (take 4095 text)) (v h.next (omega arith)))
      (λ m. refl) (λ m. refl)
