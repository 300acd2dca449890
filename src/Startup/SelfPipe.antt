-- ===== src/Startup/SelfPipe.antt =====
-- The overseer's pipe to itself.
use blade_psgi.Base.{
  ℕ, ◌≡◌, ◌≢◌, refl, ap, subst, ◌∙◌, ◌⊎◌, inl, inr, true, Option, none, some, Bool-cases, arith,
}
use blade_psgi.Base.Bytes.{Bytes}
use blade_psgi.Base.Outcome.{syscall_failed, Outcome, ok, throw}
use blade_psgi.Startup.{
  Answer, done, failed, UnixLib, UnixLaws, Setup, set_nonblock, is_nonblocking,
  initialize_self_pipe, set_non_blocking,
}

set_nonblock_lem : (flags : ℕ) → is_nonblocking (set_nonblock flags) ≡ true
set_nonblock_lem flags = elim (Bool-cases (is_nonblocking flags)) [
  | inl e ↦ rw (e, e) refl
  | inr e ↦ rw e (ground arith)
]

module _ {S : Type 0} (lib : UnixLib S) where
  -- Reading and writing never block.
  abbrev pub NonBlocking : ℕ → S → Type 0
  NonBlocking fd s =
      (flags : ℕ) × (lib.fcntl_getfl fd s ≡ done flags) × (is_nonblocking flags ≡ true)

  abbrev Set : ℕ → S → Outcome (Unit {0}) × S → Type 0
  Set fd s (r, t) =
      ((r ≡ ok tt)
        × NonBlocking fd t
        × ((other : ℕ) → other ≢ fd → lib.fcntl_getfl other t ≡ lib.fcntl_getfl other s))
      ⊎ ((call : Bytes) × (errno : ℕ) × (r ≡ throw (syscall_failed call errno)))

  Set-cases :
      (fd : ℕ) (s : S) (x : Outcome (Unit {0}) × S)
      → Set fd s x
      → ((t : S) × (x ≡ (ok tt, t))
          × NonBlocking fd t
          × ((other : ℕ) → other ≢ fd → lib.fcntl_getfl other t ≡ lib.fcntl_getfl other s))
        ⊎ ((t : S) × (call : Bytes) × (errno : ℕ) × (x ≡ (throw (syscall_failed call errno), t)))
  Set-cases fd s (r, t) (inl (e, n, o)) = inl (t, ap (λ o. (o, t)) e, n, o)
  Set-cases fd s (r, t) (inr (call, errno, e)) = inr (t, call, errno, ap (λ o. (o, t)) e)

  abbrev pub SelfPiped : Setup S → Outcome (Unit {0}) × Setup S → Type 0
  SelfPiped s (r, t) =
      ((reader : ℕ) × (writer : ℕ) × (r ≡ ok tt)
        × (t.overseer_self_pipe ≡ some (reader, writer))
        × (t.shmem ≡ s.shmem)
        × (reader ≢ writer)
        × NonBlocking reader t.os
        × NonBlocking writer t.os)
      ⊎ ((call : Bytes) × (errno : ℕ) × (r ≡ throw (syscall_failed call errno))
          × (t.shmem ≡ s.shmem))

  module _ (laws : UnixLaws lib) where
    open laws use {pipe_ends, setfl_sets, setfl_others}

    set_non_blocking-Set : (fd : ℕ) (s : S) → Set fd s (set_non_blocking lib fd s)
    set_non_blocking-Set fd s = elim (Getfl-cases (lib.fcntl_getfl fd s)) [
      | inr (errno, e) ↦ rw e (inr (_, _, refl))
      | inl (flags, e) ↦ elim (Setfl-cases (lib.fcntl_setfl fd (set_nonblock flags) s)) [
        | inr (errno, t, q) ↦ rw (e, q) (inr (_, _, refl))
        | inl (t, q) ↦
            let sets =
              subst (λ r. lib.fcntl_getfl fd r.1 ≡ done (set_nonblock flags)) q
                (setfl_sets fd (set_nonblock flags) s (ap (λ r. r.0) q)) in
            let others =
              subst
                (λ r.
                  (other : ℕ) → other ≢ fd → lib.fcntl_getfl other r.1 ≡ lib.fcntl_getfl other s)
                q (λ other. setfl_others fd (set_nonblock flags) other s) in
            rw (e, q) (inl (refl, (set_nonblock flags, sets, set_nonblock_lem flags), others))
      ]
    ]
      where
        Getfl-cases :
            (r : Answer ℕ) → ((flags : ℕ) × (r ≡ done flags)) ⊎ ((errno : ℕ) × (r ≡ failed errno))
        Getfl-cases (done flags) = inl (flags, refl)
        Getfl-cases (failed errno) = inr (errno, refl)

        Setfl-cases :
            (r : Option ℕ × S)
            → ((t : S) × (r ≡ (none, t))) ⊎ ((errno : ℕ) × (t : S) × (r ≡ (some errno, t)))
        Setfl-cases (none, t) = inl (t, refl)
        Setfl-cases (some errno, t) = inr (errno, t, refl)

    -- Whatever the system calls return, InitializeSelfPipe gives the overseer a pipe of two different
    -- ends, neither of which blocks, or throws a SyscallException.
    pub initialize_self_pipe-SelfPiped : (s : Setup S) → SelfPiped s (initialize_self_pipe lib s)
    unfolding initialize_self_pipe
    initialize_self_pipe-SelfPiped s = elim (Pipe-cases (lib.pipe s.os)) [
      | inr (errno, t, e) ↦ rw e (inr (_, _, refl, refl))
      | inl (reader, writer, t, e) ↦
          let differ = pipe_ends s.os reader writer (ap (λ r. r.0) e) in
          elim (Set-cases reader t _ (set_non_blocking-Set reader t)) [
            | inr (u, call, errno, q) ↦ rw (e, q) (inr (_, _, refl, refl))
            | inl (u, q, (flags, f, n), o) ↦
                elim (Set-cases writer u _ (set_non_blocking-Set writer u)) [
                  | inr (v, call, errno, z) ↦ rw (e, q, z) (inr (_, _, refl, refl))
                  | inl (v, z, last, kept) ↦
                      rw (e, q, z)
                        (inl (
                          reader,
                          writer,
                          refl,
                          refl,
                          refl,
                          differ,
                          (flags, kept reader differ ∙ f, n),
                          last,
                        ))
                ]
          ]
    ]
      where
        Pipe-cases :
            (r : Answer (ℕ × ℕ) × S)
            → ((reader : ℕ) × (writer : ℕ) × (t : S) × (r ≡ (done (reader, writer), t)))
              ⊎ ((errno : ℕ) × (t : S) × (r ≡ (failed errno, t)))
        Pipe-cases (done (reader, writer), t) = inl (reader, writer, t, refl)
        Pipe-cases (failed errno, t) = inr (errno, t, refl)
