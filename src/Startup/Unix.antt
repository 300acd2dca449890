-- ===== src/Startup/Unix.antt =====
-- The calls of the operating system that the start of the program makes: stat, socket, unlink, bind,
-- listen, pipe, fcntl and mmap, over a state `S` of the system, and what their manual pages say of them.
use blade_psgi.Base.{ℕ, ◌≡◌, ◌≢◌, Bool, true, false, Option, none, some}
use blade_psgi.Base.Bytes.{Bytes}

-- What a call returns, or the `errno` with which it fails.
pub data Answer (A : Type 0) : Type 0 where
  done : A → Answer A
  failed : ℕ → Answer A

pub record UnixLib (S : Type 0) : Type 0 where
  pub socket : S → Answer ℕ × S
  -- Whether S_ISSOCK holds of the file, if it can be looked at.
  pub stat : Bytes → S → Option Bool
  pub unlink : Bytes → S → Option ℕ × S
  pub bind : ℕ → Bytes → S → Option ℕ × S
  pub listen : ℕ → ℕ → S → Option ℕ × S
  pub pipe : S → Answer (ℕ × ℕ) × S
  pub fcntl_getfl : ℕ → S → Answer ℕ
  pub fcntl_setfl : ℕ → ℕ → S → Option ℕ × S
  pub mmap : ℕ → S → ℕ × S
  -- What a socket is bound to, and the backlog with which it listens.
  pub address : ℕ → S → Option Bytes
  pub backlog : ℕ → S → Option ℕ
  -- The file that a path names, as two paths can name one.
  pub resolve : Bytes → Bytes
  -- Which socket the file at a path belongs to, if it is one of this process.
  pub owner : Bytes → S → Option ℕ

-- The files that are no sockets are so afterwards.
abbrev pub Spares : {S : Type 0} → UnixLib S → S → S → Type 0
Spares lib s t = (q : Bytes) → lib.stat q s ≡ some false → lib.stat q t ≡ some false

-- The other sockets are as they were.
abbrev pub SameSockets : {S : Type 0} → UnixLib S → (ℕ → Type 0) → S → S → Type 0
SameSockets lib Other s t =
    (fd : ℕ)
    → Other fd
    → (lib.address fd t ≡ lib.address fd s) × (lib.backlog fd t ≡ lib.backlog fd s)

-- The flags of the open descriptors are as they were.
abbrev pub KeepsFlags : {S : Type 0} → UnixLib S → S → S → Type 0
KeepsFlags lib s t =
    (fd flags : ℕ) → lib.fcntl_getfl fd s ≡ done flags → lib.fcntl_getfl fd t ≡ done flags

-- The other files belong to the sockets that they belonged to.
abbrev pub KeepsOwners : {S : Type 0} → UnixLib S → Bytes → S → S → Type 0
KeepsOwners lib p s t = (q : Bytes) → lib.resolve q ≢ lib.resolve p → lib.owner q t ≡ lib.owner q s

pub record UnixLaws {S : Type 0} (lib : UnixLib S) : Type 0 where
  pub socket_spares : (s : S) → Spares lib s (lib.socket s).1
  -- Removing a socket removes no other file.
  pub unlink_spares :
      (p : Bytes) (s : S) → lib.stat p s ≡ some true → Spares lib s (lib.unlink p s).1
  pub bind_spares : (fd : ℕ) (p : Bytes) (s : S) → Spares lib s (lib.bind fd p s).1
  pub listen_spares : (fd n : ℕ) (s : S) → Spares lib s (lib.listen fd n s).1
  -- A new socket is not bound yet.
  pub socket_new : (s : S) (fd : ℕ) → (lib.socket s).0 ≡ done fd → lib.address fd s ≡ none
  pub socket_others : (s : S) → SameSockets lib (λ fd. Unit) s (lib.socket s).1
  pub unlink_others : (p : Bytes) (s : S) → SameSockets lib (λ fd. Unit) s (lib.unlink p s).1
  pub bind_others :
      (fd : ℕ) (p : Bytes) (s : S) → SameSockets lib (λ other. other ≢ fd) s (lib.bind fd p s).1
  pub listen_others :
      (fd n : ℕ) (s : S) → SameSockets lib (λ other. other ≢ fd) s (lib.listen fd n s).1
  pub bind_address :
      (fd : ℕ) (p : Bytes) (s : S)
      → (lib.bind fd p s).0 ≡ none
      → lib.address fd (lib.bind fd p s).1 ≡ some p
  pub listen_backlog :
      (fd n : ℕ) (s : S)
      → (lib.listen fd n s).0 ≡ none
      → (lib.backlog fd (lib.listen fd n s).1 ≡ some n)
        × (lib.address fd (lib.listen fd n s).1 ≡ lib.address fd s)
  pub socket_owners : (p : Bytes) (s : S) → KeepsOwners lib p s (lib.socket s).1
  pub unlink_owners : (p : Bytes) (s : S) → KeepsOwners lib p s (lib.unlink p s).1
  pub bind_owners : (fd : ℕ) (p : Bytes) (s : S) → KeepsOwners lib p s (lib.bind fd p s).1
  -- bind makes the file of the socket.
  pub bind_owner :
      (fd : ℕ) (p : Bytes) (s : S)
      → (lib.bind fd p s).0 ≡ none
      → (q : Bytes) → lib.resolve q ≡ lib.resolve p
      → lib.owner q (lib.bind fd p s).1 ≡ some fd
  pub listen_owner :
      (fd n : ℕ) (s : S) (q : Bytes) → lib.owner q (lib.listen fd n s).1 ≡ lib.owner q s
  pub pipe_ends : (s : S) (r w : ℕ) → (lib.pipe s).0 ≡ done (r, w) → r ≢ w
  pub setfl_sets :
      (fd flags : ℕ) (s : S)
      → (lib.fcntl_setfl fd flags s).0 ≡ none
      → lib.fcntl_getfl fd (lib.fcntl_setfl fd flags s).1 ≡ done flags
  pub setfl_others :
      (fd flags other : ℕ) (s : S)
      → other ≢ fd
      → lib.fcntl_getfl other (lib.fcntl_setfl fd flags s).1 ≡ lib.fcntl_getfl other s
  pub socket_flags : (s : S) → KeepsFlags lib s (lib.socket s).1
  pub unlink_flags : (p : Bytes) (s : S) → KeepsFlags lib s (lib.unlink p s).1
  pub bind_flags : (fd : ℕ) (p : Bytes) (s : S) → KeepsFlags lib s (lib.bind fd p s).1
  pub listen_flags : (fd n : ℕ) (s : S) → KeepsFlags lib s (lib.listen fd n s).1
  pub mmap_flags : (size : ℕ) (s : S) → KeepsFlags lib s (lib.mmap size s).1
