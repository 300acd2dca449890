-- ===== src/Startup/Prepared.antt =====
-- The whole preparation of the overseer, in front of its children.
use blade_psgi.Base.{
  ℕ, ◌≡◌, ◌≢◌, refl, ap, ◌∙◌, ◌⊎◌, inl, inr, none, some, [], ◌∷◌, Bool-cases, arith, ◌==◌,
}
use blade_psgi.Base.Bytes.{Bytes, codes}
use blade_psgi.Base.Outcome.{Exn, syscall_failed, Outcome, ok, throw, exited, aborted, ◌>>◌}
use blade_psgi.Shmem.{new_shared_memory, set_should_exit_immediately}
use blade_psgi.Startup.{
  UnixLib, UnixLaws, KeepsFlags, Setup, Paths, sun_path, map_failed, initialize_self_pipe,
  initialize_shared_memory, initialize_main_fastcgi_socket, initialize_stats_socket, prepare,
  end_early,
}
use blade_psgi.Startup.SelfPipe.{NonBlocking, SelfPiped, initialize_self_pipe-SelfPiped}
use blade_psgi.Startup.SocketFile.{IsHandled, handled_syscall}
use blade_psgi.Startup.BothSockets.{BothOpened, at_fastcgi_path, sockets-BothOpened}

module _ {S : Type 0} (lib : UnixLib S) (paths : Paths) where
  -- A self-pipe that does not block, a new segment, and two sockets that listen.
  pub record IsPrepared (t : Setup S) : Type 0 where
    pub reader : ℕ
    pub writer : ℕ
    pub self_pipe : t.overseer_self_pipe ≡ some (reader, writer)
    pub two_ends : reader ≢ writer
    pub reads : NonBlocking lib reader t.os
    pub writes : NonBlocking lib writer t.os
    pub segment : t.shmem ≡ some (new_shared_memory (λ p. 0) 4096)
    pub fastcgi : ℕ
    pub stats : ℕ
    pub fastcgi_sockfd : t.fastcgi_sockfd ≡ some fastcgi
    pub stats_sockfd : t.stats_sockfd ≡ some stats
    pub two_sockets : fastcgi ≢ stats
    pub fastcgi_bound : lib.address fastcgi t.os ≡ some (sun_path paths.fastcgi_socket_path)
    pub fastcgi_listens : lib.backlog fastcgi t.os ≡ some 16384
    pub stats_bound : lib.address stats t.os ≡ some (sun_path paths.stats_socket_path)
    pub stats_listens : lib.backlog stats t.os ≡ some 64
    pub fastcgi_reached :
        lib.owner (sun_path paths.fastcgi_socket_path) t.os
        ≡ some (at_fastcgi_path lib paths fastcgi stats)
    pub stats_reached : lib.owner (sun_path paths.stats_socket_path) t.os ≡ some stats

  -- Whatever the text, `main` logs it, once, and ends the process with status 1.
  abbrev pub EndsOnce : Setup S → Type 0
  EndsOnce t =
      (message : Bytes)
      → ((end_early message t.shmem).0 ≡ exited 1)
        × ((end_early message t.shmem).1.1 ≡ message ∷ [])

  EndsOnce-unmapped : (t : Setup S) → t.shmem ≡ none → EndsOnce t
  unfolding end_early
  EndsOnce-unmapped t e message = rw e (refl, refl)

  EndsOnce-mapped : (t : Setup S) → t.shmem ≡ some (new_shared_memory (λ p. 0) 4096) → EndsOnce t
  unfolding end_early set_should_exit_immediately new_shared_memory
  EndsOnce-mapped t e message = rw e (refl, refl)

  -- Prepared; or an exception that `main` handles; or the fault of a failed mapping.
  abbrev pub Prepares : Outcome (Unit {0}) × Setup S → Type 0
  Prepares (r, t) =
      ((r ≡ ok tt) × IsPrepared t)
      ⊎ (((e : Exn) × (r ≡ throw e) × IsHandled e × EndsOnce t)
          ⊎ ((r ≡ aborted) × (u : S) × ((lib.mmap 4096 u).0 ≡ map_failed)))

  SelfPiped-cases :
      (s : Setup S) (x : Outcome (Unit {0}) × Setup S)
      → SelfPiped lib s x
      → ((t : Setup S) × (x ≡ (ok tt, t))
          × (t.shmem ≡ s.shmem)
          × (reader : ℕ) × (writer : ℕ) × (t.overseer_self_pipe ≡ some (reader, writer))
          × (reader ≢ writer)
          × NonBlocking lib reader t.os
          × NonBlocking lib writer t.os)
        ⊎ ((t : Setup S) × (call : Bytes) × (errno : ℕ) × (x
              ≡ (throw (syscall_failed call errno), t))
            × (t.shmem ≡ s.shmem))
  SelfPiped-cases s (r, t) (inr (call, errno, e, same)) =
      inr (t, call, errno, ap (λ o. (o, t)) e, same)
  SelfPiped-cases s (r, t) (inl (reader, writer, e, pipe, same, differ, n, m)) =
      inl (t, ap (λ o. (o, t)) e, same, reader, writer, pipe, differ, n, m)

  NonBlocking-kept :
      (fd : ℕ) (s t : S) → KeepsFlags lib s t → NonBlocking lib fd s → NonBlocking lib fd t
  NonBlocking-kept fd s t k (flags, e, n) = (flags, k fd flags e, n)

  abbrev mapped : Setup S → Setup S
  mapped u = record u {
    os = (lib.mmap 4096 u.os).1;
    shmem = some (new_shared_memory (λ p. 0) 4096);
  }

  mapped-cases :
      (u : Setup S)
      → u.shmem ≡ none
      → (initialize_shared_memory lib u ≡ (ok tt, mapped u))
        ⊎ (((t : Setup S) × (initialize_shared_memory lib u
                ≡ (throw (syscall_failed (codes "mmap") 0), t))
              × (t.shmem ≡ none))
            ⊎ ((t : Setup S) × (initialize_shared_memory lib u ≡ (aborted, t))
                × ((lib.mmap 4096 u.os).0 ≡ map_failed)))
  unfolding initialize_shared_memory
  mapped-cases u h = elim (Bool-cases ((lib.mmap 4096 u.os).0 == 0)) [
    | inl e ↦ rw (h, e) (inr (inl (_, refl, refl)))
    | inr e ↦ elim (Bool-cases ((lib.mmap 4096 u.os).0 == map_failed)) [
      | inl q ↦ rw (h, e, q) (inr (inr (_, refl, ground arith)))
      | inr q ↦ rw (h, e, q) (inl refl)
    ]
  ]

  -- Whatever the system calls return, in front of the children: the overseer has a self-pipe of two
  -- different ends that do not block, a new segment of 4096 bytes, and two different sockets that are
  -- bound to the two paths, cut to 107 bytes, and listen; or an exception was thrown that `main` handles, logging
  -- its text once and ending the process with status 1, whether there is a segment or not; or mmap
  -- has failed, and the process has ended by a fault. No segment was there before.
  pub prepare-Prepares :
      (strerror : ℕ → Bytes) (s : Setup S)
      → UnixLaws lib
      → s.shmem ≡ none
      → Prepares (prepare lib strerror paths s)
  unfolding prepare
  prepare-Prepares strerror s laws h =
      elim (SelfPiped-cases s (initialize_self_pipe lib s)
        (initialize_self_pipe-SelfPiped lib laws s)) [
          | inr (t, call, errno, e, same) ↦
              rw e (inr (inl (_, refl, handled_syscall, EndsOnce-unmapped t (same ∙ h))))
          | inl (t, e, same, reader, writer, pipe, differ, n, m) ↦
              elim (mapped-cases t (same ∙ h)) [
                | inr (inl (u, q, z)) ↦
                    rw (e, q) (inr (inl (_, refl, handled_syscall, EndsOnce-unmapped u z)))
                | inr (inr (u, q, f)) ↦ rw (e, q) (inr (inr (refl, t.os, f)))
                | inl q ↦
                    rw (e, q)
                      (listening t reader writer pipe differ n m
                        ((do
                          initialize_main_fastcgi_socket lib strerror paths.fastcgi_socket_path
                          initialize_stats_socket lib strerror paths.stats_socket_path)
                          (mapped t))
                        (sockets-BothOpened lib laws strerror paths (mapped t)))
              ]
        ]
    where
      listening :
          (t : Setup S) (reader writer : ℕ)
          → t.overseer_self_pipe ≡ some (reader, writer)
          → reader ≢ writer
          → NonBlocking lib reader t.os
          → NonBlocking lib writer t.os
          → (x : Outcome (Unit {0}) × Setup S) → BothOpened lib paths (mapped t) x
          → Prepares x
      listening t reader writer pipe differ n m (r, u) (k, inr (err, e, handled, pipe_kept, z)) =
          inr (inl (err, e, handled, EndsOnce-mapped u z))
      listening t reader writer pipe differ n m (r, u)
            (k, inl (fd, other, e, f, o, p, z, ne, a, b, c, d)) =
          inl (
            e,
            record {
              reader = reader;
              writer = writer;
              self_pipe = p ∙ pipe;
              two_ends = differ;
              reads =
                  NonBlocking-kept reader (mapped t).os u.os k.2
                    (NonBlocking-kept reader t.os (mapped t).os (laws.mmap_flags 4096 t.os) n);
              writes =
                  NonBlocking-kept writer (mapped t).os u.os k.2
                    (NonBlocking-kept writer t.os (mapped t).os (laws.mmap_flags 4096 t.os) m);
              segment = z;
              fastcgi = fd;
              stats = other;
              fastcgi_sockfd = f;
              stats_sockfd = o;
              two_sockets = ne;
              fastcgi_bound = a.bound;
              fastcgi_listens = a.listening;
              stats_bound = b.bound;
              stats_listens = b.listening;
              fastcgi_reached = c;
              stats_reached = d;
            },
          )
