-- ===== src/Startup/BothSockets.antt =====
-- The two sockets, one after the other.
use blade_psgi.Base.{
  ℕ, ◌≡◌, ◌≢◌, refl, sym, ap, ◌∙◌, ◌⊎◌, inl, inr, true, false, none, some, Bool-cases,
  if◌then◌else◌,
}
use blade_psgi.Base.Bytes.{Bytes, same, eq_of_same, same_self}
use blade_psgi.Base.Outcome.{Exn, Outcome, ok, throw, ◌>>◌}
use blade_psgi.Startup.{
  UnixLib, UnixLaws, Setup, Paths, sun_path, initialize_main_fastcgi_socket,
  initialize_stats_socket,
}
use blade_psgi.Startup.SocketFile.{
  IsHandled, Keeps, Keeps-trans, Listens, Reaches, Opened-cases, initialize-Opened,
}

module _ {S : Type 0} (lib : UnixLib S) where
  -- The socket whose file is at the first path in the end: where the two cut paths name one file, the
  -- second socket has replaced the first one's.
  abbrev pub at_fastcgi_path : Paths → ℕ → ℕ → ℕ
  at_fastcgi_path paths fd other =
      if same (lib.resolve (sun_path paths.fastcgi_socket_path))
        (lib.resolve (sun_path paths.stats_socket_path))
      then other
      else fd

  first_owner :
      (paths : Paths) (fd other : ℕ) (t u : S)
      → lib.owner (sun_path paths.fastcgi_socket_path) t ≡ some fd
      → Reaches lib paths.stats_socket_path t u other
      → lib.owner (sun_path paths.fastcgi_socket_path) u ≡ some (at_fastcgi_path paths fd other)
  first_owner paths fd other t u e (own, others) =
      let a = sun_path paths.fastcgi_socket_path in
      let b = sun_path paths.stats_socket_path in
      elim (Bool-cases (same (lib.resolve a) (lib.resolve b))) [
        | inl z ↦ rw z (own a (eq_of_same (lib.resolve a) (lib.resolve b) z))
        | inr z ↦ rw z (
            others a (λ h.
              true_false (sym (ap (λ p. same p (lib.resolve b)) h ∙ same_self (lib.resolve b)) ∙ z))
            ∙ e)
      ]
    where
      true_false : true ≢ false
      true_false h = cc

  -- Both sockets listen, or an exception was thrown that `main` handles.
  abbrev pub BothOpened : Paths → Setup S → Outcome (Unit {0}) × Setup S → Type 0
  BothOpened paths s (r, t) =
      Keeps lib s.os t.os
      × (((fd : ℕ) × (other : ℕ) × (r ≡ ok tt)
            × (t.fastcgi_sockfd ≡ some fd)
            × (t.stats_sockfd ≡ some other)
            × (t.overseer_self_pipe ≡ s.overseer_self_pipe)
            × (t.shmem ≡ s.shmem)
            × (fd ≢ other)
            × Listens lib paths.fastcgi_socket_path 16384 s.os t.os fd
            × Listens lib paths.stats_socket_path 64 s.os t.os other
            × (lib.owner (sun_path paths.fastcgi_socket_path) t.os
                ≡ some (at_fastcgi_path paths fd other))
            × (lib.owner (sun_path paths.stats_socket_path) t.os ≡ some other))
          ⊎ ((e : Exn) × (r ≡ throw e)
              × IsHandled e
              × (t.overseer_self_pipe ≡ s.overseer_self_pipe)
              × (t.shmem ≡ s.shmem)))

  module _ (laws : UnixLaws lib) (strerror : ℕ → Bytes) where
    -- Whatever the system calls return: after InitializeMainFastCGISocket and InitializeStatsSocket
    -- every file that was no socket is still there and the sockets that were bound before, and the
    -- flags of the open descriptors, are as they were; and two different sockets are bound to the two
    -- paths, cut to 107 bytes, and listen with backlogs of 16384 and 64, no file but a socket having
    -- been at these paths, and the file at each path is that of its socket, save that of the second
    -- where the two cut paths name one file; or an exception was thrown that `main` handles. The
    -- self-pipe and the segment stay.
    pub sockets-BothOpened :
        (paths : Paths) (s : Setup S)
        → BothOpened paths s (
            (do
              initialize_main_fastcgi_socket lib strerror paths.fastcgi_socket_path
              initialize_stats_socket lib strerror paths.stats_socket_path)
              s)
    unfolding initialize_main_fastcgi_socket initialize_stats_socket
    sockets-BothOpened paths s =
        let p1 = paths.fastcgi_socket_path in
        let p2 = paths.stats_socket_path in
        elim (Opened-cases lib p1 16384 s.os _
          (initialize-Opened lib laws strerror p1 16384 s.os)) [
            | inr (err, t, e, k, h) ↦ rw e (k, inr (err, refl, h, refl, refl))
            | inl (fd, t, e, k, unbound, listens, reaches) ↦
                elim (Opened-cases lib p2 64 t _ (initialize-Opened lib laws strerror p2 64 t)) [
                  | inr (err, u, q, k1, h) ↦
                      rw (e, q) (Keeps-trans lib s.os t u k k1, inr (err, refl, h, refl, refl))
                  | inl (other, u, q, k1, free, last, reached) ↦
                      let kept = k1.1 fd (λ z. some_none (sym listens.bound ∙ z)) in
                      rw (e, q)
                        (
                          Keeps-trans lib s.os t u k k1,
                          inl (
                            fd,
                            other,
                            refl,
                            refl,
                            refl,
                            refl,
                            refl,
                            λ z. some_none (sym listens.bound ∙ ap (λ f. lib.address f t) z ∙ free),
                            record {
                              bound = kept.0 ∙ listens.bound;
                              listening = kept.1 ∙ listens.listening;
                              replaced = listens.replaced;
                            },
                            record {
                              bound = last.bound;
                              listening = last.listening;
                              replaced = λ z. last.replaced (k.0 (sun_path p2) z);
                            },
                            first_owner paths fd other t u (reaches.0 (sun_path p1) refl) reached,
                            reached.0 (sun_path p2) refl,
                          ),
                        )
                ]
          ]
      where
        some_none : {path : Bytes} → some path ≢ none
        some_none h = cc
