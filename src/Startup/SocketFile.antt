-- ===== src/Startup/SocketFile.antt =====
-- The sockets that the start opens, and the files that it meets.
use blade_psgi.Base.{
  ℕ, ◌≡◌, ◌≢◌, refl, sym, ap, subst, ◌∙◌, ◌⊎◌, inl, inr, Bool, true, false, Option, none, some,
}
use blade_psgi.Base.Bytes.{Bytes, codes}
use blade_psgi.Base.Outcome.{Exn, syscall_failed, runtime_error, Outcome, ok, throw, ◌>>◌, return}
use blade_psgi.Startup.{
  Answer, done, failed, UnixLib, UnixLaws, Spares, SameSockets, KeepsFlags, KeepsOwners, sun_path,
  checked, initialize_unix_socket,
}

-- The exceptions that `main` handles.
pub data IsHandled : Exn → Type 0 where
  handled_syscall : {call : Bytes} {errno : ℕ} → IsHandled (syscall_failed call errno)
  handled_runtime : {text : Bytes} → IsHandled (runtime_error text)

Answer-cases :
    {A S : Type 0} (r : Answer A × S)
    → ((a : A) × (t : S) × (r ≡ (done a, t))) ⊎ ((errno : ℕ) × (t : S) × (r ≡ (failed errno, t)))
Answer-cases (done a, t) = inl (a, t, refl)
Answer-cases (failed errno, t) = inr (errno, t, refl)

Errno-cases :
    {S : Type 0} (r : Option ℕ × S)
    → ((t : S) × (r ≡ (none, t))) ⊎ ((errno : ℕ) × (t : S) × (r ≡ (some errno, t)))
Errno-cases (none, t) = inl (t, refl)
Errno-cases (some errno, t) = inr (errno, t, refl)

Stat-cases : (o : Option Bool) → (o ≡ none) ⊎ ((o ≡ some true) ⊎ (o ≡ some false))
Stat-cases none = inl refl
Stat-cases (some true) = inr (inl refl)
Stat-cases (some false) = inr (inr refl)

module _ {S : Type 0} (lib : UnixLib S) where
  -- The files that are no sockets, the sockets that were bound, and the flags are as they were.
  abbrev pub Keeps : S → S → Type 0
  Keeps s t =
      Spares lib s t × SameSockets lib (λ fd. lib.address fd s ≢ none) s t × KeepsFlags lib s t

  -- A socket that is bound to the path, which was no other file, and listens.
  pub record Listens (path : Bytes) (n : ℕ) (s t : S) (fd : ℕ) : Type 0 where
    pub bound : lib.address fd t ≡ some (sun_path path)
    pub listening : lib.backlog fd t ≡ some n
    pub replaced : lib.stat (sun_path path) s ≢ some false

  -- The file at the path is that of the socket, and the others belong to the same sockets.
  abbrev pub Reaches : Bytes → S → S → ℕ → Type 0
  Reaches path s t fd =
      ((q : Bytes) → lib.resolve q ≡ lib.resolve (sun_path path) → lib.owner q t ≡ some fd)
      × KeepsOwners lib (sun_path path) s t

  abbrev pub Opened : Bytes → ℕ → S → Outcome ℕ × S → Type 0
  Opened path n s (r, t) =
      Keeps s t
      × (((fd : ℕ) × (r ≡ ok fd)
            × (lib.address fd s ≡ none)
            × Listens path n s t fd
            × Reaches path s t fd)
          ⊎ ((e : Exn) × (r ≡ throw e) × IsHandled e))

  pub Keeps-trans : (s t u : S) → Keeps s t → Keeps t u → Keeps s u
  Keeps-trans s t u (a, b, f) (c, d, g) = (
    λ q h. c q (a q h),
    λ fd h.
        let before = b fd h in
        let behind = d fd (λ e. h (sym before.0 ∙ e)) in (behind.0 ∙ before.0, behind.1 ∙ before.1),
    λ fd flags h. g fd flags (f fd flags h),
  )

  pub Opened-cases :
      (path : Bytes) (n : ℕ) (s : S) (x : Outcome ℕ × S)
      → Opened path n s x
      → ((fd : ℕ) × (t : S) × (x ≡ (ok fd, t))
          × Keeps s t
          × (lib.address fd s ≡ none)
          × Listens path n s t fd
          × Reaches path s t fd)
        ⊎ ((e : Exn) × (t : S) × (x ≡ (throw e, t)) × Keeps s t × IsHandled e)
  Opened-cases path n s (r, t) (k, inl (fd, e, unbound, listens, reaches)) =
      inl (fd, t, ap (λ o. (o, t)) e, k, unbound, listens, reaches)
  Opened-cases path n s (r, t) (k, inr (err, e, h)) = inr (err, t, ap (λ o. (o, t)) e, k, h)

  module _ (laws : UnixLaws lib) where
    open laws use {
      socket_spares, unlink_spares, bind_spares, listen_spares, socket_new, socket_others,
      unlink_others, bind_others, listen_others, bind_address, listen_backlog, socket_flags,
      socket_owners, unlink_owners, bind_owners, bind_owner, listen_owner, unlink_flags, bind_flags,
      listen_flags,
    }

    -- The same but for one socket.
    abbrev KeepsBut : ℕ → S → S → Type 0
    KeepsBut fd s t =
        Spares lib s t × SameSockets lib (λ other. other ≢ fd) s t × KeepsFlags lib s t

    KeepsBut-trans : (fd : ℕ) (s t u : S) → KeepsBut fd s t → KeepsBut fd t u → KeepsBut fd s u
    KeepsBut-trans fd s t u (a, b, f) (c, d, g) = (
      λ q h. c q (a q h),
      λ other h. ((d other h).0 ∙ (b other h).0, (d other h).1 ∙ (b other h).1),
      λ fd flags h. g fd flags (f fd flags h),
    )

    KeepsBut-Keeps : (fd : ℕ) (s t : S) → lib.address fd s ≡ none → KeepsBut fd s t → Keeps s t
    KeepsBut-Keeps fd s t unbound (a, b, f) =
        (a, λ other h. b other (λ e. h (ap (λ f. lib.address f s) e ∙ unbound)), f)

    socket-KeepsBut : (fd : ℕ) (s : S) → KeepsBut fd s (lib.socket s).1
    socket-KeepsBut fd s = (socket_spares s, λ other h. socket_others s other tt, socket_flags s)

    unlink-KeepsBut :
        (fd : ℕ) (p : Bytes) (s : S) → lib.stat p s ≡ some true → KeepsBut fd s (lib.unlink p s).1
    unlink-KeepsBut fd p s e =
        (unlink_spares p s e, λ other h. unlink_others p s other tt, unlink_flags p s)

    bind-KeepsBut : (fd : ℕ) (p : Bytes) (s : S) → KeepsBut fd s (lib.bind fd p s).1
    bind-KeepsBut fd p s = (bind_spares fd p s, bind_others fd p s, bind_flags fd p s)

    listen-KeepsBut : (fd n : ℕ) (s : S) → KeepsBut fd s (lib.listen fd n s).1
    listen-KeepsBut fd n s = (listen_spares fd n s, listen_others fd n s, listen_flags fd n s)

    -- From the cleared path on.
    bind_and_listen :
        (path : Bytes) (n fd : ℕ) (s t : S)
        → lib.address fd s ≡ none
        → lib.stat (sun_path path) s ≢ some false
        → KeepsBut fd s t
        → KeepsOwners lib (sun_path path) s t
        → Opened path n s (
            (do
              λ s. checked lib (codes "bind") (lib.bind fd (sun_path path) s)
              λ s. checked lib (codes "listen") (lib.listen fd n s)
              return fd)
              t)
    bind_and_listen path n fd s t unbound other k owners =
        elim (Errno-cases (lib.bind fd (sun_path path) t)) [
          | inr (errno, u, e) ↦
              let k1 = subst (λ r. KeepsBut fd t r.1) e (bind-KeepsBut fd (sun_path path) t) in
              rw e (
                KeepsBut-Keeps fd s u unbound (KeepsBut-trans fd s t u k k1),
                inr (_, refl, handled_syscall),
              )
          | inl (u, e) ↦
              let k1 = subst (λ r. KeepsBut fd t r.1) e (bind-KeepsBut fd (sun_path path) t) in
              let bound =
                subst (λ r. lib.address fd r.1 ≡ some (sun_path path)) e
                  (bind_address fd (sun_path path) t (ap (λ r. r.0) e)) in
              let o1 =
                subst (λ r. KeepsOwners lib (sun_path path) t r.1) e
                  (bind_owners fd (sun_path path) t) in
              let owned =
                subst
                  (λ r.
                    (q : Bytes)
                    → lib.resolve q ≡ lib.resolve (sun_path path)
                    → lib.owner q r.1 ≡ some fd)
                  e (bind_owner fd (sun_path path) t (ap (λ r. r.0) e)) in
              elim (Errno-cases (lib.listen fd n u)) [
                | inr (errno, v, q) ↦
                    let k2 = subst (λ r. KeepsBut fd u r.1) q (listen-KeepsBut fd n u) in
                    rw (e, q)
                      (
                        KeepsBut-Keeps fd s v unbound
                            (KeepsBut-trans fd s u v (KeepsBut-trans fd s t u k k1) k2),
                        inr (_, refl, handled_syscall),
                      )
                | inl (v, q) ↦
                    let k2 = subst (λ r. KeepsBut fd u r.1) q (listen-KeepsBut fd n u) in
                    let law =
                      subst
                        (λ r.
                          (lib.backlog fd r.1 ≡ some n) × (lib.address fd r.1 ≡ lib.address fd u))
                        q (listen_backlog fd n u (ap (λ r. r.0) q)) in
                    let o2 : (p : Bytes) → lib.owner p v ≡ lib.owner p u =
                      subst (λ r. (p : Bytes) → lib.owner p r.1 ≡ lib.owner p u) q
                        (listen_owner fd n u) in
                    rw (e, q)
                      (
                        KeepsBut-Keeps fd s v unbound
                            (KeepsBut-trans fd s u v (KeepsBut-trans fd s t u k k1) k2),
                        inl (
                          fd,
                          refl,
                          unbound,
                          record { bound = law.1 ∙ bound; listening = law.0; replaced = other },
                          (λ p h. o2 p ∙ owned p h, λ p h. o2 p ∙ o1 p h ∙ owners p h),
                        ),
                      )
              ]
        ]

    module _ (strerror : ℕ → Bytes) where
      pub initialize-Opened :
          (path : Bytes) (n : ℕ) (s : S)
          → Opened path n s (initialize_unix_socket lib strerror path n s)
      unfolding initialize_unix_socket
      initialize-Opened path n s = elim (Answer-cases (lib.socket s)) [
        | inr (errno, t, e) ↦
            let k : Keeps s t =
              subst (λ r. Keeps s r.1) e
                (socket_spares s, λ other h. socket_others s other tt, socket_flags s) in
            rw e (k, inr (_, refl, handled_syscall))
        | inl (fd, t, e) ↦
            let k : KeepsBut fd s t = subst (λ r. KeepsBut fd s r.1) e (socket-KeepsBut fd s) in
            let o =
              subst (λ r. KeepsOwners lib (sun_path path) s r.1) e
                (socket_owners (sun_path path) s) in
            let unbound = socket_new s fd (ap (λ r. r.0) e) in
            elim (Stat-cases (lib.stat (sun_path path) t)) [
              | inl q ↦
                  rw (e, q)
                    (bind_and_listen path n fd s t unbound
                      (λ h. none_some (sym q ∙ k.0 (sun_path path) h)) k o)
              | inr (inr q) ↦
                  rw (e, q) (KeepsBut-Keeps fd s t unbound k, inr (_, refl, handled_runtime))
              | inr (inl q) ↦ elim (Errno-cases (lib.unlink (sun_path path) t)) [
                | inr (errno, u, z) ↦
                    let k1 =
                      subst (λ r. KeepsBut fd t r.1) z (unlink-KeepsBut fd (sun_path path) t q) in
                    rw (e, q, z)
                      (
                        KeepsBut-Keeps fd s u unbound (KeepsBut-trans fd s t u k k1),
                        inr (_, refl, handled_runtime),
                      )
                | inl (u, z) ↦
                    let k1 =
                      subst (λ r. KeepsBut fd t r.1) z (unlink-KeepsBut fd (sun_path path) t q) in
                    rw (e, q, z)
                      (bind_and_listen path n fd s u unbound
                        (λ h. true_false (sym q ∙ k.0 (sun_path path) h))
                        (KeepsBut-trans fd s t u k k1)
                        (λ p h.
                          subst (λ r. KeepsOwners lib (sun_path path) t r.1) z
                            (unlink_owners (sun_path path) t) p h
                          ∙ o p h))
              ]
            ]
      ]
        where
          none_some : ◌≢◌ {A = Option Bool} none (some false)
          none_some h = cc

          true_false : ◌≢◌ {A = Option Bool} (some true) (some false)
          true_false h = cc
