-- ===== src/Tests/Sockets.antt =====
-- A small operating system, on which the program starts.
use blade_psgi.Base.{
  ℕ, ◌≡◌, ◌≢◌, refl, sym, ap, ◌∙◌, ◌⊎◌, inl, inr, Bool, true, false, Option, none, some, [],
  Bool-cases, Option-cases, arith, ◌==◌, if◌then◌else◌,
}
use blade_psgi.Base.Bytes.{Bytes, codes, same, eq_of_same, same_self}
use blade_psgi.Base.Outcome.{◌>>◌}
use blade_psgi.Startup.{
  Answer, done, failed, UnixLib, UnixLaws, Setup, Paths, initialize_main_fastcgi_socket,
  initialize_stats_socket, initialize_unix_socket,
}
use blade_psgi.Startup.BothSockets.{BothOpened, sockets-BothOpened}

-- The files, the addresses and backlogs of the sockets, and the flags of the descriptors.
pub record System : Type 0 where
  pub files : Bytes → Option Bool
  pub addresses : ℕ → Option Bytes
  pub backlogs : ℕ → Option ℕ
  pub flags : ℕ → ℕ
  pub owners : Bytes → Option ℕ

abbrev set {ℓ} : {A : Type ℓ} → (ℕ → A) → ℕ → A → ℕ → A
set f p v q = if p == q then v else f q

abbrev set_file : {A : Type 0} → (Bytes → A) → Bytes → A → Bytes → A
set_file f p v q = if same p q then v else f q

-- Descriptors 3 and 4 can be sockets.
abbrev free_descriptor : Option Bytes → Option Bytes → Answer ℕ
free_descriptor none b = done 3
free_descriptor (some p) none = done 4
free_descriptor (some p) (some q) = failed 24

abbrev bind_file : ℕ → Bytes → System → Option Bool → Option ℕ × System
bind_file fd p s (some k) = (some 98, s)
bind_file fd p s none = (
  none,
  record s {
    files = set_file s.files p (some true);
    addresses = set s.addresses fd (some p);
    owners = set_file s.owners p (some fd);
  },
)

abbrev pub system : UnixLib System
system = record {
  socket = λ s. (free_descriptor (s.addresses 3) (s.addresses 4), s);
  stat = λ p s. s.files p;
  unlink = λ p s.
      (none, record s { files = set_file s.files p none; owners = set_file s.owners p none });
  bind = λ fd p s. bind_file fd p s (s.files p);
  listen = λ fd n s. (none, record s { backlogs = set s.backlogs fd (some n) });
  pipe = λ s. (done (5, 6), s);
  fcntl_getfl = λ fd s. done (s.flags fd);
  fcntl_setfl = λ fd flags s. (none, record s { flags = set s.flags fd flags });
  mmap = λ size s. (65536, s);
  address = λ fd s. s.addresses fd;
  backlog = λ fd s. s.backlogs fd;
  resolve = λ p. p;
  owner = λ p s. s.owners p;
}

set_other : {A : Type 0} (f : ℕ → A) (p q : ℕ) (v : A) → q ≢ p → set f p v q ≡ f q
set_other f p q v h = elim (Bool-cases (p == q)) [
  | inl e ↦ absurd (h (ground arith))
  | inr e ↦ rw e refl
]

set_same : {A : Type 0} (f : ℕ → A) (p : ℕ) (v : A) → set f p v p ≡ v
set_same f p v = elim (Bool-cases (p == p)) [ inl e ↦ rw e refl | inr e ↦ absurd (ground arith) ]

set_file_other :
    (f : Bytes → Option Bool) (p q : Bytes) (v : Option Bool)
    → f p ≢ some false
    → f q ≡ some false
    → set_file f p v q ≡ some false
set_file_other f p q v h e = elim (Bool-cases (same p q)) [
  | inl z ↦ absurd (h (ap f (eq_of_same p q z) ∙ e))
  | inr z ↦ rw z e
]

set_owner_other :
    (f : Bytes → Option ℕ) (p q : Bytes) (v : Option ℕ) → q ≢ p → set_file f p v q ≡ f q
set_owner_other f p q v h = elim (Bool-cases (same p q)) [
  | inl z ↦ absurd (h (sym (eq_of_same p q z)))
  | inr z ↦ rw z refl
]

set_owner_same : (f : Bytes → Option ℕ) (p : Bytes) (v : Option ℕ) → set_file f p v p ≡ v
set_owner_same f p v = rw (same_self p) refl

free_descriptor-free :
    (a b : Option Bytes) (fd : ℕ)
    → free_descriptor a b ≡ done fd
    → ((fd ≡ 3) × (a ≡ none)) ⊎ ((fd ≡ 4) × (b ≡ none))
free_descriptor-free none b fd e = inl (cc, refl)
free_descriptor-free (some p) none fd e = inr (cc, refl)
free_descriptor-free (some p) (some q) fd e = absurd (cc)

bind-cases :
    (fd : ℕ) (p : Bytes) (s : System)
    → ((k : Bool) × (system.bind fd p s ≡ (some 98, s)))
      ⊎ ((s.files p ≡ none)
          × (system.bind fd p s ≡ (
            none,
            record s {
              files = set_file s.files p (some true);
              addresses = set s.addresses fd (some p);
              owners = set_file s.owners p (some fd);
            },
          )))
bind-cases fd p s = elim (Option-cases (s.files p)) [
  | inl e ↦ inr (e, ap (bind_file fd p s) e)
  | inr (k, e) ↦ inl (k, ap (bind_file fd p s) e)
]

pub system-laws : UnixLaws system
system-laws = record {
  socket_spares = λ s q h. h;
  unlink_spares = λ p s e q h. set_file_other s.files p q none (λ z. true_false (sym e ∙ z)) h;
  bind_spares = λ fd p s q h. elim (bind-cases fd p s) [
    | inl (k, e) ↦ ap (λ (r : Option ℕ × System). r.1.files q) e ∙ h
    | inr (e, b) ↦
        ap (λ (r : Option ℕ × System). r.1.files q) b
        ∙ set_file_other s.files p q (some true) (λ z. none_false (sym e ∙ z)) h
  ];
  listen_spares = λ fd n s q h. h;
  socket_new = λ s fd e. elim (free_descriptor-free (s.addresses 3) (s.addresses 4) fd e) [
    | inl (z, f) ↦ ap s.addresses z ∙ f
    | inr (z, f) ↦ ap s.addresses z ∙ f
  ];
  socket_others = λ s fd u. (refl, refl);
  unlink_others = λ p s fd u. (refl, refl);
  bind_others = λ fd p s other h. elim (bind-cases fd p s) [
    | inl (k, e) ↦ (
      ap (λ (r : Option ℕ × System). r.1.addresses other) e,
      ap (λ (r : Option ℕ × System). r.1.backlogs other) e,
    )
    | inr (e, b) ↦ (
      ap (λ (r : Option ℕ × System). r.1.addresses other) b
          ∙ set_other s.addresses fd other (some p) h,
      ap (λ (r : Option ℕ × System). r.1.backlogs other) b,
    )
  ];
  listen_others = λ fd n s other h. (refl, set_other s.backlogs fd other (some n) h);
  bind_address = λ fd p s h. elim (bind-cases fd p s) [
    | inl (k, e) ↦ absurd (some_none (sym (ap (λ (r : Option ℕ × System). r.0) e) ∙ h))
    | inr (e, b) ↦
        ap (λ (r : Option ℕ × System). r.1.addresses fd) b ∙ set_same s.addresses fd (some p)
  ];
  listen_backlog = λ fd n s h. (set_same s.backlogs fd (some n), refl);
  socket_owners = λ p s q h. refl;
  unlink_owners = λ p s q h. set_owner_other s.owners p q none h;
  bind_owners = λ fd p s q h. elim (bind-cases fd p s) [
    | inl (k, e) ↦ ap (λ (r : Option ℕ × System). r.1.owners q) e
    | inr (e, b) ↦
        ap (λ (r : Option ℕ × System). r.1.owners q) b ∙ set_owner_other s.owners p q (some fd) h
  ];
  bind_owner = λ fd p s h q z. elim (bind-cases fd p s) [
    | inl (k, e) ↦ absurd (some_none (sym (ap (λ (r : Option ℕ × System). r.0) e) ∙ h))
    | inr (e, b) ↦
        ap (λ (r : Option ℕ × System). r.1.owners q) b
        ∙ ap (set_file s.owners p (some fd)) z
        ∙ set_owner_same s.owners p (some fd)
  ];
  listen_owner = λ fd n s q. refl;
  pipe_ends = λ s r w e. different r w e;
  setfl_sets = λ fd flags s h. ap done (set_same s.flags fd flags);
  socket_flags = λ s fd flags h. h;
  unlink_flags = λ p s fd flags h. h;
  bind_flags = λ fd p s other flags h. elim (bind-cases fd p s) [
    | inl (k, e) ↦ ap (λ (r : Option ℕ × System). done (r.1.flags other)) e ∙ h
    | inr (e, b) ↦ ap (λ (r : Option ℕ × System). done (r.1.flags other)) b ∙ h
  ];
  listen_flags = λ fd n s other flags h. h;
  mmap_flags = λ size s fd flags h. h;
  setfl_others = λ fd flags other s h. ap done (set_other s.flags fd other flags h);
}
  where
    true_false : ◌≢◌ {A = Option Bool} (some true) (some false)
    true_false h = cc

    none_false : ◌≢◌ {A = Option Bool} none (some false)
    none_false h = cc

    some_none : ◌≢◌ {A = Option ℕ} (some 98) none
    some_none h = cc

    end_of : Answer (ℕ × ℕ) → Bool → ℕ
    end_of (failed n) b = 0
    end_of (done ends) b = if b then ends.0 else ends.1

    five_six : ◌≢◌ {A = ℕ} 5 6
    five_six h = cc

    different : (r w : ℕ) → ◌≡◌ {A = Answer (ℕ × ℕ)} (done (5, 6)) (done (r, w)) → r ≢ w
    different r w e z =
        absurd (five_six (ap (λ a. end_of a true) e ∙ z ∙ sym (ap (λ a. end_of a false) e)))

abbrev pub start : Setup System
start = record {
  os = record {
    files = λ p. if same p (codes "/tmp/notes") then some false else none;
    addresses = λ fd. none;
    backlogs = λ fd. none;
    flags = λ fd. 2;
    owners = λ p. none;
  };
  overseer_self_pipe = none;
  shmem = none;
  fastcgi_sockfd = none;
  stats_sockfd = none;
}

abbrev pub no_text : ℕ → Bytes
no_text errno = []

abbrev pub paths : Paths
paths = record { fastcgi_socket_path = codes "/tmp/fcgi"; stats_socket_path = codes "/tmp/stats" }

sockets-BothOpened_example : BothOpened system paths start (
    (do
      initialize_main_fastcgi_socket system no_text (codes "/tmp/fcgi")
      initialize_stats_socket system no_text (codes "/tmp/stats"))
      start)
sockets-BothOpened_example = sockets-BothOpened system system-laws no_text paths start

-- The run: both sockets are opened.
opens :
    ((do
      initialize_main_fastcgi_socket system no_text (codes "/tmp/fcgi")
      initialize_stats_socket system no_text (codes "/tmp/stats"))
      start).1.stats_sockfd
    ≡ some 4
unfolding initialize_main_fastcgi_socket initialize_stats_socket initialize_unix_socket same
opens = refl
