-- ===== src/MainApp/Children.antt =====
-- The children of the overseer: the invariant on its tables of pids, and what find and erase do.
use blade_psgi.Base.{
  ◌<◌, ◌≡◌, ◌≢◌, refl, sym, ap, subst, ◌⊎◌, inl, inr, Bool, true, false, ◌||◌, some, List, [], ◌∷◌,
  All, Pairs, Bool-cases,
}
use blade_psgi.Base.Bytes.{Bytes}
use blade_psgi.Base.Words.{ℤ, pos, negsuc, minus_one, equal, eq_of_equal, equal_of_ne}
use blade_psgi.MainApp.{MainApp, found, erase, auxiliary_name}

-- A pid that fork returned to the parent.
abbrev pub IsPid : ℤ → Type 0
IsPid (pos n) = 0 < n
IsPid (negsuc n) = ⊥

abbrev pub Differs : ℤ → ℤ → Type 0
Differs p q = p ≢ q

-- Every pid in the tables was returned by fork, no pid is there twice, and each auxiliary process
-- has an entry from which its name can be read.
pub record IsValid (s : MainApp) : Type 0 where
  pub workers : All IsPid s.worker_pids
  pub auxiliaries : All IsPid s.auxiliary_pids
  pub monitoring : (s.monitoring_process_pid ≡ minus_one) ⊎ IsPid s.monitoring_process_pid
  pub workers_once : Pairs Differs s.worker_pids
  pub auxiliaries_once : Pairs Differs s.auxiliary_pids
  pub apart : All (λ w. All (Differs w) s.auxiliary_pids) s.worker_pids
  pub monitoring_no_worker : All (Differs s.monitoring_process_pid) s.worker_pids
  pub monitoring_no_auxiliary : All (Differs s.monitoring_process_pid) s.auxiliary_pids
  pub named :
      All
        (λ p. (name : Bytes) × (auxiliary_name p s.auxiliary_processes ≡ some name))
        s.auxiliary_pids

-- The overseer knows the pid as that of a child that it has not reaped.
abbrev pub known : ℤ → MainApp → Bool
known pid s =
    found pid s.worker_pids || found pid s.auxiliary_pids || equal pid s.monitoring_process_pid

pub All-erase {ℓ} : (P : ℤ → Type ℓ) (pid : ℤ) (ps : List ℤ) → All P ps → All P (erase pid ps)
unfolding erase
All-erase P pid [] h = tt
All-erase P pid (p ∷ ps) h = elim (Bool-cases (equal p pid)) [
  | inl e ↦ rw e h.1
  | inr e ↦ rw e (h.0, All-erase P pid ps h.1)
]

pub Pairs-erase : (pid : ℤ) (ps : List ℤ) → Pairs Differs ps → Pairs Differs (erase pid ps)
unfolding erase
Pairs-erase pid [] h = tt
Pairs-erase pid (p ∷ ps) h = elim (Bool-cases (equal p pid)) [
  | inl e ↦ rw e h.1
  | inr e ↦ rw e (All-erase (Differs p) pid ps h.0, Pairs-erase pid ps h.1)
]

pub not_found_of_All : (pid : ℤ) (ps : List ℤ) → All (Differs pid) ps → found pid ps ≡ false
unfolding found
not_found_of_All pid [] h = refl
not_found_of_All pid (p ∷ ps) h =
    rw (equal_of_ne p pid (λ e. h.0 (sym e))) (not_found_of_All pid ps h.1)

pub All_of_found {ℓ} :
    (P : ℤ → Type ℓ) (pid : ℤ) (ps : List ℤ) → All P ps → found pid ps ≡ true → P pid
unfolding found
All_of_found P pid [] h e = absurd (cc)
All_of_found P pid (p ∷ ps) h e = elim (Bool-cases (equal p pid)) [
  | inl q ↦ subst P (eq_of_equal p pid q) h.0
  | inr q ↦ All_of_found P pid ps h.1 (rw q at e)
]

-- One occurrence at most is there, and it is erased.
pub found-erase : (pid : ℤ) (ps : List ℤ) → Pairs Differs ps → found pid (erase pid ps) ≡ false
unfolding found erase
found-erase pid [] h = refl
found-erase pid (p ∷ ps) h = elim (Bool-cases (equal p pid)) [
  | inl e ↦
      rw e (not_found_of_All pid ps (subst (λ q. All (Differs q) ps) (eq_of_equal p pid e) h.0))
  | inr e ↦ rw (e, erase, found) (rw e (found-erase pid ps h.1))
]

pub found-erase_ne : (pid q : ℤ) (ps : List ℤ) → pid ≢ q → found q (erase pid ps) ≡ found q ps
unfolding found erase
found-erase_ne pid q [] h = refl
found-erase_ne pid q (p ∷ ps) h = elim (Bool-cases (equal p pid)) [
  | inl e ↦ rw (e, erase) (rw (eq_of_equal p pid e) (rw (equal_of_ne pid q h) refl))
  | inr e ↦ rw (e, erase) (ap (λ b. equal p q || b) (found-erase_ne pid q ps h))
]
