-- ===== src/MainApp/Forks.antt =====
-- The loops of forks: what they leave in the tables, when every fork succeeds and when one fails.
use mathlib.Core.Bool.{false≢true}
use native.Mathlib.Nat.{add-zero, zero-add, suc-add}
use native.Mathlib.Decide.{ℕ_discrete}
use blade_psgi.Base.{
  Bool-cases, ◌⊎◌, ℕ, zero, suc, ◌+◌, ◌≤◌, ◌<◌, ◌≡◌, refl, sym, ap, subst, ◌∙◌, inl, inr, some,
  List, [], ◌∷◌, ◌++◌, get_elem?-append, length, arith, All, Pairs, append_assoc, append-nil,
  length-append,
}
use blade_psgi.Base.Bytes.{Bytes, codes}
use blade_psgi.Base.Words.{ℤ, pos, negsuc, minus_one, equal, equal_self}
use blade_psgi.Base.Outcome.{syscall_failed, ok, throw, M, ◌>>◌}
use blade_psgi.MainApp.{MainApp, AuxiliaryProcess, auxiliary_name}
use blade_psgi.MainApp.Children.{IsPid, Differs}
use blade_psgi.MainApp.Spawn.{
  Fork, Role, parent, auxiliary_child, worker_child, set_pid, forked, keep_auxiliary,
  spawn_auxiliaries, keep_worker, spawn_workers,
}

-- The pids that fork returned from its k-th call on.
abbrev pub pids : Fork → ℕ → ℕ → List ℤ
pids fork k zero = []
pids fork k (suc n) = (fork k).0 ∷ pids fork (k + 1) n

-- The auxiliary processes with these pids.
abbrev pub assigned : Fork → ℕ → List AuxiliaryProcess → List AuxiliaryProcess
assigned fork k [] = []
assigned fork k (p ∷ ps) = record p { pid = (fork k).0 } ∷ assigned fork (k + 1) ps

-- fork succeeds in every call, and never returns one pid twice.
pub record Forks (fork : Fork) : Type 0 where
  pub positive : (k : ℕ) → IsPid (fork k).0
  pub once : (j k : ℕ) → (fork j).0 ≡ (fork k).0 → j ≡ k

pub forked_positive :
    (r : ℤ × ℕ) (child : Role) (go_on : ℤ → M MainApp Role) (s : MainApp)
    → IsPid r.0
    → forked r child go_on s ≡ go_on r.0 s
forked_positive (pos zero, e) child go_on s h = absurd (omega arith)
forked_positive (pos (suc n), e) child go_on s h = ground arith
forked_positive (negsuc n, e) child go_on s h = absurd h

pub set_pid_lem :
    (pid : ℤ) (p : AuxiliaryProcess)
    → IsPid pid
    → p.pid ≡ minus_one
    → set_pid pid p ≡ (ok tt, record p { pid = pid })
unfolding set_pid
set_pid_lem (pos n) p h e = ground (arith, ap (λ q. equal q minus_one) e)
set_pid_lem (negsuc n) p h e = absurd h

-- The n calls of fork from the k-th on succeed.
abbrev pub Succeeds : Fork → ℕ → ℕ → Type 0
Succeeds fork k n = (j : ℕ) → k ≤ j → j < k + n → IsPid (fork j).0

pub spawn_auxiliaries_lem :
    (fork : Fork) (k : ℕ) (before ps : List AuxiliaryProcess) (s : MainApp)
    → Succeeds fork k (length ps)
    → All (λ p. p.pid ≡ minus_one) ps
    → spawn_auxiliaries fork k before ps (record s { auxiliary_processes = before ++ ps }) ≡ (
      ok parent,
      record s {
        auxiliary_processes = before ++ assigned fork k ps;
        auxiliary_pids = s.auxiliary_pids ++ pids fork k (length ps);
      },
    )
unfolding spawn_auxiliaries
spawn_auxiliaries_lem fork k before [] s f h = rw (append-nil s.auxiliary_pids) refl
spawn_auxiliaries_lem fork k before (p ∷ ps) s f h =
    let pid = (fork k).0 in
    let p' : AuxiliaryProcess = record p { pid = pid } in
    let t = record s { auxiliary_pids = s.auxiliary_pids ++ pid ∷ [] } in
    let go_on : ℤ → M MainApp Role = λ q.
      keep_auxiliary before p ps q
      >> spawn_auxiliaries fork (k + 1) (before ++ record p { pid = q } ∷ []) ps in
    forked_positive (fork k) (auxiliary_child k) go_on
      (record s { auxiliary_processes = before ++ p ∷ ps }) (f k (omega arith) (omega arith))
    ∙ rw (set_pid_lem pid p (f k (omega arith) (omega arith)) h.0) (
        rw (← append_assoc before (p' ∷ []) ps) (
          spawn_auxiliaries_lem fork (k + 1) (before ++ p' ∷ []) ps t
            (λ j lo hi. f j (omega arith) (omega arith)) h.1
          ∙ rw (append_assoc, append_assoc) refl))

-- The loop goes through the rounds whose calls succeed.
pub spawn_workers_go :
    (fork : Fork) (k i n : ℕ) (s : MainApp)
    → Succeeds fork k i
    → spawn_workers fork k (length s.worker_pids) (i + n) s
      ≡ spawn_workers fork
          (k + i)
          (length s.worker_pids + i)
          n
          (record s { worker_pids = s.worker_pids ++ pids fork k i })
unfolding spawn_workers
spawn_workers_go fork k zero n s f =
    rw (append-nil s.worker_pids, add-zero, add-zero, zero-add) refl
spawn_workers_go fork k (suc i) n s f =
    let pid = (fork k).0 in
    let t = record s { worker_pids = s.worker_pids ++ pid ∷ [] } in
    let go_on : ℤ → M MainApp Role = λ q.
      keep_worker (length s.worker_pids) q
      >> spawn_workers fork (k + 1) (length s.worker_pids + 1) (i + n) in
    rw (suc-add i n) (
      forked_positive (fork k) (worker_child (length s.worker_pids)) go_on s
        (f k (omega arith) (omega arith))
      ∙ rw (get_elem?-append s.worker_pids pid, equal_self pid)
          (rw (← length-append s.worker_pids (pid ∷ [])) (
            spawn_workers_go fork (k + 1) i n t (λ j lo hi. f j (omega arith) (omega arith)) ∙ λ x.
            spawn_workers fork (calls x) (numbers x) n (record s { worker_pids = kept x }))))
  where
    calls : k + 1 + i ≡ k + suc i
    calls = omega arith

    numbers : length (s.worker_pids ++ (fork k).0 ∷ []) + i ≡ length s.worker_pids + suc i
    numbers = omega (arith, length-append s.worker_pids ((fork k).0 ∷ []))

    kept :
        s.worker_pids ++ (fork k).0 ∷ [] ++ pids fork (k + 1) i
        ≡ s.worker_pids ++ ((fork k).0 ∷ pids fork (k + 1) i)
    kept = append_assoc s.worker_pids ((fork k).0 ∷ []) (pids fork (k + 1) i)

pub spawn_workers_lem :
    (fork : Fork) (k n : ℕ) (s : MainApp)
    → Succeeds fork k n
    → spawn_workers fork k (length s.worker_pids) n s
      ≡ (ok parent, record s { worker_pids = s.worker_pids ++ pids fork k n })
unfolding spawn_workers
spawn_workers_lem fork k n s f =
    subst
      (λ m.
        spawn_workers fork k (length s.worker_pids) m s
        ≡ (ok parent, record s { worker_pids = s.worker_pids ++ pids fork k n }))
      (add-zero n) (spawn_workers_go fork k n 0 s f)

pub forked_failed :
    (r : ℤ × ℕ) (child : Role) (go_on : ℤ → M MainApp Role) (s : MainApp)
    → r.0 ≡ minus_one
    → forked r child go_on s ≡ (throw (syscall_failed (codes "fork") r.1), s)
forked_failed (p, e) child go_on s h = rw h refl

-- The first call that fails ends the loop with its errno.
pub spawn_workers_fails :
    (fork : Fork) (k i n : ℕ) (s : MainApp)
    → Succeeds fork k i
    → (fork (k + i)).0 ≡ minus_one
    → spawn_workers fork k (length s.worker_pids) (i + suc n) s ≡ (
      throw (syscall_failed (codes "fork") (fork (k + i)).1),
      record s { worker_pids = s.worker_pids ++ pids fork k i },
    )
unfolding spawn_workers
spawn_workers_fails fork k i n s f e =
    let t = record s { worker_pids = s.worker_pids ++ pids fork k i } in
    let w = length s.worker_pids + i in
    let go_on : ℤ → M MainApp Role =
      λ q. keep_worker w q >> spawn_workers fork (k + i + 1) (w + 1) n in
    spawn_workers_go fork k i (suc n) s f ∙ forked_failed (fork (k + i)) (worker_child w) go_on t e

pub All-pids {ℓ} :
    (P : ℤ → Type ℓ) (fork : Fork) (k n : ℕ)
    → ((j : ℕ) → k ≤ j → j < k + n → P (fork j).0)
    → All P (pids fork k n)
All-pids P fork k zero h = tt
All-pids P fork k (suc n) h = (
  h k (omega arith) (omega arith),
  All-pids P fork (k + 1) n (λ j lo hi. h j (omega arith) (omega arith)),
)

pub pids-Differs :
    (fork : Fork) (i k n : ℕ)
    → Forks fork
    → (i < k) ⊎ (k + n ≤ i)
    → All (Differs (fork i).0) (pids fork k n)
pids-Differs fork i k n f h =
    All-pids _ fork k n (λ j lo hi e. absurd (omega (arith, f.once i j e)))

pub Pairs-pids : (fork : Fork) (k n : ℕ) → Forks fork → Pairs Differs (pids fork k n)
Pairs-pids fork k zero f = tt
Pairs-pids fork k (suc n) f =
    (pids-Differs fork k (k + 1) n f (inl (omega arith)), Pairs-pids fork (k + 1) n f)

pub assigned_name :
    (fork : Fork) (k : ℕ) (ps : List AuxiliaryProcess) (j : ℕ)
    → k ≤ j
    → j < k + length ps
    → (name : Bytes) × (auxiliary_name (fork j).0 (assigned fork k ps) ≡ some name)
unfolding auxiliary_name
assigned_name fork k [] j lo hi = absurd (omega arith)
assigned_name fork k (p ∷ ps) j lo hi = elim (Bool-cases (equal (fork k).0 (fork j).0)) [
  | inl e ↦ (p.name, rw e refl)
  | inr e ↦ elim (ℕ_discrete k j) [
    | yes q ↦ absurd (false≢true (sym e ∙ rw q (equal_self (fork j).0)))
    | no q ↦ rw e (assigned_name fork (k + 1) ps j (omega arith) (omega arith))
  ]
]

-- Nothing fails in Perl.
