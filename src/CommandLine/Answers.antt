-- ===== src/CommandLine/Answers.antt =====
-- What `main` makes of a command line.
use blade_psgi.Base.{
  ℕ, suc, ◌+◌, ◌-◌, ◌≤◌, ◌<◌, ◌≡◌, refl, ap, ◌∙◌, Bool, true, false, Option, none, some, List, [],
  ◌∷◌, ◌++◌, length-append, arith, ◌==◌, length, get_elem?,
}
use blade_psgi.Base.Bytes.{Bytes, codes}
use blade_psgi.Base.Words.{ℤ, pos, negsuc}
use blade_psgi.Base.Decimal.{decimal}
use blade_psgi.Base.Outcome.{Outcome, ok, throw, exited, aborted, M, continue}
use blade_psgi.CommandLine.Strtol.{strtol, strtol-print_int}
use blade_psgi.CommandLine.{
  Printed, Opt, question, loader, prefix, other, Getopt, Config, first_argument, options, argument,
  check_count, worker_count, parse_arguments,
}

-- Nothing is printed by a call that goes on, and something by one that ends the process.
abbrev pub IsStage : {A : Type 0} → (A → Type 0) → Outcome A × List Printed → Type 0
IsStage P (ok a, out) = (out ≡ []) × P a
IsStage P (exited n, out) = (n ≤ 1) × (0 < length out)
IsStage P (throw e, out) = ⊥
IsStage P (aborted, out) = ⊥

-- The answer to a command line: a number of workers in range and no output, or an exit status of 0
-- or 1 with some.
abbrev pub IsAnswer : Outcome Config × List Printed → Type 0
IsAnswer = IsStage λ c. (1 ≤ c.nworkers) × (c.nworkers ≤ 65536)

IsStage-continue :
    {A B : Type 0} (P : A → Type 0) (Q : B → Type 0) (r : Outcome A × List Printed)
    (f : A → M (List Printed) B)
    → IsStage P r
    → ((a : A) → P a → IsStage Q (f a []))
    → IsStage Q (continue r f)
IsStage-continue P Q (ok a, out) f h k = rw h.0 (k a h.1)
IsStage-continue P Q (exited n, out) f h k = h
IsStage-continue P Q (throw e, out) f h k = absurd h
IsStage-continue P Q (aborted, out) f h k = absurd h

first_argument-IsStage : (arg : Option Bytes) → IsStage (λ u. Unit {0}) (first_argument arg [])
unfolding first_argument
first_argument-IsStage none = (refl, tt)
first_argument-IsStage (some arg) = ground arith

options-IsStage :
    (opts : List Opt) (o : Option Bytes × Bytes) → IsStage (λ u. Unit {0}) (options opts o [])
unfolding options
options-IsStage [] o = (refl, tt)
options-IsStage (question ∷ opts) o = omega arith
options-IsStage (loader arg ∷ opts) o = options-IsStage opts (some arg, o.1)
options-IsStage (prefix arg ∷ opts) o = options-IsStage opts (o.0, arg)
options-IsStage (other c ∷ opts) o = omega arith

check_count-IsStage : (b : Bool) → IsStage (λ u. Unit {0}) (check_count b [])
check_count-IsStage true = (refl, tt)
check_count-IsStage false = omega arith

worker_count-IsStage :
    (str : Bytes) (r : ℤ × Bytes) → IsStage (λ n. (1 ≤ n) × (n ≤ 65536)) (worker_count str r [])
worker_count-IsStage str (value, c ∷ rest) = omega arith
worker_count-IsStage str (negsuc n, []) = omega arith
worker_count-IsStage str (pos n, []) = ground arith

-- Whatever the command line and whatever getopt_long makes of it: `main` goes on with a number of
-- workers from 1 to 65536 and has printed nothing, or it has printed something and exits with
-- status 0 or 1.
pub parse_arguments-IsAnswer :
    (getopt_long : List Bytes → Getopt) (argv : List Bytes)
    → IsAnswer (parse_arguments getopt_long argv [])
unfolding parse_arguments
parse_arguments-IsAnswer getopt_long argv =
    let g = getopt_long argv in
    let str = argument g.argv (length g.argv - 3) in
    IsStage-continue _ _ (first_argument (get_elem? argv 1) []) _
      (first_argument-IsStage (get_elem? argv 1))
      λ u h.
        IsStage-continue _ _ (options g.returned (none, codes "Blade") []) _
          (options-IsStage g.returned (none, codes "Blade"))
          λ o h.
            IsStage-continue _ _ (check_count (g.optind + 4 == length g.argv) []) _
              (check_count-IsStage (g.optind + 4 == length g.argv))
              λ u h.
                IsStage-continue _ _ (worker_count str (strtol str) []) _
                  (worker_count-IsStage str (strtol str)) λ n h. (refl, h)

get_elem?-append :
    (front xs : List Bytes) (k : ℕ) → get_elem? (front ++ xs) (length front + k) ≡ get_elem? xs k
get_elem?-append [] xs k = ap (get_elem? xs) (omega arith)
get_elem?-append (x ∷ front) xs k =
    ap (get_elem? (x ∷ front ++ xs)) (suc_add (length front) k) ∙ get_elem?-append front xs k
  where
    suc_add : (m n : ℕ) → suc m + n ≡ suc (m + n)
    suc_add m n = omega arith

-- The `k`-th of the four arguments behind the options.
argument-back :
    (front : List Bytes) (a b c d : Bytes) (i k : ℕ)
    → i ≡ length front + k
    → argument (front ++ a ∷ b ∷ c ∷ d ∷ []) i ≡ argument (a ∷ b ∷ c ∷ d ∷ []) k
argument-back front a b c d i k e = rw e (
    ap (λ o. elim o [ none ↦ [] | some arg ↦ arg ]) (get_elem?-append front (a ∷ b ∷ c ∷ d ∷ []) k))

worker_count-decimal :
    (n : ℕ) → 1 ≤ n → n ≤ 65536 → worker_count (decimal n) (strtol (decimal n)) [] ≡ (ok n, [])
worker_count-decimal n lo hi = rw (strtol-print_int (pos n) (omega arith)) (ground arith)

-- A command line with the four arguments, the second being the decimal numeral of a number from 1
-- to 65536, behind options that are the loader and the prefix only, is accepted, with these values.
pub parse_arguments-decimal :
    (getopt_long : List Bytes → Getopt) (argv front : List Bytes)
    (application fastcgi stats : Bytes) (n : ℕ) (o : Option Bytes × Bytes)
    → first_argument (get_elem? argv 1) [] ≡ (ok tt, [])
    → (getopt_long argv).argv ≡ front ++ application ∷ decimal n ∷ fastcgi ∷ stats ∷ []
    → (getopt_long argv).optind ≡ length front
    → options (getopt_long argv).returned (none, codes "Blade") [] ≡ (ok o, [])
    → 1 ≤ n
    → n ≤ 65536
    → parse_arguments getopt_long argv [] ≡ (
      ok (record {
        psgi_application_path = application;
        nworkers = n;
        application_loader = o.0;
        fastcgi_socket_path = fastcgi;
        stats_socket_path = stats;
        process_title_prefix = o.1;
      }),
      [],
    )
unfolding parse_arguments
parse_arguments-decimal getopt_long argv front application fastcgi stats n o first args ind opts lo
      hi =
    let size : length (front ++ application ∷ decimal n ∷ fastcgi ∷ stats ∷ []) ≡ length front + 4 =
      length-append front (application ∷ decimal n ∷ fastcgi ∷ stats ∷ []) in
    let count : (length front + 4 == length front + 4) ≡ true = ground arith in
    rw
      (
        first,
        opts,
        args,
        ind,
        size,
        count,
        argument-back front application (decimal n) fastcgi stats (length front + 4 - 4) 0
            (omega arith),
        argument-back front application (decimal n) fastcgi stats (length front + 4 - 3) 1
            (omega arith),
        argument-back front application (decimal n) fastcgi stats (length front + 4 - 2) 2
            (omega arith),
        argument-back front application (decimal n) fastcgi stats (length front + 4 - 1) 3
            (omega arith),
        worker_count-decimal n lo hi,
      )
      refl
