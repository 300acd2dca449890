-- ===== src/Monitoring/Page.antt =====
-- The page of statistics, as a client reads it: line by line.
use blade_psgi.Base.{
  ℕ, zero, suc, ◌/◌, ◌≡◌, refl, ap, sym, ◌∙◌, false, List, [], ◌∷◌, ◌++◌, map, append_assoc,
  append-nil, arith, All, All-append, ltb, ◌==◌, if◌then◌else◌, Bool-cases, inl, inr,
}
use blade_psgi.Base.Bytes.{Bytes, codes}
use blade_psgi.Base.Words.{ℤ, pos, negsuc, signed64}
use blade_psgi.Base.Decimal.{digits, print_int}
use blade_psgi.Base.Outcome.{ok}
use blade_psgi.Shmem.PosixSem.{SemLib, IsSem}
use blade_psgi.Shmem.{SharedMemory, Semaphore, AtomicInt64, read_atomic, read_request_counter}
use blade_psgi.Semaphore.{read}
use blade_psgi.Monitoring.{newline, semaphore_lines, atomic_lines, statdata}

abbrev pub push : ℕ → List Bytes → List Bytes
push b [] = (b ∷ []) ∷ []
push b (l ∷ ls) = (b ∷ l) ∷ ls

-- The text cut at its newlines.
unfoldable pub split_lines : Bytes → List Bytes
split_lines [] = [] ∷ []
split_lines (b ∷ bs) = let rest = split_lines bs in if b == 10 then [] ∷ rest else push b rest

abbrev pub IsPlain : Bytes → Type 0
IsPlain = All λ b. (b == 10) ≡ false

split_lines-line :
    (l rest : Bytes) → IsPlain l → split_lines (l ++ newline ++ rest) ≡ l ∷ split_lines rest
unfolding split_lines
split_lines-line [] rest h = refl
split_lines-line (b ∷ l) rest h = rw (h.0, split_lines-line l rest h.1) refl

digits-IsPlain : (f n : ℕ) → IsPlain (digits f n)
unfolding digits
digits-IsPlain zero n = tt
digits-IsPlain (suc f) n = elim (Bool-cases (ltb n 10)) [
  | inl e ↦ rw e (ground arith, tt)
  | inr e ↦ rw e (All-append _ (digits f (n / 10)) _ (digits-IsPlain f (n / 10)) (ground arith, tt))
]

print_int-IsPlain : (z : ℤ) → IsPlain (print_int z)
print_int-IsPlain (pos n) = digits-IsPlain 20 n
print_int-IsPlain (negsuc n) = (refl, digits-IsPlain 20 (suc n))

abbrev pub semaphore_row : (Semaphore → ℕ) → Semaphore → Bytes
semaphore_row value x = codes "sem " ++ x.name ++ codes ": " ++ print_int (pos (value x))

abbrev pub atomic_row : SharedMemory → AtomicInt64 → Bytes
atomic_row s a = codes "atomic " ++ a.name ++ codes ": " ++ print_int (signed64 (read_atomic a s))

row-IsPlain :
    (kind name : Bytes) (z : ℤ)
    → IsPlain kind
    → IsPlain name
    → IsPlain (kind ++ name ++ codes ": " ++ print_int z)
row-IsPlain kind name z k n =
    let named : IsPlain (kind ++ name) = All-append _ kind name k n in
    let front : IsPlain (kind ++ name ++ codes ": ") =
      All-append _ (kind ++ name) (codes ": ") named (refl, (refl, tt)) in
    All-append _ (kind ++ name ++ codes ": ") (print_int z) front (print_int-IsPlain z)

-- The text of the semaphores, one row after the other.
abbrev rows : List Bytes → Bytes
rows [] = []
rows (l ∷ ls) = l ++ newline ++ rows ls

split_lines-rows :
    (ls : List Bytes) (rest : Bytes)
    → All IsPlain ls
    → split_lines (rows ls ++ rest) ≡ ls ++ split_lines rest
split_lines-rows [] rest h = refl
split_lines-rows (l ∷ ls) rest h =
    rw append_assoc
      (split_lines-line l (rows ls ++ rest) h.0 ∙ ap (λ x. l ∷ x) (split_lines-rows ls rest h.1))

module _ (lib : SemLib) (value : Semaphore → ℕ) (s : SharedMemory) where
  -- The semaphores are there, with the given values.
  abbrev pub HaveValues : List Semaphore → Type 0
  HaveValues = All λ x. IsSem lib s.segment x.sem (value x)

  semaphore_lines_lem :
      (xs : List Semaphore)
      → HaveValues xs
      → semaphore_lines lib xs s ≡ (ok (rows (map (semaphore_row value) xs)), s)
  unfolding semaphore_lines read
  semaphore_lines_lem [] h = refl
  semaphore_lines_lem (x ∷ xs) h = rw (h.0, semaphore_lines_lem xs h.1) refl

atomic_lines_lem :
    (s : SharedMemory) (xs : List AtomicInt64) → atomic_lines xs s ≡ rows (map (atomic_row s) xs)
unfolding atomic_lines
atomic_lines_lem s [] = refl
atomic_lines_lem s (a ∷ rest) = ap (λ t. atomic_row s a ++ newline ++ t) (atomic_lines_lem s rest)

semaphore_rows-IsPlain :
    (value : Semaphore → ℕ) (xs : List Semaphore)
    → All (λ x. IsPlain x.name) xs
    → All IsPlain (map (semaphore_row value) xs)
semaphore_rows-IsPlain value [] h = tt
semaphore_rows-IsPlain value (x ∷ xs) h = (
  row-IsPlain (codes "sem ") x.name (pos (value x)) (ground arith) h.0,
  semaphore_rows-IsPlain value xs h.1,
)

atomic_rows-IsPlain :
    (s : SharedMemory) (xs : List AtomicInt64)
    → All (λ a. IsPlain a.name) xs
    → All IsPlain (map (atomic_row s) xs)
atomic_rows-IsPlain s [] h = tt
atomic_rows-IsPlain s (a ∷ rest) h = (
  row-IsPlain (codes "atomic ") a.name (signed64 (read_atomic a s)) (ground arith) h.0,
  atomic_rows-IsPlain s rest h.1,
)

-- The lines of the page.
abbrev pub page_lines : ℤ → Bytes → (Semaphore → ℕ) → SharedMemory → List Bytes
page_lines start_time worker_statuses value s =
    print_int start_time
    ∷ worker_statuses
    ∷ print_int (signed64 (read_request_counter s))
    ∷ []
    ∷ (map (semaphore_row value) s.semaphores ++ map (atomic_row s) s.atomics)

rows-append : (ls ms : List Bytes) → rows (ls ++ ms) ≡ rows ls ++ rows ms
rows-append [] ms = refl
rows-append (l ∷ ls) ms =
    ap (λ t. l ++ newline ++ t) (rows-append ls ms)
    ∙ sym (append_assoc (l ++ newline) (rows ls) (rows ms))

regroup :
    (a b c d e : Bytes)
    → a ++ newline ++ b ++ newline ++ c ++ newline ++ newline ++ d ++ e
      ≡ a ++ newline ++ (b ++ newline ++ (c ++ newline ++ (newline ++ (d ++ e))))
regroup a b c d e = simp append_assoc refl

-- Where no name and no status is a newline and the semaphores can be read, the page is made without
-- an error and without a change to the segment, and a client that cuts it at the newlines gets the
-- start time, the statuses, the request counter, an empty line, then a line with the name and the
-- value of each semaphore and of each atomic integer.
pub statdata-page_lines :
    (lib : SemLib) (value : Semaphore → ℕ) (s : SharedMemory) (start_time : ℤ)
    (worker_statuses : Bytes)
    → HaveValues lib value s s.semaphores
    → All (λ x. IsPlain x.name) s.semaphores
    → All (λ a. IsPlain a.name) s.atomics
    → IsPlain worker_statuses
    → (page : Bytes) × (statdata lib start_time worker_statuses s ≡ (ok page, s))
      × (split_lines page ≡ page_lines start_time worker_statuses value s ++ [] ∷ [])
unfolding statdata split_lines
statdata-page_lines lib value s start_time worker_statuses h xs ys st =
    let sems = map (semaphore_row value) s.semaphores in
    let atms = map (atomic_row s) s.atomics in
    let ls = page_lines start_time worker_statuses value s in
    let plain : All IsPlain ls = (
      print_int-IsPlain start_time,
      (
        st,
        (
          print_int-IsPlain (signed64 (read_request_counter s)),
          (
            tt,
            All-append IsPlain sems atms (semaphore_rows-IsPlain value s.semaphores xs)
                (atomic_rows-IsPlain s s.atomics ys),
          ),
        ),
      ),
    ) in
    (
      rows ls,
      rw
          (
            semaphore_lines_lem lib value s s.semaphores h,
            atomic_lines_lem s s.atomics,
            rows-append sems atms,
          )
          (ap (λ t. (ok t, s))
            (regroup (print_int start_time) worker_statuses
              (print_int (signed64 (read_request_counter s))) (rows sems) (rows atms))),
      ap split_lines (sym (append-nil (rows ls))) ∙ split_lines-rows ls [] plain,
    )
