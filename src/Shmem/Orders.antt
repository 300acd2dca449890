-- ===== src/Shmem/Orders.antt =====
-- The accesses of all processes, in any order: what the segment holds is told by their totals.
use mathlib.Core.Logic.{∥∥₁_elim}
use mathlib.Core.List.{Perm, Permᴰ}
use mathlib.Core.Option.{some-injective}
use native.Mathlib.Decide.{ℕ_discrete}
use native.Mathlib.Nat.{ℕ_set}
use blade_psgi.Base.{
  ℕ, ◌+◌, ◌^◌, ◌≤◌, ◌<◌, ◌≡◌, refl, sym, ap, ◌∙◌, ◌⊎◌, inl, inr, some, List, [], ◌∷◌, arith, All,
  All-mono, All-get_elem?, Pairs-get_elem?, get_elem?, ltb, ◌==◌, if◌then◌else◌, ◌||◌,
}
use blade_psgi.Base.Words.{u64}
use blade_psgi.Shmem.Memory.{
  Apart, store_outside, load_cong, load_lt, load-store-Apart, load-store_self,
}
use blade_psgi.Shmem.Layout.{IsLaidOut, Fits}
use blade_psgi.Shmem.Accesses.{
  Access, request_exit, count_request, report_status, add_to, access, after, asks, counts, total,
  IsPlaced, should_exit_immediately-after, read_request_counter-after,
}
use blade_psgi.Shmem.{
  SharedMemory, AtomicInt64, read_atomic, set_should_exit_immediately, should_exit_immediately,
  increase_request_counter, read_request_counter, set_worker_status, get_worker_status,
}

-- fetch_add is called on the integers of the table.
abbrev pub IsAccess : SharedMemory → Access → Type 0
IsAccess s (add_to p v) =
    (j : ℕ) × (b : AtomicInt64) × (get_elem? s.atomics j ≡ some b) × (p ≡ b.ptr)
IsAccess s _ = Unit

-- What an access adds to the integer at `q`.
abbrev pub adds : ℕ → Access → ℕ
adds q (add_to p v) = if p == q then v else 0
adds q _ = 0

-- An access that goes to the integer, or to bytes apart from it.
abbrev Clears : ℕ → Access → Type 0
Clears q (add_to p v) = (p ≡ q) ⊎ Apart p 8 q 8
Clears q _ = Unit

value-access :
    (s : SharedMemory) (a : AtomicInt64) (x : Access)
    → 16 ≤ a.ptr
    → a.ptr + 8 ≤ 2048
    → Clears a.ptr x
    → read_atomic a s < 2 ^ 64
    → read_atomic a (access s x) ≡ u64 (read_atomic a s + adds a.ptr x)
unfolding access set_should_exit_immediately increase_request_counter set_worker_status read_atomic
value-access s a request_exit lo hi c b =
    load_cong 8 (access s request_exit).segment s.segment a.ptr (λ q l h. ground arith)
    ∙ omega arith
value-access s a count_request lo hi c b =
    load-store-Apart 8 8 s.segment 8 _ a.ptr (omega arith) ∙ omega arith
value-access s a (report_status w n) lo hi c b =
    load_cong 8 (access s (report_status w n)).segment s.segment a.ptr (λ q l h. ground arith)
    ∙ omega arith
value-access s a (add_to p v) lo hi (inl e) b =
    ap (λ q. read_atomic a (access s (add_to q v))) e
    ∙ load-store_self 8 s.segment a.ptr (u64 (read_atomic a s + v)) (omega arith)
    ∙ ground arith
value-access s a (add_to p v) lo hi (inr apart) b =
    load-store-Apart 8 8 s.segment p _ a.ptr apart ∙ ground arith

value-after :
    (s : SharedMemory) (a : AtomicInt64) (xs : List Access)
    → 16 ≤ a.ptr
    → a.ptr + 8 ≤ 2048
    → All (Clears a.ptr) xs
    → read_atomic a s < 2 ^ 64
    → read_atomic a (after s xs) ≡ u64 (read_atomic a s + total (adds a.ptr) xs)
unfolding after
value-after s a [] lo hi c b = omega arith
value-after s a (x ∷ xs) lo hi c b =
    let step = value-access s a x lo hi c.0 b in
    let rest = value-after (access s x) a xs lo hi c.1 (omega (arith, step)) in
    omega (arith, step, rest)

-- The status of the worker behind an access.
abbrev pub reported : ℕ → ℕ → Access → ℕ
reported w b (report_status v n) = if v == w then n else b
reported w b _ = b

-- The status that the worker reported last, or the one from before.
abbrev pub last_report : ℕ → ℕ → List Access → ℕ
last_report w b [] = b
last_report w b (x ∷ xs) = last_report w (reported w b x) xs

status-access :
    (s : SharedMemory) (w : ℕ) (x : Access)
    → IsPlaced x
    → get_worker_status w (access s x) ≡ reported w (get_worker_status w s) x
unfolding access set_should_exit_immediately increase_request_counter set_worker_status
    get_worker_status
status-access s w request_exit h = ground arith
status-access s w count_request h = store_outside 8 s.segment 8 _ (2048 + w) (omega arith)
status-access s w (report_status v n) h = ground arith
status-access s w (add_to p n) h = store_outside 8 s.segment p _ (2048 + w) (omega arith)

status-after :
    (s : SharedMemory) (w : ℕ) (xs : List Access)
    → All IsPlaced xs
    → get_worker_status w (after s xs) ≡ last_report w (get_worker_status w s) xs
unfolding after
status-after s w [] h = refl
status-after s w (x ∷ xs) (h, hs) =
    status-after (access s x) w xs hs ∙ ap (λ b. last_report w b xs) (status-access s w x h)

-- What the totals of the accesses say of the segment `t` behind them.
pub record HoldsTotals (s t : SharedMemory) (xs : List Access) : Type 0 where
  pub flag : should_exit_immediately t ≡ (should_exit_immediately s || ltb 0 (total asks xs))
  pub counter : read_request_counter t ≡ u64 (read_request_counter s + total counts xs)
  pub statuses : (w : ℕ) → get_worker_status w t ≡ last_report w (get_worker_status w s) xs
  pub integers :
      (i : ℕ) (a : AtomicInt64)
      → get_elem? s.atomics i ≡ some a
      → read_atomic a t ≡ u64 (read_atomic a s + total (adds a.ptr) xs)

-- The flag, the request counter and the integers are the same in `t` and in `u`.
pub record SameView (s t u : SharedMemory) : Type 0 where
  pub flag : should_exit_immediately t ≡ should_exit_immediately u
  pub counter : read_request_counter t ≡ read_request_counter u
  pub integers :
      (i : ℕ) (a : AtomicInt64) → get_elem? s.atomics i ≡ some a → read_atomic a t ≡ read_atomic a u

module _ {size calls : ℕ} {s : SharedMemory} (v : IsLaidOut size calls s) where
  fits :
      (i : ℕ) (a : AtomicInt64)
      → get_elem? s.atomics i ≡ some a
      → Fits s.next_user_available_offset 8 a.ptr
  fits i a e = All-get_elem? _ s.atomics i v.atomics_fit e

  IsAccess-IsPlaced : (x : Access) → IsAccess s x → IsPlaced x
  IsAccess-IsPlaced request_exit h = tt
  IsAccess-IsPlaced count_request h = tt
  IsAccess-IsPlaced (report_status w b) h = tt
  IsAccess-IsPlaced (add_to p n) (j, b, e, q) = let f = fits j b e in omega (arith, f, q)

  IsAccess-Clears :
      (i : ℕ) (a : AtomicInt64) (e : get_elem? s.atomics i ≡ some a) (x : Access)
      → IsAccess s x
      → Clears a.ptr x
  IsAccess-Clears i a e request_exit h = tt
  IsAccess-Clears i a e count_request h = tt
  IsAccess-Clears i a e (report_status w b) h = tt
  IsAccess-Clears i a e (add_to p n) (j, b, f, q) = elim (ℕ_discrete i j) [
    | yes z ↦
        inl
          (q ∙ ap (λ c. c.ptr) (some-injective b a (sym f ∙ ap (get_elem? s.atomics) (sym z) ∙ e)))
    | no ne ↦
        let far =
          Pairs-get_elem? (λ a b. Apart a.ptr 8 b.ptr 8) (λ a b h. omega arith) s.atomics i j a b
            v.atomics_apart ne e f in
        inr (omega (arith, far, q))
  ]

  -- In a laid out segment, whatever accesses the processes make and in whatever order: behind them
  -- the exit flag is set exactly when it was or one of them asked for the exit; the request counter
  -- has counted every request, and each atomic integer has got all that was added to it, modulo
  -- 2^64; and each worker has the status that it reported last.
  pub after-HoldsTotals :
      (xs : List Access)
      → ((q : ℕ) → s.segment q < 256)
      → All (IsAccess s) xs
      → HoldsTotals s (after s xs) xs
  after-HoldsTotals xs bytes h =
      let placed = All-mono IsAccess-IsPlaced xs h in
      record {
        flag = should_exit_immediately-after s xs placed;
        counter =
            read_request_counter-after s xs placed
              (unfold read_request_counter in load_lt 8 s.segment 8 bytes);
        statuses = λ w. status-after s w xs placed;
        integers = λ i a e.
            let f = fits i a e in
            value-after s a xs (omega (arith, f)) (omega (arith, f))
              (All-mono (IsAccess-Clears i a e) xs h)
              (unfold read_atomic in load_lt 8 s.segment a.ptr bytes);
      }

total-Permᴰ : (f : Access → ℕ) (xs ys : List Access) → Permᴰ xs ys → total f xs ≡ total f ys
total-Permᴰ f _ _ Permᴰ.nil = refl
total-Permᴰ f _ _ (Permᴰ.cons {l₁ = xs} {l₂ = ys} e d) =
    let rest = total-Permᴰ f xs ys d in omega (arith, ap f e, rest)
total-Permᴰ f _ _ (Permᴰ.swap e1 e2) = omega (arith, ap f e1, ap f e2)
total-Permᴰ f _ _ (Permᴰ.trans {l₁ = xs} {l₂ = ys} {l₃ = zs} d1 d2) =
    total-Permᴰ f xs ys d1 ∙ total-Permᴰ f ys zs d2

total-Perm : (f : Access → ℕ) (xs ys : List Access) → Perm xs ys → total f xs ≡ total f ys
total-Perm f xs ys d = ∥∥₁_elim d (ℕ_set _ _) (total-Permᴰ f xs ys)

module _ {size calls : ℕ} {s : SharedMemory} (v : IsLaidOut size calls s) where
  -- Two orders of the same exit requests, counted requests, status reports and additions leave the
  -- same exit flag, the same request counter and the same atomic integers in a segment that is laid
  -- out. Stores, whose order matters, are not among these accesses.
  pub after-SameView :
      (xs ys : List Access)
      → ((q : ℕ) → s.segment q < 256)
      → All (IsAccess s) xs
      → All (IsAccess s) ys
      → Perm xs ys
      → SameView s (after s xs) (after s ys)
  after-SameView xs ys bytes h k d =
      let x = after-HoldsTotals v xs bytes h in
      let y = after-HoldsTotals v ys bytes k in
      record {
        flag =
            x.flag
            ∙ ap (λ n. should_exit_immediately s || ltb 0 n) (total-Perm asks xs ys d)
            ∙ sym y.flag;
        counter =
            x.counter
            ∙ ap (λ n. u64 (read_request_counter s + n)) (total-Perm counts xs ys d)
            ∙ sym y.counter;
        integers = λ i a e.
            x.integers i a e
            ∙ ap (λ n. u64 (read_atomic a s + n)) (total-Perm (adds a.ptr) xs ys d)
            ∙ sym (y.integers i a e);
      }
