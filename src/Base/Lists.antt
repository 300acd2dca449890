-- ===== src/Base/Lists.antt =====
-- Lists measured and indexed by native numbers, and predicates on lists by recursion.
use Prim.Native.Nat.{ℕ, zero, suc, ◌+◌}
use mathlib.Core.Path.{◌≡◌, refl, ap, subst}
use mathlib.Core.Logic.{◌≢◌}
use mathlib.Core.List.{List, [], ◌∷◌, ◌++◌, map}
use mathlib.Core.Option.{Option, none, some, some-injective}
use native.Mathlib.Omega.{arith}

module _ {ℓ} {A : Type ℓ} where
  abbrev pub length : List A → ℕ
  length [] = 0
  length (x ∷ xs) = suc (length xs)

  abbrev pub get_elem? : List A → ℕ → Option A
  get_elem? [] i = none
  get_elem? (x ∷ xs) zero = some x
  get_elem? (x ∷ xs) (suc i) = get_elem? xs i

  abbrev pub take : ℕ → List A → List A
  take zero xs = []
  take (suc n) [] = []
  take (suc n) (x ∷ xs) = x ∷ take n xs

  abbrev pub replicate : ℕ → A → List A
  replicate zero a = []
  replicate (suc n) a = a ∷ replicate n a

  pub length-append : (xs ys : List A) → length (xs ++ ys) ≡ length xs + length ys
  length-append [] ys = omega arith
  length-append (x ∷ xs) ys = omega (arith, length-append xs ys)

  pub get_elem?-append : (xs : List A) (a : A) → get_elem? (xs ++ a ∷ []) (length xs) ≡ some a
  get_elem?-append [] a = refl
  get_elem?-append (x ∷ xs) a = get_elem?-append xs a

  pub get_elem?-kept :
      (xs ys : List A) (i : ℕ) (a : A) → get_elem? xs i ≡ some a → get_elem? (xs ++ ys) i ≡ some a
  get_elem?-kept [] ys i a e = absurd (cc)
  get_elem?-kept (x ∷ xs) ys zero a e = e
  get_elem?-kept (x ∷ xs) ys (suc i) a e = get_elem?-kept xs ys i a e

  pub length-replicate : (n : ℕ) (a : A) → length (replicate n a) ≡ n
  length-replicate zero a = refl
  length-replicate (suc n) a = ap suc (length-replicate n a)

module _ {ℓ κ} {A : Type ℓ} (P : A → Type κ) where
  -- Every entry satisfies `P`.
  abbrev pub All : List A → Type κ
  All [] = Unit
  All (x ∷ xs) = P x × All xs

  pub All-append : (xs ys : List A) → All xs → All ys → All (xs ++ ys)
  All-append [] ys hx hy = hy
  All-append (x ∷ xs) ys hx hy = (hx.0, All-append xs ys hx.1 hy)

  pub All-get_elem? : (xs : List A) (i : ℕ) {a : A} → All xs → get_elem? xs i ≡ some a → P a
  All-get_elem? [] i h e = absurd (cc)
  All-get_elem? (x ∷ xs) zero {a} h e = ground (arith, h.0)
  All-get_elem? (x ∷ xs) (suc i) h e = All-get_elem? xs i h.1 e

module _ {ℓ κ} {A : Type ℓ} {P Q : A → Type κ} (f : (a : A) → P a → Q a) where
  pub All-mono : (xs : List A) → All P xs → All Q xs
  All-mono [] h = tt
  All-mono (x ∷ xs) h = (f x h.0, All-mono xs h.1)

module _ {ℓ κ} {A : Type ℓ} (R : A → A → Type κ) where
  -- Every entry is related to each entry behind it.
  abbrev pub Pairs : List A → Type κ
  Pairs [] = Unit
  Pairs (x ∷ xs) = All (R x) xs × Pairs xs

  pub Pairs-append : (xs : List A) (y : A) → Pairs xs → All (λ x. R x y) xs → Pairs (xs ++ y ∷ [])
  Pairs-append [] y h k = (tt, tt)
  Pairs-append (x ∷ xs) y h k =
      (All-append (R x) xs (y ∷ []) h.0 (k.0, tt), Pairs-append xs y h.1 k.1)

  -- In a symmetric relation, so are the entries at any two positions.
  pub Pairs-get_elem? :
      ((a b : A) → R a b → R b a)
      → (xs : List A) (i j : ℕ) (a b : A) → Pairs xs
      → i ≢ j
      → get_elem? xs i ≡ some a
      → get_elem? xs j ≡ some b
      → R a b
  Pairs-get_elem? symm [] i j a b h ne p q = absurd (cc)
  Pairs-get_elem? symm (x ∷ xs) zero zero a b h ne p q = absurd (ne refl)
  Pairs-get_elem? symm (x ∷ xs) zero (suc j) a b h ne p q =
      subst (λ z. R z b) (some-injective x a p) (All-get_elem? (R x) xs j h.0 q)
  Pairs-get_elem? symm (x ∷ xs) (suc i) zero a b h ne p q =
      symm b a (subst (λ z. R z a) (some-injective x b q) (All-get_elem? (R x) xs i h.0 p))
  Pairs-get_elem? symm (x ∷ xs) (suc i) (suc j) a b h ne p q =
      Pairs-get_elem? symm xs i j a b h.1 (λ e. ne (ap suc e)) p q

module _ {ℓ κ μ} {A : Type ℓ} (P : A → Type κ) (Q : A → Type μ) where
  pub All-and : (xs : List A) → All P xs → All Q xs → All (λ x. P x × Q x) xs
  All-and [] h k = tt
  All-and (x ∷ xs) h k = ((h.0, k.0), All-and xs h.1 k.1)

module _ {ℓ κ} {A : Type ℓ} {B : Type κ} where
  pub length-map : (xs : List A) (f : A → B) → length (map f xs) ≡ length xs
  length-map [] f = refl
  length-map (x ∷ xs) f = ap suc (length-map xs f)
