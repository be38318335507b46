-- ===== src/Prelude/Lists.antt =====
-- Lists measured by native numbers, under the library's names, and predicates on all elements.
use Prim.Native.Nat.{ℕ, zero, suc, ◌+◌, ◌≤◌}
use mathlib.Core.Option.{Option, none, some}
use mathlib.Core.Path.{◌≡◌, refl, ap}
use mathlib.Core.List.{List, [], ◌∷◌, ◌++◌, map}
use native.Mathlib.Omega.{arith}

module _ {ℓ} {A : Type ℓ} where
  abbrev pub length : List A → ℕ
  length [] = 0
  length (x ∷ xs) = suc (length xs)

  abbrev pub All {κ} : (A → Type κ) → List A → Type κ
  All P [] = Unit
  All P (x ∷ xs) = P x × All P xs

  abbrev pub get_elem? : List A → ℕ → Option A
  get_elem? [] i = none
  get_elem? (x ∷ xs) zero = some x
  get_elem? (x ∷ xs) (suc i) = get_elem? xs i

  -- A write out of bounds changes nothing.
  abbrev pub set : List A → ℕ → A → List A
  set [] i v = []
  set (x ∷ xs) zero v = v ∷ xs
  set (x ∷ xs) (suc i) v = x ∷ set xs i v

  -- `append(xs, nil); copy(xs[i+1:], xs[i:]); xs[i] = v`
  abbrev pub insert_at : List A → ℕ → A → List A
  insert_at [] i v = v ∷ []
  insert_at (x ∷ xs) zero v = v ∷ x ∷ xs
  insert_at (x ∷ xs) (suc i) v = x ∷ insert_at xs i v

  pub length-append : (xs ys : List A) → length (xs ++ ys) ≡ length xs + length ys
  length-append [] ys = omega arith
  length-append (x ∷ xs) ys = omega (arith, length-append xs ys)

  pub All-append {κ} : (P : A → Type κ) (xs ys : List A) → All P xs → All P ys → All P (xs ++ ys)
  All-append P [] ys p q = q
  All-append P (x ∷ xs) ys p q = (p.0, All-append P xs ys p.1 q)

  pub All-map {κ μ} :
      (P : A → Type κ) (Q : A → Type μ) (f : (a : A) → P a → Q a) (xs : List A)
      → All P xs
      → All Q xs
  All-map P Q f [] p = tt
  All-map P Q f (x ∷ xs) p = (f x p.0, All-map P Q f xs p.1)

  abbrev pub take : List A → ℕ → List A
  take [] n = []
  take (x ∷ xs) zero = []
  take (x ∷ xs) (suc n) = x ∷ take xs n

  pub length-take_le : (xs : List A) (n : ℕ) → length (take xs n) ≤ n
  length-take_le [] n = omega arith
  length-take_le (x ∷ xs) zero = omega arith
  length-take_le (x ∷ xs) (suc n) = omega (arith, length-take_le xs n)

  pub All-take {κ} : (P : A → Type κ) (xs : List A) (n : ℕ) → All P xs → All P (take xs n)
  All-take P [] n h = tt
  All-take P (x ∷ xs) zero h = tt
  All-take P (x ∷ xs) (suc n) h = (h.0, All-take P xs n h.1)

pub map-take {ℓ κ} :
    {A : Type ℓ} {B : Type κ} (f : A → B) (xs : List A) (n : ℕ)
    → map f (take xs n) ≡ take (map f xs) n
map-take f [] n = refl
map-take f (x ∷ xs) zero = refl
map-take f (x ∷ xs) (suc n) = ap (λ l. f x ∷ l) (map-take f xs n)
