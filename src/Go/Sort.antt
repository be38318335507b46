-- ===== src/Go/Sort.antt =====
-- `sort.SliceStable`: the one rearrangement that is sorted and keeps equal elements in order, by
-- insertion from the left.
use quantime.Prelude.{
  ◌≡◌, refl, ◌∙◌, ap, Bool, true, false, inl, inr, Bool-cases, arith, List, [], ◌∷◌, ◌++◌,
  append-nil, append_assoc, map, take, All-take, ℕ, zero, suc, All, All-append, if◌then◌else◌,
}

module _ {ℓ} {A : Type ℓ} (less : A → A → Bool) where
  abbrev pub insert_sorted : A → List A → List A
  insert_sorted x [] = x ∷ []
  insert_sorted x (y ∷ ys) =
      let rest = insert_sorted x ys in if less x y then x ∷ y ∷ ys else y ∷ rest

  abbrev pub sort_into : List A → List A → List A
  sort_into acc [] = acc
  sort_into acc (x ∷ xs) = sort_into (insert_sorted x acc) xs

  unfoldable pub slice_stable : List A → List A
  slice_stable xs = sort_into [] xs

  -- No element is less than one before it.
  abbrev pub IsSorted : List A → Type ℓ
  IsSorted [] = Unit
  IsSorted (x ∷ xs) = All (λ y. less y x ≡ false) xs × IsSorted xs

  insert_sorted_last :
      (x : A) (ys : List A) → All (λ y. less x y ≡ false) ys → insert_sorted x ys ≡ ys ++ x ∷ []
  insert_sorted_last x [] h = refl
  insert_sorted_last x (y ∷ ys) h = rw (h.0, insert_sorted_last x ys h.1)

  -- Each of the elements to come is not less than any that was taken.
  abbrev Follows : List A → List A → Type ℓ
  Follows acc [] = Unit
  Follows acc (x ∷ xs) = All (λ y. less x y ≡ false) acc × Follows acc xs

  Follows-snoc :
      (x : A) (acc xs : List A)
      → All (λ y. less y x ≡ false) xs
      → Follows acc xs
      → Follows (acc ++ x ∷ []) xs
  Follows-snoc x acc [] h f = tt
  Follows-snoc x acc (z ∷ zs) h f =
      (All-append (λ y. less z y ≡ false) acc (x ∷ []) f.0 (h.0, tt), Follows-snoc x acc zs h.1 f.1)

  sort_into-snoc :
      (r : A) (acc xs : List A)
      → Follows acc xs
      → IsSorted xs
      → sort_into acc (xs ++ r ∷ []) ≡ insert_sorted r (acc ++ xs)
  sort_into-snoc r acc [] f s = rw (append-nil acc)
  sort_into-snoc r acc (x ∷ xs) f s =
      rw (insert_sorted_last x acc f.0, sort_into)
        (sort_into-snoc r (acc ++ x ∷ []) xs (Follows-snoc x acc xs s.0 f.1) s.1
          ∙ ap (insert_sorted r) (append_assoc acc (x ∷ []) xs))

  Follows-nil : (xs : List A) → Follows [] xs
  Follows-nil [] = tt
  Follows-nil (x ∷ xs) = (tt, Follows-nil xs)

  -- Sorting a sorted list with one more element inserts that element behind its equals.
  pub slice_stable-snoc :
      (r : A) (xs : List A) → IsSorted xs → slice_stable (xs ++ r ∷ []) ≡ insert_sorted r xs
  unfolding slice_stable
  slice_stable-snoc r xs s = sort_into-snoc r [] xs (Follows-nil xs) s

  All-insert_sorted {κ} :
      (P : A → Type κ) (x : A) (ys : List A) → P x → All P ys → All P (insert_sorted x ys)
  All-insert_sorted P x [] p h = (p, tt)
  All-insert_sorted P x (y ∷ ys) p h = ground (arith, All-insert_sorted P x ys p h.1)

  -- `less` is the strict part of a total preorder.
  abbrev pub IsWeak : Type ℓ
  IsWeak = (x y z : A) → less x y ≡ true → less z y ≡ false → less z x ≡ false

  All-before :
      IsWeak
      → (x y : A) (ys : List A) → less x y ≡ true
      → All (λ z. less z y ≡ false) ys
      → All (λ z. less z x ≡ false) ys
  All-before weak x y [] h k = tt
  All-before weak x y (z ∷ zs) h k = (weak x y z h k.0, All-before weak x y zs h k.1)

  pub insert_sorted-IsSorted :
      IsWeak
      → ((x y : A) → less x y ≡ true → less y x ≡ false)
      → (x : A) (ys : List A) → IsSorted ys
      → IsSorted (insert_sorted x ys)
  insert_sorted-IsSorted weak asym x [] h = (tt, tt)
  insert_sorted-IsSorted weak asym x (y ∷ ys) h = elim (Bool-cases (less x y)) [
    | inl e ↦ rw e ((asym x y e, All-before weak x y ys e h.0), h)
    | inr e ↦ rw e (
      All-insert_sorted (λ z. less z y ≡ false) x ys e h.0,
      insert_sorted-IsSorted weak asym x ys h.1,
    )
  ]

  All-sort_into {κ} :
      (P : A → Type κ) (acc xs : List A) → All P acc → All P xs → All P (sort_into acc xs)
  All-sort_into P acc [] h k = h
  All-sort_into P acc (x ∷ xs) h k =
      All-sort_into P (insert_sorted x acc) xs (All-insert_sorted P x acc k.0 h) k.1

  pub slice_stable-All {κ} : (P : A → Type κ) (xs : List A) → All P xs → All P (slice_stable xs)
  unfolding slice_stable
  slice_stable-All P xs h = All-sort_into P [] xs tt h

  sort_into-IsSorted :
      IsWeak
      → ((x y : A) → less x y ≡ true → less y x ≡ false)
      → (acc xs : List A) → IsSorted acc
      → IsSorted (sort_into acc xs)
  sort_into-IsSorted weak asym acc [] h = h
  sort_into-IsSorted weak asym acc (x ∷ xs) h =
      sort_into-IsSorted weak asym (insert_sorted x acc) xs
        (insert_sorted-IsSorted weak asym x acc h)

  pub slice_stable_sorts :
      IsWeak
      → ((x y : A) → less x y ≡ true → less y x ≡ false)
      → (xs : List A) → IsSorted (slice_stable xs)
  unfolding slice_stable
  slice_stable_sorts weak asym xs = sort_into-IsSorted weak asym [] xs tt

  pub IsSorted-take : (xs : List A) (n : ℕ) → IsSorted xs → IsSorted (take xs n)
  IsSorted-take [] n h = tt
  IsSorted-take (x ∷ xs) zero h = tt
  IsSorted-take (x ∷ xs) (suc n) h =
      (All-take (λ y. less y x ≡ false) xs n h.0, IsSorted-take xs n h.1)

  pub slice_stable-IsSorted :
      IsWeak
      → ((x y : A) → less x y ≡ true → less y x ≡ false)
      → (x : A) (ys : List A) → IsSorted ys
      → IsSorted (slice_stable (ys ++ x ∷ []))
  slice_stable-IsSorted weak asym x ys h =
      rw (slice_stable-snoc x ys h) (insert_sorted-IsSorted weak asym x ys h)

  pub All-slice_stable {κ} :
      (P : A → Type κ) (x : A) (ys : List A)
      → IsSorted ys
      → P x
      → All P ys
      → All P (slice_stable (ys ++ x ∷ []))
  All-slice_stable P x ys s p h = rw (slice_stable-snoc x ys s) (All-insert_sorted P x ys p h)

-- Sorting by what a function makes of the elements, and that function on all of them, may be swapped.
module _ {ℓ κ} {A : Type ℓ} {B : Type κ} (f : A → B) (less : B → B → Bool) where
  insert_sorted-map :
      (x : A) (ys : List A)
      → map f (insert_sorted (λ a b. less (f a) (f b)) x ys) ≡ insert_sorted less (f x) (map f ys)
  insert_sorted-map x [] = refl
  insert_sorted-map x (y ∷ ys) = elim (Bool-cases (less (f x) (f y))) [
    | inl e ↦ rw e refl
    | inr e ↦ rw e (ap (λ l. f y ∷ l) (insert_sorted-map x ys))
  ]

  sort_into-map :
      (acc xs : List A)
      → map f (sort_into (λ a b. less (f a) (f b)) acc xs) ≡ sort_into less (map f acc) (map f xs)
  sort_into-map acc [] = refl
  sort_into-map acc (x ∷ xs) =
      sort_into-map (insert_sorted (λ a b. less (f a) (f b)) x acc) xs
      ∙ ap (λ l. sort_into less l (map f xs)) (insert_sorted-map x acc)

  pub slice_stable-map :
      (xs : List A)
      → map f (slice_stable (λ a b. less (f a) (f b)) xs) ≡ slice_stable less (map f xs)
  unfolding slice_stable
  slice_stable-map xs = sort_into-map [] xs
