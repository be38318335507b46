-- ===== src/Market/Place.antt =====
-- Resting in one side of a book: behind every lot at a price that is as good.
use quantime.Prelude.{ℕ, ◌≡◌, refl, ap, Bool, true, false, List, [], ◌∷◌, ◌++◌, All, if◌then◌else◌}
use quantime.Market.Sweep.{Lot}

module _ {ℓ} {A : Type ℓ} (L : Lot A) (worse : ℕ → Bool) where
  -- Before the first lot at a worse price.
  unfoldable pub place : A → List A → List A
  place x [] = x ∷ []
  place x (e ∷ es) = let later = e ∷ place x es in if worse (L.px e) then x ∷ e ∷ es else later

  pub place-behind :
      (x : A) (xs ys : List A)
      → All (λ e. worse (L.px e) ≡ false) xs
      → place x (xs ++ ys) ≡ xs ++ place x ys
  unfolding place
  place-behind x [] ys h = refl
  place-behind x (e ∷ xs) ys h = rw h.0 (ap (◌∷◌ e) (place-behind x xs ys h.1))

  pub place-first :
      (x : A) (es : List A) → All (λ e. worse (L.px e) ≡ true) es → place x es ≡ x ∷ es
  unfolding place
  place-first x [] h = refl
  place-first x (e ∷ es) h = rw h.0
