-- ===== src/Engine/Levels.antt =====
-- examples/sample-engine-go/main.go: the binary search of `insertResting` finds the place that a
-- scan of the sorted levels finds.
use quantime.Prelude.{
  ℕ, zero, suc, ◌≤◌, ◌≡◌, refl, sym, ◌∙◌, ap, Bool, true, false, inl, inr, ◌⊎◌, List, [], ◌∷◌,
  arith, All, length, ◌==◌, if◌then◌else◌,
}
use mathlib.Core.Bool.{false≢true}
use quantime.Go.Search.{IsFirst, search-IsFirst}
use quantime.Engine.Types.{RestingOrder, PriceLevel}
use quantime.Engine.Book.{price_at, new_level, join_level, insert_at_index, insert_level}

-- A scan from the best level.
unfoldable pub place_level : (ℕ → Bool) → ℕ → RestingOrder → List PriceLevel → List PriceLevel
place_level reached px ord [] = new_level px ord ∷ []
place_level reached px ord (l ∷ ls) =
    let later = l ∷ place_level reached px ord ls in
    if reached l.price_x100
    then if l.price_x100 == px then join_level l ord ∷ ls else new_level px ord ∷ l ∷ ls
    else later

insert_at_index-suc :
    (px : ℕ) (ord : RestingOrder) (l : PriceLevel) (ls : List PriceLevel) (i : ℕ)
    → insert_at_index px ord (l ∷ ls) (suc i) ≡ l ∷ insert_at_index px ord ls i
unfolding insert_at_index
insert_at_index-suc px ord l ls i = ground arith

IsFirst-tail :
    (reached : ℕ → Bool) (l : PriceLevel) (ls : List PriceLevel) (i : ℕ)
    → IsFirst (length (l ∷ ls)) (price_at reached (l ∷ ls)) (suc i)
    → IsFirst (length ls) (price_at reached ls) i
IsFirst-tail reached l ls i f = record {
  within = omega (arith, f.within);
  before = λ k h. f.before (suc k) (omega arith);
  at = λ h. f.at (omega arith);
}

insert_at_index-place :
    (reached : ℕ → Bool) (px : ℕ) (ord : RestingOrder) (levels : List PriceLevel) (i : ℕ)
    → IsFirst (length levels) (price_at reached levels) i
    → insert_at_index px ord levels i ≡ place_level reached px ord levels
unfolding insert_at_index place_level
insert_at_index-place reached px ord [] i f = ground arith
insert_at_index-place reached px ord (l ∷ ls) zero f = rw (f.at (omega arith)) (ground arith)
insert_at_index-place reached px ord (l ∷ ls) (suc i) f = rw (f.before 0 (omega arith)) (
    insert_at_index-suc px ord l ls i
    ∙ ap (◌∷◌ l) (insert_at_index-place reached px ord ls i (IsFirst-tail reached l ls i f)))

-- Once reached, every later level's price is reached.
abbrev pub IsScannable : (ℕ → Bool) → List PriceLevel → Type 0
IsScannable reached [] = Unit
IsScannable reached (l ∷ ls) =
    ((reached l.price_x100 ≡ false) ⊎ All (λ m. reached m.price_x100 ≡ true) ls)
    × IsScannable reached ls

price_at-All :
    (reached : ℕ → Bool) (ls : List PriceLevel) (b : ℕ)
    → All (λ m. reached m.price_x100 ≡ true) ls
    → price_at reached ls b ≡ true
price_at-All reached [] b h = refl
price_at-All reached (l ∷ ls) zero h = h.0
price_at-All reached (l ∷ ls) (suc b) h = price_at-All reached ls b h.1

price_at-IsMonotone :
    (reached : ℕ → Bool) (ls : List PriceLevel)
    → IsScannable reached ls
    → (a b : ℕ) → a ≤ b
    → price_at reached ls a ≡ true
    → price_at reached ls b ≡ true
price_at-IsMonotone reached [] s a b ab h = refl
price_at-IsMonotone reached (l ∷ ls) s zero zero ab h = h
price_at-IsMonotone reached (l ∷ ls) s zero (suc b) ab h = elim s.0 [
  | inl miss ↦ absurd (false≢true (sym miss ∙ h))
  | inr all ↦ price_at-All reached ls b all
]
price_at-IsMonotone reached (l ∷ ls) s (suc a) zero ab h = absurd (omega arith)
price_at-IsMonotone reached (l ∷ ls) s (suc a) (suc b) ab h =
    price_at-IsMonotone reached ls s.1 a b (omega arith) h

-- On levels whose prices, once they reach the order's price, stay there, `insertResting` does
-- what a scan from the best level does: it joins the level at the price, or opens one in its place.
pub insert_level-place :
    (reached : ℕ → Bool) (px : ℕ) (ord : RestingOrder) (levels : List PriceLevel)
    → IsScannable reached levels
    → insert_level reached px ord levels ≡ place_level reached px ord levels
unfolding insert_level
insert_level-place reached px ord levels s = insert_at_index-place reached px ord levels _ (
    search-IsFirst (length levels) (price_at reached levels)
      (λ a b ab bn. price_at-IsMonotone reached levels s a b ab))
