-- ===== src/Engine/Order.antt =====
-- examples/sample-engine-go/main.go: each side of the book is a list of non-empty levels with
-- strictly worse and worse prices, whatever the engine's self-trade policy is.
use quantime.Prelude.{
  ℕ, ◌≡◌, ◌≢◌, Bool, true, false, ◌||◌, inl, inr, List, [], ◌∷◌, ◌++◌, arith, All, All-map,
  Bool-cases, ltb, ◌==◌,
}
use quantime.Engine.Types.{RestingOrder, PriceLevel}
use quantime.Engine.Book.{bid_reached, ask_reached, insert_level}
use quantime.Engine.Match.{
  Taker, Progress, match_orders, match_levels, after_level, is_done, breaks_at,
}
use quantime.Engine.Levels.{place_level, IsScannable, insert_level-place}

abbrev pub Worse : Type 0
Worse = ℕ → ℕ → Bool

abbrev pub bid_worse : Worse
bid_worse p q = ltb q p

abbrev pub ask_worse : Worse
ask_worse p q = ltb p q

abbrev pub AllWorse : Worse → ℕ → List PriceLevel → Type 0
AllWorse worse p ls = All (λ m. worse p m.price_x100 ≡ true) ls

abbrev pub Ordered : Worse → List PriceLevel → Type 0
Ordered worse [] = Unit
Ordered worse (l ∷ ls) = (l.orders ≢ []) × AllWorse worse l.price_x100 ls × Ordered worse ls

pub Ordered-NonEmpty :
    (worse : Worse) (ls : List PriceLevel) → Ordered worse ls → All (λ l. l.orders ≢ []) ls
Ordered-NonEmpty worse [] h = tt
Ordered-NonEmpty worse (l ∷ ls) h = (h.0, Ordered-NonEmpty worse ls h.2)

-- What matching leaves of a side.
record LevelsKept (worse : Worse) (ls ms : List PriceLevel) : Type 0 where
  ordered : Ordered worse ms
  bounded : (p : ℕ) → AllWorse worse p ls → AllWorse worse p ms

after_level-LevelsKept :
    (worse : Worse) (l : PriceLevel) (ls : List PriceLevel)
    (continue : Progress → List PriceLevel × Progress) (r : List RestingOrder × Progress)
    → Ordered worse (l ∷ ls)
    → ((a : Progress) → LevelsKept worse ls (continue a).0)
    → LevelsKept worse (l ∷ ls) (after_level l ls continue r).0
after_level-LevelsKept worse l ls continue ([], a) o ih =
    let k = ih a in record { ordered = k.ordered; bounded = λ p h. k.bounded p h.1 }
after_level-LevelsKept worse l ls continue (r ∷ rs, a) o ih = record {
  ordered = (λ e. cc, o.1, o.2);
  bounded = λ p h. h;
}

match_levels-LevelsKept :
    (worse : Worse) (t : Taker) (ls : List PriceLevel)
    → Ordered worse ls
    → (a : Progress) → LevelsKept worse ls (match_levels t ls a).0
unfolding match_levels
match_levels-LevelsKept worse t [] o a = record { ordered = tt; bounded = λ p h. h }
match_levels-LevelsKept worse t (l ∷ ls) o a =
    elim (Bool-cases (is_done a || breaks_at t l.price_x100)) [
      | inl stop ↦ rw stop (record { ordered = o; bounded = λ p h. h })
      | inr go ↦ rw go (
          after_level-LevelsKept worse l ls (match_levels t ls)
            (match_orders t l.price_x100 l.orders a) o (match_levels-LevelsKept worse t ls o.2))
    ]

-- Under every self-trade policy, what `match` leaves of an ordered side is ordered, with no empty
-- level.
pub match_levels-Ordered :
    (worse : Worse) (t : Taker) (ls : List PriceLevel) (a : Progress)
    → Ordered worse ls
    → Ordered worse (match_levels t ls a).0
match_levels-Ordered worse t ls a o = (match_levels-LevelsKept worse t ls o a).ordered

-- How the search's test and the order of prices go together.
pub record Fits (worse : Worse) (px : ℕ) (reached : ℕ → Bool) : Type 0 where
  pub asym : (p q : ℕ) → worse p q ≡ true → worse q p ≡ false
  pub irrefl : (p : ℕ) → worse p p ≡ false
  pub trans : (p q r : ℕ) → worse p q ≡ true → worse q r ≡ true → worse p r ≡ true
  pub missed : (p : ℕ) → reached p ≡ false → worse p px ≡ true
  pub passed : (p : ℕ) → reached p ≡ true → p ≢ px → worse px p ≡ true
  pub stays : (p q : ℕ) → reached p ≡ true → worse p q ≡ true → reached q ≡ true

pub bid-Fits : (px : ℕ) → Fits bid_worse px (bid_reached px)
bid-Fits px = record {
  asym = λ p q h. ground arith;
  irrefl = λ p. ground arith;
  trans = λ p q r h k. ground arith;
  missed = λ p h. ground arith;
  passed = λ p h n. ground arith;
  stays = λ p q h k. ground arith;
}

pub ask-Fits : (px : ℕ) → Fits ask_worse px (ask_reached px)
ask-Fits px = record {
  asym = λ p q h. ground arith;
  irrefl = λ p. ground arith;
  trans = λ p q r h k. ground arith;
  missed = λ p h. ground arith;
  passed = λ p h n. ground arith;
  stays = λ p q h k. ground arith;
}

append-ne-nil : (os : List RestingOrder) (o : RestingOrder) → os ++ o ∷ [] ≢ []
append-ne-nil [] o e = cc
append-ne-nil (x ∷ os) o e = cc

module _ (worse : Worse) (px : ℕ) (reached : ℕ → Bool) (fits : Fits worse px reached) where
  Ordered-IsScannable : (ls : List PriceLevel) → Ordered worse ls → IsScannable reached ls
  Ordered-IsScannable [] o = tt
  Ordered-IsScannable (l ∷ ls) o = (
    elim (Bool-cases (reached l.price_x100)) [
      | inl e ↦ inr (
          All-map (λ m. worse l.price_x100 m.price_x100 ≡ true) (λ m. reached m.price_x100 ≡ true)
            (λ m h. fits.stays l.price_x100 m.price_x100 e h) ls o.1)
      | inr e ↦ inl e
    ],
    Ordered-IsScannable ls o.2,
  )

  pub insert_level-place_level :
      (ord : RestingOrder) (ls : List PriceLevel)
      → Ordered worse ls
      → insert_level reached px ord ls ≡ place_level reached px ord ls
  insert_level-place_level ord ls o =
      insert_level-place reached px ord ls (Ordered-IsScannable ls o)

  place_level-AllWorse :
      (p : ℕ) (ord : RestingOrder) (ls : List PriceLevel)
      → worse p px ≡ true
      → AllWorse worse p ls
      → AllWorse worse p (place_level reached px ord ls)
  unfolding place_level
  place_level-AllWorse p ord [] h k = (h, tt)
  place_level-AllWorse p ord (l ∷ ls) h k = ground (arith, place_level-AllWorse p ord ls h k.1)

  pub AllWorse-before :
      (p : ℕ) (ls : List PriceLevel)
      → worse px p ≡ true
      → AllWorse worse p ls
      → AllWorse worse px ls
  AllWorse-before p ls h =
      All-map (λ m. worse p m.price_x100 ≡ true) (λ m. worse px m.price_x100 ≡ true)
        (λ m k. fits.trans px p m.price_x100 h k) ls

  place_level-Ordered :
      (ord : RestingOrder) (ls : List PriceLevel)
      → Ordered worse ls
      → Ordered worse (place_level reached px ord ls)
  unfolding place_level
  place_level-Ordered ord [] o = (λ e. cc, tt, tt)
  place_level-Ordered ord (l ∷ ls) o = elim (Bool-cases (reached l.price_x100)) [
    | inl e ↦ elim (Bool-cases (l.price_x100 == px)) [
      | inl same ↦ rw (e, same) (append-ne-nil l.orders ord, o.1, o.2)
      | inr other ↦
          let w = fits.passed l.price_x100 e (ground arith) in
          rw (e, other) ((λ n. cc), (w, AllWorse-before l.price_x100 ls w o.1), o)
    ]
    | inr e ↦ rw e (
      o.0,
      place_level-AllWorse l.price_x100 ord ls (fits.missed l.price_x100 e) o.1,
      place_level-Ordered ord ls o.2,
    )
  ]

  pub insert_level-Ordered :
      (ord : RestingOrder) (ls : List PriceLevel)
      → Ordered worse ls
      → Ordered worse (insert_level reached px ord ls)
  insert_level-Ordered ord ls o =
      rw (insert_level-place_level ord ls o) (place_level-Ordered ord ls o)
