-- ===== src/Engine/Rests.antt =====
-- examples/sample-engine-go/main.go: `insertResting` rests the order behind every order at a price
-- that is as good, and before every order at a worse one.
use quantime.Prelude.{
  ℕ, ◌≡◌, sym, ◌∙◌, ap, Bool, true, false, inl, inr, List, [], ◌∷◌, ◌++◌, arith, All, All-append,
  append_assoc, Bool-cases, ◌==◌,
}
use mathlib.Core.Path.{subst}
use mathlib.Core.List.{map-append}
use quantime.Market.Place.{place, place-behind, place-first}
use quantime.Engine.Types.{RestingOrder, PriceLevel}
use quantime.Engine.Book.{insert_level}
use quantime.Engine.Levels.{place_level}
use quantime.Engine.Takes.{entry, entry_lot, tagged, entries}
use quantime.Engine.Order.{
  Worse, AllWorse, Ordered, Fits, AllWorse-before, insert_level-place_level,
}

tagged-All :
    (P : ℕ → Type 0) (px : ℕ) (rs : List RestingOrder) → P px → All (λ e. P e.px) (tagged px rs)
tagged-All P px [] h = tt
tagged-All P px (r ∷ rs) h = (h, tagged-All P px rs h)

entries-worse :
    (worse : Worse) (p : ℕ) (ls : List PriceLevel)
    → AllWorse worse p ls
    → All (λ e. worse p e.px ≡ true) (entries ls)
entries-worse worse p [] h = tt
entries-worse worse p (l ∷ ls) h =
    All-append (λ e. worse p e.px ≡ true) (tagged l.price_x100 l.orders) (entries ls)
      (tagged-All (λ q. worse p q ≡ true) l.price_x100 l.orders h.0) (entries-worse worse p ls h.1)

module _ (worse : Worse) (px : ℕ) (reached : ℕ → Bool) (fits : Fits worse px reached) where
  join-entries :
      (ord : RestingOrder) (os : List RestingOrder) (ls : List PriceLevel)
      → AllWorse worse px ls
      → tagged px (os ++ ord ∷ []) ++ entries ls
        ≡ place entry_lot (worse px) (entry px ord) (tagged px os ++ entries ls)
  join-entries ord os ls w =
      rw
        (
          place-behind entry_lot (worse px) (entry px ord) (tagged px os) (entries ls)
              (tagged-All (λ q. worse px q ≡ false) px os (fits.irrefl px)),
          place-first entry_lot (worse px) (entry px ord) (entries ls)
              (entries-worse worse px ls w),
        )
        (ap (λ es. es ++ entries ls) (map-append (entry px) os (ord ∷ []))
          ∙ append_assoc (tagged px os) (entry px ord ∷ []) (entries ls))

  entries-place_level :
      (ord : RestingOrder) (ls : List PriceLevel)
      → Ordered worse ls
      → entries (place_level reached px ord ls)
        ≡ place entry_lot (worse px) (entry px ord) (entries ls)
  unfolding place_level
  entries-place_level ord [] o = sym (place-first entry_lot (worse px) (entry px ord) [] tt)
  entries-place_level ord (l ∷ ls) o = elim (Bool-cases (reached l.price_x100)) [
    | inl e ↦ elim (Bool-cases (l.price_x100 == px)) [
      | inl same ↦
          let p : px ≡ l.price_x100 = ground arith in
          rw (e, same)
            (subst
              (λ q.
                tagged q (l.orders ++ ord ∷ []) ++ entries ls
                ≡ place entry_lot (worse px) (entry px ord) (tagged q l.orders ++ entries ls))
              p (join-entries ord l.orders ls (rw p o.1)))
      | inr other ↦
          let w = fits.passed l.price_x100 e (ground arith) in
          rw (e, other)
            (sym (
              place-first entry_lot (worse px) (entry px ord) (entries (l ∷ ls)) (
                entries-worse worse px (l ∷ ls)
                  (w, AllWorse-before worse px reached fits l.price_x100 ls w o.1))))
    ]
    | inr e ↦ rw e (
        rw
          (place-behind entry_lot (worse px) (entry px ord) (tagged l.price_x100 l.orders)
            (entries ls)
            (tagged-All (λ q. worse px q ≡ false) l.price_x100 l.orders
              (fits.asym l.price_x100 px (fits.missed l.price_x100 e))))
          (ap (λ es. tagged l.price_x100 l.orders ++ es) (entries-place_level ord ls o.2)))
  ]

  -- On an ordered side, with a search test that fits the order of prices, the new order stands
  -- behind all orders at its price or a better one, and before all at a worse price.
  pub entries-insert_level :
      (ord : RestingOrder) (ls : List PriceLevel)
      → Ordered worse ls
      → entries (insert_level reached px ord ls)
        ≡ place entry_lot (worse px) (entry px ord) (entries ls)
  entries-insert_level ord ls o =
      rw (insert_level-place_level worse px reached fits ord ls o) (entries-place_level ord ls o)
