-- ===== src/Engine/Refines.antt =====
-- examples/sample-engine-go/main.go: with the policy "none", `match` is the abstract sweep over
-- the orders of the levels, best level first and oldest order first.
use quantime.Prelude.{
  ◌≡◌, ◌≢◌, refl, true, false, ◌||◌, inl, inr, List, [], ◌∷◌, arith, All, Bool-cases,
}
use quantime.Market.Sweep.{sweep, sweep_zero, sweep-nil, sweep-append, sweep_exhausted}
use quantime.Engine.Types.{RestingOrder, PriceLevel, no_stp}
use quantime.Engine.Match.{
  Taker, Progress, match_orders, match_levels, breaks_at, is_done, after_level,
}
use quantime.Engine.Takes.{
  entry_lot, tagged, entries, Advanced, Matched, match_orders-sweep, tagged-pass, tagged_stop,
}

-- No level is empty.
abbrev pub NonEmpty : List PriceLevel → Type 0
NonEmpty ls = All (λ l. l.orders ≢ []) ls

-- The levels and the progress after the outer loop.
pub record LevelsMatched (t : Taker) (a : Progress) (ls : List PriceLevel)
    (r : List PriceLevel × Progress) : Type 0 where
  pub levels_left : entries r.0 ≡ (sweep entry_lot (breaks_at t) a.remaining (entries ls)).1
  pub advanced : Advanced a r.1 (sweep entry_lot (breaks_at t) a.remaining (entries ls)).0

after_level-LevelsMatched :
    (t : Taker) (l : PriceLevel) (ls : List PriceLevel) (a : Progress)
    (r : List RestingOrder × Progress)
    → breaks_at t l.price_x100 ≡ false
    → Matched t l.price_x100 a l.orders r
    → (r.1.taker_cancelled ≡ false → LevelsMatched t r.1 ls (match_levels t ls r.1))
    → LevelsMatched t a (l ∷ ls) (after_level l ls (match_levels t ls) r)
after_level-LevelsMatched t l ls a ([], b) ok m ih =
    let i = ih m.advanced.not_cancelled in
    let split =
      sweep-append entry_lot (breaks_at t) a.remaining (tagged l.price_x100 l.orders) (entries ls)
        (tagged-pass (breaks_at t) l.price_x100 l.orders ok) in
    ground (arith, split, i)
after_level-LevelsMatched t l ls a (o ∷ os, b) ok m ih =
    let pass = tagged-pass (breaks_at t) l.price_x100 l.orders ok in
    let split =
      sweep-append entry_lot (breaks_at t) a.remaining (tagged l.price_x100 l.orders) (entries ls)
        pass in
    let spent =
      sweep_exhausted entry_lot (breaks_at t) a.remaining (tagged l.price_x100 l.orders) in
    ground (arith, split, spent pass (λ e. cc), sweep_zero entry_lot (breaks_at t) (entries ls))

match_levels_stop :
    (t : Taker) (l : PriceLevel) (ls : List PriceLevel) (a : Progress)
    → (is_done a || breaks_at t l.price_x100) ≡ true
    → match_levels t (l ∷ ls) a ≡ (l ∷ ls, a)
unfolding match_levels
match_levels_stop t l ls a h = rw h

match_levels_go :
    (t : Taker) (l : PriceLevel) (ls : List PriceLevel) (a : Progress)
    → (is_done a || breaks_at t l.price_x100) ≡ false
    → match_levels t (l ∷ ls) a
      ≡ after_level l ls (match_levels t ls) (match_orders t l.price_x100 l.orders a)
unfolding match_levels
match_levels_go t l ls a h = rw h

match_levels_nil : (t : Taker) (a : Progress) → match_levels t [] a ≡ ([], a)
unfolding match_levels
match_levels_nil t a = refl

-- With the policy "none" the two loops take from the orders of non-empty levels as the sweep does:
-- the same orders are left, and what is filled and what remains is what the sweep says.
pub match_levels-sweep :
    (t : Taker) (ls : List PriceLevel) (a : Progress)
    → t.policy ≡ no_stp
    → a.taker_cancelled ≡ false
    → NonEmpty ls
    → LevelsMatched t a ls (match_levels t ls a)
match_levels-sweep t [] a p c n =
    ground (arith, match_levels_nil t a, sweep-nil entry_lot (breaks_at t) a.remaining)
match_levels-sweep t (l ∷ ls) a p c n = elim (Bool-cases (is_done a || breaks_at t l.price_x100)) [
  | inl stop ↦ ground (
    arith,
    match_levels_stop t l ls a stop,
    tagged_stop (breaks_at t) a.remaining l.price_x100 l.orders (entries ls) n.0 (ground arith),
  )
  | inr go ↦ rw (match_levels_go t l ls a go) (
      after_level-LevelsMatched t l ls a (match_orders t l.price_x100 l.orders a) (ground arith)
        (match_orders-sweep t l.price_x100 l.orders a p c (ground arith))
        (λ d. match_levels-sweep t ls _ p d n.1))
]
