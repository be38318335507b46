-- ===== src/Engine/Book.antt =====
-- examples/sample-engine-go/main.go, the methods of `book`, and the tests that read it.
use quantime.Prelude.{
  ℕ, ◌+◌, ◌-◌, Bool, true, false, Option, none, some, List, [], ◌∷◌, ◌++◌, length, get_elem?, set,
  insert_at, ltb, leb, ◌==◌, if◌then◌else◌,
}
use quantime.Go.Search.{search}
use quantime.Engine.Types.{
  RestingOrder, PriceLevel, Book, Side, buy, sell, other_side, StpPolicy, no_stp, cancel_taker,
  cancel_maker, cancel_both, Decision, fill_it, stop_taker, drop_maker, drop_both,
}

abbrev pub is_buy : Side → Bool
is_buy buy = true
is_buy sell = false
is_buy other_side = false

abbrev pub is_sell : Side → Bool
is_sell sell = true
is_sell buy = false
is_sell other_side = false

abbrev pub best : List PriceLevel → Option PriceLevel
best [] = none
best (l ∷ ls) = some l

unfoldable pub best_bid : Book → Option PriceLevel
best_bid b = best b.bids

unfoldable pub best_ask : Book → Option PriceLevel
best_ask b = best b.asks

-- The body of a branch of `insertResting`; `reached` is the predicate that the search is given.
abbrev pub price_at : (ℕ → Bool) → List PriceLevel → ℕ → Bool
price_at reached levels i = elim (get_elem? levels i) [
  | none ↦ true
  | some l ↦ reached l.price_x100
]

abbrev pub new_level : ℕ → RestingOrder → PriceLevel
new_level px ord = record { price_x100 = px; orders = ord ∷ [] }

abbrev pub join_level : PriceLevel → RestingOrder → PriceLevel
join_level l ord = record l { orders = l.orders ++ ord ∷ [] }

unfoldable pub insert_at_index : ℕ → RestingOrder → List PriceLevel → ℕ → List PriceLevel
insert_at_index px ord levels i = elim (get_elem? levels i) [
  | none ↦ insert_at levels i (new_level px ord)
  | some l ↦
      if l.price_x100 == px
      then set levels i (join_level l ord)
      else insert_at levels i (new_level px ord)
]

unfoldable pub insert_level : (ℕ → Bool) → ℕ → RestingOrder → List PriceLevel → List PriceLevel
insert_level reached px ord levels =
    insert_at_index px ord levels (search (length levels) (price_at reached levels))

abbrev pub bid_reached : ℕ → ℕ → Bool
bid_reached px p = leb p px

abbrev pub ask_reached : ℕ → ℕ → Bool
ask_reached px p = leb px p

unfoldable pub insert_resting : Side → ℕ → RestingOrder → Book → Book
insert_resting side px ord b =
    if is_buy side
    then record b { bids = insert_level (bid_reached px) px ord b.bids }
    else record b { asks = insert_level (ask_reached px) px ord b.asks }

-- `none` where the inner loop of `removeOrder` finds no order with the id.
unfoldable pub remove_id : ℕ → List RestingOrder → Option (List RestingOrder)
remove_id id [] = none
remove_id id (o ∷ os) =
    let rest = remove_id id os in
    if o.id == id then some os else elim rest [ none ↦ none | some os' ↦ some (o ∷ os') ]

abbrev pub keep_level : PriceLevel → List RestingOrder → List PriceLevel → List PriceLevel
keep_level l [] ls = ls
keep_level l (o ∷ os) ls = record l { orders = o ∷ os } ∷ ls

abbrev pub consider : PriceLevel → Option (List PriceLevel) → Option (List PriceLevel)
consider l none = none
consider l (some ls) = some (l ∷ ls)

unfoldable pub remove_from : ℕ → ℕ → List PriceLevel → Option (List PriceLevel)
unfolding remove_id
remove_from px id [] = none
remove_from px id (l ∷ ls) =
    let rest = consider l (remove_from px id ls) in
    if l.price_x100 == px
    then elim (remove_id id l.orders) [ none ↦ rest | some os ↦ some (keep_level l os ls) ]
    else rest

-- The book after the call, and the Boolean that it returns.
unfoldable pub remove_order : Side → ℕ → ℕ → Book → Book × Bool
remove_order side px id b =
    if is_sell side
    then elim (remove_from px id b.asks) [
      | none ↦ (b, false)
      | some ls ↦ (record b { asks = ls }, true)
    ]
    else elim (remove_from px id b.bids) [
      | none ↦ (b, false)
      | some ls ↦ (record b { bids = ls }, true)
    ]

unfoldable pub would_cross : Side → ℕ → Book → Bool
unfolding best_ask best_bid
would_cross side px b =
    if is_buy side
    then elim (best_ask b) [ none ↦ false | some a ↦ leb a.price_x100 px ]
    else elim (best_bid b) [ none ↦ false | some l ↦ leb px l.price_x100 ]

-- The price test at a level: whether the loop breaks there.
abbrev pub beyond : Side → ℕ → ℕ → Bool
beyond buy px p = ltb px p
beyond sell px p = ltb p px
beyond other_side px p = false

-- The inner loop of `fokFillable`: `none` when `need` is met, else what is still needed. Here
-- `need - o.Qty <= 0` is `need ≤ o.qty`, and `need` is positive whenever the loop goes on.
unfoldable pub need_after : ℕ → List RestingOrder → Option ℕ
need_after need [] = some need
need_after need (o ∷ os) =
    let rest = need_after (need - o.qty) os in if leb need o.qty then none else rest

unfoldable pub covers : Side → ℕ → ℕ → List PriceLevel → Bool
unfolding need_after
covers side px need [] = false
covers side px need (l ∷ ls) =
    if beyond side px l.price_x100
    then false
    else elim (need_after need l.orders) [ none ↦ true | some left ↦ covers side px left ls ]

unfoldable pub fok_fillable : Side → ℕ → ℕ → Book → Bool
unfolding covers
fok_fillable side px qty b = covers side px qty (if is_sell side then b.bids else b.asks)

abbrev pub decision_of : StpPolicy → Decision
decision_of no_stp = fill_it
decision_of cancel_taker = stop_taker
decision_of cancel_maker = drop_maker
decision_of cancel_both = drop_both

unfoldable pub stp_decision : StpPolicy → ℕ → ℕ → Decision
stp_decision policy taker maker =
    if taker == 0
    then fill_it
    else if maker == 0
    then fill_it
    else if taker == maker
    then decision_of policy
    else fill_it

-- `maybeBest`: the price and the total size of a level.
unfoldable pub total_qty : List RestingOrder → ℕ
total_qty [] = 0
total_qty (o ∷ os) = o.qty + total_qty os

unfoldable pub maybe_best : Option PriceLevel → Option (ℕ × ℕ)
unfolding total_qty
maybe_best none = none
maybe_best (some l) = some (l.price_x100, total_qty l.orders)
