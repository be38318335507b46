-- ===== src/Conformance/Tests.antt =====
-- examples/sample-engine-go/main.go and services/gateway/internal/validator/validator.go on concrete
-- orders.
use quantime.Prelude.{ℕ, ◌≡◌, refl, inl, inr, List, [], ◌∷◌, arith, false}
use quantime.Engine.Types.{new_engine, no_stp}
use quantime.Engine.Submit.{is_seen}
use quantime.Oracle.Types.{VOrder, Side, buy, sell, OrderType, limit, market, new_book}
use quantime.Oracle.WellFormed.{new_book-WellFormed}
use quantime.Conformance.Trades.{Agree, IsTrade}
use quantime.Conformance.Submits.{
  AllFresh, engine_fills, expected_fills, engine_fills-expected_fills,
}

abbrev clock : ℕ → ℕ
clock n = n

abbrev trade : ℕ → Side → OrderType → ℕ → ℕ → VOrder
trade id side type px qty = record {
  id = id;
  client_id = 1;
  side = side;
  type = type;
  px = px;
  qty = qty;
  target_id = 0;
}

abbrev trades : List VOrder
trades = trade 1 sell limit 100 4 ∷ trade 2 buy limit 101 6 ∷ trade 3 sell market 0 9 ∷ []

new_Agree : Agree new_engine.bk new_book
unfolding new_engine new_book
new_Agree = record {
  bids_same = refl;
  asks_same = refl;
  bids_ordered = tt;
  asks_ordered = tt;
  kept = new_book-WellFormed;
}

sell_one-IsTrade : IsTrade (trade 1 sell limit 100 4)
sell_one-IsTrade = record {
  not_cancel = λ e. cc;
  has_side = λ e. cc;
  has_qty = omega arith;
  has_price = inr (omega arith);
}

buy_two-IsTrade : IsTrade (trade 2 buy limit 101 6)
buy_two-IsTrade = record {
  not_cancel = λ e. cc;
  has_side = λ e. cc;
  has_qty = omega arith;
  has_price = inr (omega arith);
}

sell_three-IsTrade : IsTrade (trade 3 sell market 0 9)
sell_three-IsTrade = record {
  not_cancel = λ e. cc;
  has_side = λ e. cc;
  has_qty = omega arith;
  has_price = inl refl;
}

trades-AllFresh : AllFresh new_engine.seen_ids trades
unfolding is_seen new_engine
trades-AllFresh = (
  sell_one-IsTrade,
  refl,
  (λ e. omega (arith, e)),
  (
    buy_two-IsTrade,
    refl,
    (λ e. omega (arith, e)),
    (sell_three-IsTrade, refl, (λ e. omega (arith, e)), tt),
  ),
)

no_policy : new_engine.stp_policy ≡ no_stp
unfolding new_engine
no_policy = refl

unseen : is_seen 1 1 new_engine.seen_ids ≡ false
unfolding is_seen new_engine
unseen = refl

engine_fills-expected_fills_example :
    engine_fills clock clock new_engine trades ≡ expected_fills new_book trades
engine_fills-expected_fills_example =
    engine_fills-expected_fills clock clock trades new_engine new_book no_policy new_Agree
      trades-AllFresh
