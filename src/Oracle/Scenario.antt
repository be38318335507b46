-- ===== src/Oracle/Scenario.antt =====
-- services/gateway/internal/validator/validator.go, `scenario`.
use quantime.Prelude.{ℕ, List, [], ◌∷◌}
use quantime.Oracle.Types.{VOrder, Side, buy, sell, no_side, OrderType, limit, market, cancel}

abbrev step : ℕ → ℕ → Side → OrderType → ℕ → ℕ → ℕ → VOrder
step id client side type px qty target = record {
  id = id;
  client_id = client;
  side = side;
  type = type;
  px = px;
  qty = qty;
  target_id = target;
}

unfoldable pub scenario : List VOrder
scenario =
    step 1 1 sell limit 10000 10 0
    ∷ step 2 1 sell limit 10010 5 0
    ∷ step 3 2 buy limit 9990 4 0
    ∷ step 4 2 buy limit 10000 6 0
    ∷ step 5 3 buy limit 10005 8 0
    ∷ step 6 3 buy market 0 3 0
    ∷ step 7 1 no_side cancel 0 0 2
    ∷ step 8 4 buy limit 10010 5 0
    ∷ step 9 4 sell limit 10005 2 0
    ∷ step 10 5 sell market 0 100 0
    ∷ []
