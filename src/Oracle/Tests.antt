-- ===== src/Oracle/Tests.antt =====
-- services/gateway/internal/validator/validator.go on concrete orders.
use quantime.Prelude.{lookup, insert, erase, ℕ, ◌≡◌, ◌↔◌, refl, min, Option, some, List, [], ◌∷◌}
use quantime.Market.Sweep.{available, sweep}
use quantime.Oracle.Types.{VOrder, Side, buy, sell, OrderType, limit, Book, new_book}
use quantime.Oracle.Book.{apply, opposite, breaks_at}
use quantime.Oracle.Scenario.{scenario}
use quantime.Oracle.Refines.{resting_lot}
use quantime.Oracle.WellFormed.{WellFormed, new_book-WellFormed}
use quantime.Oracle.Invariant.{apply-WellFormed}
use quantime.Oracle.Fills.{apply_fill, apply_priority}
use quantime.Oracle.Validate.{validate, validate_full, AllAgree}

fills : List VOrder → Book → List ℕ
fills [] b = []
fills (o ∷ os) b = let (b', f) = apply o b in f ∷ fills os b'

-- The fills that the comment on `scenario` lists.
fills-scenario : fills scenario new_book ≡ 0 ∷ 0 ∷ 0 ∷ 6 ∷ 4 ∷ 3 ∷ 0 ∷ 0 ∷ 2 ∷ 11 ∷ []
unfolding fills scenario apply new_book quantime.Oracle.Book.trade quantime.Oracle.Book.take_loop
    quantime.Oracle.Book.rest quantime.Go.Sort.slice_stable quantime.Oracle.Book.take_best
    quantime.Oracle.Book.remove quantime.Oracle.Book.drop quantime.Oracle.Book.cancel_target lookup
    insert erase
fills-scenario = refl

abbrev order : ℕ → Side → OrderType → ℕ → ℕ → VOrder
order id side type px qty = record {
  id = id;
  client_id = 1;
  side = side;
  type = type;
  px = px;
  qty = qty;
  target_id = 0;
}

abbrev offered : Book
offered = (apply (order 1 sell limit 100 4) new_book).0

abbrev two_offers : Book
two_offers = (apply (order 2 sell limit 101 5) offered).0

offered-WellFormed : WellFormed offered
offered-WellFormed = apply-WellFormed (order 1 sell limit 100 4) new_book new_book-WellFormed

two_offers-WellFormed : WellFormed two_offers
two_offers-WellFormed = apply-WellFormed (order 2 sell limit 101 5) offered offered-WellFormed

abbrev taker : VOrder
taker = order 3 buy limit 101 6

apply-WellFormed_example : WellFormed (apply taker two_offers).0
apply-WellFormed_example = apply-WellFormed taker two_offers two_offers-WellFormed

apply_fill_example :
    (apply taker two_offers).1
    ≡ min 6 (available resting_lot (breaks_at taker) (opposite taker two_offers))
apply_fill_example = apply_fill taker two_offers two_offers-WellFormed (λ e. cc)

apply_priority_example :
    opposite taker (apply taker two_offers).0
    ≡ (sweep resting_lot (breaks_at taker) 6 (opposite taker two_offers)).1
apply_priority_example = apply_priority taker two_offers two_offers-WellFormed (λ e. cc)

-- An engine that fills nothing.
abbrev idle : ℕ → VOrder → ℕ × Option ℕ
idle n o = (n, some 0)

validate_full_example :
    ((validate idle 0 7).passed ≡ (validate idle 0 7).total) ↔ AllAgree idle 0 new_book scenario
validate_full_example = validate_full idle 0 7
