-- ===== src/Oracle/Fills.antt =====
-- services/gateway/internal/validator/validator.go: what an order is filled, and by whom.
use quantime.Prelude.{ℕ, min, ◌≡◌, ◌≢◌, refl, ◌∙◌, inl, inr, arith, Bool-cases}
use quantime.Market.Sweep.{sweep, available, IsOrdered, sweep_filled}
use quantime.Oracle.Types.{VOrder, Book, OrderType, limit, market, cancel}
use quantime.Oracle.Book.{
  is_buy, opposite, breaks_at, take_loop, enough_fuel, rest, trade, apply_as, apply,
}
use quantime.Oracle.Refines.{resting_lot}
use quantime.Oracle.Order.{asks-IsOrdered, bids-IsOrdered}
use quantime.Oracle.WellFormed.{WellFormed, trade-Swept, start}

opposite-IsOrdered :
    (o : VOrder) (b : Book) → WellFormed b → IsOrdered resting_lot (breaks_at o) (opposite o b)
opposite-IsOrdered o b w = elim (Bool-cases (is_buy o.side)) [
  | inl e ↦ rw e (asks-IsOrdered o b.asks e w.asks_sorted)
  | inr e ↦ rw e (bids-IsOrdered o b.bids e w.bids_sorted)
]

trade-fill :
    (o : VOrder) (b : Book)
    → WellFormed b
    → (trade o b).1 ≡ (sweep resting_lot (breaks_at o) o.qty (opposite o b)).0
unfolding trade
trade-fill o b w = ground (arith, trade-Swept o b w)

pub apply_as-trade :
    (type : OrderType) (o : VOrder) (b : Book) → type ≢ cancel → apply_as type o b ≡ trade o b
unfolding apply_as
apply_as-trade limit o b n = refl
apply_as-trade market o b n = refl
apply_as-trade cancel o b n = absurd (n refl)

-- On a well-formed book a limit or market order is filled by the least of its quantity and the
-- total quantity that rests on the other side at a price it accepts.
pub apply_fill :
    (o : VOrder) (b : Book)
    → WellFormed b
    → o.type ≢ cancel
    → (apply o b).1 ≡ min o.qty (available resting_lot (breaks_at o) (opposite o b))
unfolding apply
apply_fill o b w n = rw (apply_as-trade o.type o b n) (
    trade-fill o b w
    ∙ sweep_filled resting_lot (breaks_at o) o.qty (opposite o b) (opposite-IsOrdered o b w))

rest-opposite : (o : VOrder) (rem : ℕ) (b : Book) → opposite o (rest o rem b) ≡ opposite o b
unfolding rest
rest-opposite o rem b = ground arith

trade-opposite :
    (o : VOrder) (b : Book)
    → WellFormed b
    → opposite o (trade o b).0 ≡ (sweep resting_lot (breaks_at o) o.qty (opposite o b)).1
unfolding trade
trade-opposite o b w =
    let s = take_loop (enough_fuel o b) o (start o b) in
    ground (arith, trade-Swept o b w, rest-opposite o s.rem s.book)

-- Price-time priority: a limit or market order on a well-formed book uses up the other side's
-- orders from the best on, each before the next, and leaves the rest of them as they were.
pub apply_priority :
    (o : VOrder) (b : Book)
    → WellFormed b
    → o.type ≢ cancel
    → opposite o (apply o b).0 ≡ (sweep resting_lot (breaks_at o) o.qty (opposite o b)).1
unfolding apply
apply_priority o b w n = rw (apply_as-trade o.type o b n) (trade-opposite o b w)
