-- ===== src/Conformance/Trades.antt =====
-- examples/sample-engine-go/main.go and services/gateway/internal/validator/validator.go: an order
-- that `submit` posts, in the engine and in the reference book.
use quantime.Prelude.{
  ◌⊎◌, ℕ, pos, ◌+◌, ◌<◌, ◌≡◌, ◌≢◌, refl, true, false, inl, inr, arith, Bool-cases,
}
use quantime.Market.Sweep.{sweep}
use quantime.Engine.Types.{
  Engine, OrderReq, SubmitResp, StpPolicy, no_stp, PriceLevel, RestingOrder,
}
use quantime.Engine.Types
use quantime.Engine.Book.{insert_resting, bid_reached, ask_reached}
use quantime.Engine.Match.{Progress, match_levels, match_taker, start_progress}
use quantime.Engine.Submit.{taker_of}
use quantime.Engine.Match
use quantime.Engine.Order.{
  Ordered, bid_worse, ask_worse, Ordered-NonEmpty, match_levels-Ordered, insert_level-Ordered,
  bid-Fits, ask-Fits,
}
use quantime.Oracle.Types.{
  VOrder, Side, buy, sell, no_side, OrderType, limit, market, cancel, Resting,
}
use quantime.Oracle.Types as Ref
use quantime.Oracle.Book as RefBook
use quantime.Oracle.Refines.{resting_lot}
use quantime.Oracle.WellFormed.{WellFormed, start, trade-Swept, Kept-Swept}
use quantime.Oracle.Invariant.{rest-WellFormed, All-below}
use quantime.Conformance.Views.{Same, match_levels-SameMatch, rest_bids-Same, rest_asks-Same}

abbrev pub side_of : Side → Types.Side
side_of buy = Types.buy
side_of sell = Types.sell
side_of no_side = Types.other_side

abbrev pub type_of : OrderType → Types.OrderType
type_of limit = Types.limit
type_of market = Types.market
type_of cancel = Types.cancel

-- The body that the validator's `submit` posts.
abbrev pub request_of : VOrder → OrderReq
request_of o = record {
  id = o.id;
  client_id = o.client_id;
  side = side_of o.side;
  type = type_of o.type;
  price = pos o.px;
  qty = pos o.qty;
  target_id = o.target_id;
}

-- The two books show the same entries on both sides, and each keeps its invariant.
pub record Agree (bk : Types.Book) (b : Ref.Book) : Type 0 where
  pub bids_same : Same bk.bids b.bids
  pub asks_same : Same bk.asks b.asks
  pub bids_ordered : Ordered bid_worse bk.bids
  pub asks_ordered : Ordered ask_worse bk.asks
  pub kept : WellFormed b

-- An order that matches and may rest, from a buyer or a seller.
pub record IsTrade (o : VOrder) : Type 0 where
  pub not_cancel : o.type ≢ cancel
  pub has_side : o.side ≢ no_side
  pub has_qty : 0 < o.qty
  pub has_price : (o.type ≡ market) ⊎ (0 < o.px)

module _ (now : ℕ) (o : VOrder) (bk : Types.Book) (b : Ref.Book) (rem : ℕ) (a : Agree bk b) where
  abbrev pub ord : RestingOrder
  ord = record { id = o.id; client_id = o.client_id; qty = rem; ts = now }

  abbrev pub resting : Resting
  resting = record { id = o.id; px = o.px; qty = rem; seq = b.seq + 1 }

  pub rest-Agree_buy :
      RefBook.is_buy o.side ≡ true
      → Agree (insert_resting Types.buy o.px ord bk) (RefBook.rest o rem b)
  unfolding insert_resting RefBook.rest
  rest-Agree_buy e =
      let w : WellFormed (RefBook.rest o rem b) = rest-WellFormed o rem b a.kept in
      rw e (record {
        bids_same =
            rest_bids-Same ord resting bk.bids b.bids refl a.bids_ordered a.kept.bids_sorted
              (All-below b.seq b.bids a.kept.bids_below) a.bids_same;
        asks_same = a.asks_same;
        bids_ordered =
            insert_level-Ordered bid_worse o.px (bid_reached o.px) (bid-Fits o.px) ord bk.bids
              a.bids_ordered;
        asks_ordered = a.asks_ordered;
        kept = rw e at w;
      })

  pub rest-Agree_sell :
      RefBook.is_buy o.side ≡ false
      → Agree (insert_resting Types.sell o.px ord bk) (RefBook.rest o rem b)
  unfolding insert_resting RefBook.rest
  rest-Agree_sell e =
      let w : WellFormed (RefBook.rest o rem b) = rest-WellFormed o rem b a.kept in
      rw e (record {
        bids_same = a.bids_same;
        asks_same =
            rest_asks-Same ord resting bk.asks b.asks refl a.asks_ordered a.kept.asks_sorted
              (All-below b.seq b.asks a.kept.asks_below) a.asks_same;
        bids_ordered = a.bids_ordered;
        asks_ordered =
            insert_level-Ordered ask_worse o.px (ask_reached o.px) (ask-Fits o.px) ord bk.asks
              a.asks_ordered;
        kept = rw e at w;
      })

-- The reference book after its loop.
abbrev pub taken : VOrder → Ref.Book → RefBook.Taking
taken o b = RefBook.take_loop (RefBook.enough_fuel o b) o (start o b)

breaks_same :
    (clock : ℕ → ℕ) (e : Engine) (o : VOrder) (p : ℕ)
    → IsTrade o
    → Match.breaks_at (taker_of clock e (request_of o)) p ≡ RefBook.breaks_at o p
breaks_same clock e o p h = ground arith

-- Both loops, from books that agree.
pub record Traded (bk : Types.Book) (a : Progress) (s : RefBook.Taking) : Type 0 where
  pub agree : Agree bk s.book
  pub filled_same : a.filled ≡ s.filled
  pub remaining_same : a.remaining ≡ s.rem
  pub not_cancelled : a.taker_cancelled ≡ false

pub match-Traded :
    (clock : ℕ → ℕ) (e : Engine) (o : VOrder) (b : Ref.Book)
    → e.stp_policy ≡ no_stp
    → IsTrade o
    → Agree e.bk b
    → let (e', a) = match_taker (taker_of clock e (request_of o)) o.qty e in
      Traded e'.bk a (taken o b)
unfolding match_taker
match-Traded clock e o b p h a =
    let t = taker_of clock e (request_of o) in
    let s = trade-Swept o b a.kept in
    let k =
      Kept-Swept o b (taken o b)
        (sweep resting_lot (RefBook.breaks_at o) o.qty (RefBook.opposite o b)).0 a.kept s in
    elim (Bool-cases (RefBook.is_buy o.side)) [
      | inl buys ↦
          let m =
            match_levels-SameMatch t (start_progress e o.qty) e.bk.asks b.asks (RefBook.breaks_at o)
              p refl (Ordered-NonEmpty ask_worse e.bk.asks a.asks_ordered) a.asks_same
              (λ q. breaks_same clock e o q h) in
          let d =
            match_levels-Ordered ask_worse t e.bk.asks (start_progress e o.qty) a.asks_ordered in
          ground (arith, m, s, k, d)
      | inr sells ↦
          let m =
            match_levels-SameMatch t (start_progress e o.qty) e.bk.bids b.bids (RefBook.breaks_at o)
              p refl (Ordered-NonEmpty bid_worse e.bk.bids a.bids_ordered) a.bids_same
              (λ q. breaks_same clock e o q h) in
          let d =
            match_levels-Ordered bid_worse t e.bk.bids (start_progress e o.qty) a.bids_ordered in
          ground (arith, m, s, k, d)
    ]
