-- ===== src/Engine/Uncrossed.antt =====
-- examples/sample-engine-go/main.go, `submit`: an order rests only where it meets no price that it
-- accepts, so that no request crosses the book.
use quantime.Prelude.{
  ℕ, ◌<◌, ◌≡◌, refl, ap, true, false, inl, inr, none, some, List, [], ◌∷◌, arith, All-map,
  Bool-cases, Option-cases, leb, pos_part,
}
use quantime.Engine.Types.{
  Engine, Book, Side, buy, sell, other_side, OrderType, limit, market, ioc, fok, postonly, cancel,
  modify, other_type, OrderReq, PriceLevel,
}
use quantime.Engine.Book.{best, would_cross, is_buy, fok_fillable, best_ask, best_bid}
use quantime.Engine.Match.{
  Taker, Progress, match_levels, match_taker, is_done, start_progress, is_market,
}
use quantime.Engine.Submit.{
  submit, route, refusal, mark_seen, execute, rest, taker_of, can_rest, is_postonly,
}
use quantime.Engine.Order.{Ordered, bid_worse, ask_worse}
use quantime.Engine.Shrinks.{AllPrices, Stops, match_levels-Stops, match_levels-Shrunk}
use quantime.Engine.Invariant.{
  IsSound, Clear, rest-IsSound, match_taker-IsSound, cancel_order-IsSound,
}

asks_above :
    (px : ℕ) (l : PriceLevel) (ls : List PriceLevel)
    → px < l.price_x100
    → Ordered ask_worse (l ∷ ls)
    → AllPrices (λ q. px < q) (l ∷ ls)
asks_above px l ls h o = (
  h,
  All-map (λ m. ask_worse l.price_x100 m.price_x100 ≡ true) (λ m. px < m.price_x100)
      (λ m k. ground (arith, h, k)) ls o.1,
)

bids_below :
    (px : ℕ) (l : PriceLevel) (ls : List PriceLevel)
    → l.price_x100 < px
    → Ordered bid_worse (l ∷ ls)
    → AllPrices (λ q. q < px) (l ∷ ls)
bids_below px l ls h o = (
  h,
  All-map (λ m. bid_worse l.price_x100 m.price_x100 ≡ true) (λ m. m.price_x100 < px)
      (λ m k. ground (arith, h, k)) ls o.1,
)

best_ask-above :
    (px : ℕ) (asks : List PriceLevel)
    → Ordered ask_worse asks
    → (elim (best asks) [ none ↦ false | some a ↦ leb a.price_x100 px ]) ≡ false
    → AllPrices (λ q. px < q) asks
best_ask-above px [] o h = tt
best_ask-above px (l ∷ ls) o h = asks_above px l ls (ground arith) o

best_bid-below :
    (px : ℕ) (bids : List PriceLevel)
    → Ordered bid_worse bids
    → (elim (best bids) [ none ↦ false | some l ↦ leb px l.price_x100 ]) ≡ false
    → AllPrices (λ q. q < px) bids
best_bid-below px [] o h = tt
best_bid-below px (l ∷ ls) o h = bids_below px l ls (ground arith) o

would_cross-Clear :
    (side : Side) (px : ℕ) (bk : Book)
    → IsSound bk
    → would_cross side px bk ≡ false
    → Clear side px bk
unfolding would_cross best_ask best_bid
would_cross-Clear buy px bk i h = best_ask-above px bk.asks i.asks_ordered h
would_cross-Clear sell px bk i h = best_bid-below px bk.bids i.bids_ordered h
would_cross-Clear other_side px bk i h = best_bid-below px bk.bids i.bids_ordered h

stopped_asks :
    (t : Taker) (r : List PriceLevel × Progress)
    → Stops t r
    → t.side ≡ buy
    → is_market t.type ≡ false
    → Ordered ask_worse r.0
    → is_done r.1 ≡ false
    → AllPrices (λ q. t.px < q) r.0
stopped_asks t ([], a) s b m o d = tt
stopped_asks t (l ∷ ls, a) s b m o d = asks_above t.px l ls (ground (arith, s d)) o

stopped_bids :
    (t : Taker) (r : List PriceLevel × Progress)
    → Stops t r
    → is_buy t.side ≡ false
    → is_market t.type ≡ false
    → Ordered bid_worse r.0
    → is_done r.1 ≡ false
    → AllPrices (λ p. p < t.px) r.0
stopped_bids t ([], a) s b m o d = tt
stopped_bids t (l ∷ ls, a) s b m o d = bids_below t.px l ls (ground (arith, s d)) o

-- A taker that is not a market order leaves nothing that it accepts, if it wants more.
match_buyer-Clear :
    (t : Taker) (qty : ℕ) (e : Engine)
    → t.side ≡ buy
    → IsSound e.bk
    → is_market t.type ≡ false
    → is_done (match_taker t qty e).1 ≡ false
    → AllPrices (λ q. t.px < q) (match_taker t qty e).0.bk.asks
unfolding match_taker
match_buyer-Clear t qty e s i m d =
    let b : is_buy t.side ≡ true = ap is_buy s in
    rw b (
      stopped_asks t (match_levels t e.bk.asks (start_progress e qty))
        (match_levels-Stops t e.bk.asks (start_progress e qty)) s m
        (match_levels-Shrunk ask_worse t e.bk.asks (start_progress e qty) i.asks_ordered).ordered
        (rw b at d))

match_seller-Clear :
    (t : Taker) (qty : ℕ) (e : Engine)
    → is_buy t.side ≡ false
    → IsSound e.bk
    → is_market t.type ≡ false
    → is_done (match_taker t qty e).1 ≡ false
    → AllPrices (λ q. q < t.px) (match_taker t qty e).0.bk.bids
unfolding match_taker
match_seller-Clear t qty e b i m d = rw b (
    stopped_bids t (match_levels t e.bk.bids (start_progress e qty))
      (match_levels-Stops t e.bk.bids (start_progress e qty)) b m
      (match_levels-Shrunk bid_worse t e.bk.bids (start_progress e qty) i.bids_ordered).ordered
      (rw b at d))

match_taker-Clear :
    (t : Taker) (qty : ℕ) (e : Engine) (side : Side)
    → t.side ≡ side
    → IsSound e.bk
    → is_market t.type ≡ false
    → is_done (match_taker t qty e).1 ≡ false
    → Clear side t.px (match_taker t qty e).0.bk
match_taker-Clear t qty e buy s i m d = match_buyer-Clear t qty e s i m d
match_taker-Clear t qty e sell s i m d = match_seller-Clear t qty e (ap is_buy s) i m d
match_taker-Clear t qty e other_side s i m d = match_seller-Clear t qty e (ap is_buy s) i m d

can_rest-not_market : (type : OrderType) → can_rest type ≡ true → is_market type ≡ false
can_rest-not_market type h = ground arith

execute_taking-IsSound :
    (clock : ℕ → ℕ) (now : ℕ) (e : Engine) (req : OrderReq)
    → IsSound e.bk
    → is_postonly req.type ≡ false
    → IsSound (execute clock now e req).0.bk
unfolding execute
execute_taking-IsSound clock now e req i p =
    let t = taker_of clock e req in
    let r = match_taker t (pos_part req.qty) e in
    let i' = match_taker-IsSound t (pos_part req.qty) e i in
    elim (Bool-cases (can_rest req.type)) [
      | inl can ↦
          rw (p, can)
            (rest-IsSound now req r.1 r.0 i' (λ d.
              match_taker-Clear t (pos_part req.qty) e req.side refl i
                (can_rest-not_market req.type can) d))
      | inr cannot ↦ rw (p, cannot) i'
    ]

execute_posting-IsSound :
    (clock : ℕ → ℕ) (now : ℕ) (e : Engine) (req : OrderReq)
    → IsSound e.bk
    → req.type ≡ postonly
    → Clear req.side (pos_part req.price) e.bk
    → IsSound (execute clock now e req).0.bk
unfolding execute rest
execute_posting-IsSound clock now e req i p c =
    rw p (rest-IsSound now req (start_progress e (pos_part req.qty)) e i (λ d. c))

mark_seen_book : (e : Engine) (req : OrderReq) → (mark_seen e req).bk ≡ e.bk
unfolding mark_seen
mark_seen_book e req = ground arith

route-IsSound :
    (clock : ℕ → ℕ) (now : ℕ) (e : Engine) (req : OrderReq) (type : OrderType)
    → req.type ≡ type
    → IsSound e.bk
    → IsSound (route clock now e req type).0.bk
unfolding route
route-IsSound clock now e req cancel p i = cancel_order-IsSound e req i
route-IsSound clock now e req postonly p i =
    elim (Bool-cases (would_cross req.side (pos_part req.price) e.bk)) [
      | inl crosses ↦ rw crosses i
      | inr clear ↦ rw clear (
          execute_posting-IsSound clock now e req i p
            (would_cross-Clear req.side (pos_part req.price) e.bk i clear))
    ]
route-IsSound clock now e req fok p i =
    elim (Bool-cases (fok_fillable req.side (pos_part req.price) (pos_part req.qty) e.bk)) [
      | inl fillable ↦ rw fillable (execute_taking-IsSound clock now e req i (ap is_postonly p))
      | inr unfillable ↦ rw unfillable i
    ]
route-IsSound clock now e req limit p i =
    execute_taking-IsSound clock now e req i (ap is_postonly p)
route-IsSound clock now e req market p i =
    execute_taking-IsSound clock now e req i (ap is_postonly p)
route-IsSound clock now e req ioc p i = execute_taking-IsSound clock now e req i (ap is_postonly p)
route-IsSound clock now e req modify p i =
    execute_taking-IsSound clock now e req i (ap is_postonly p)
route-IsSound clock now e req other_type p i =
    execute_taking-IsSound clock now e req i (ap is_postonly p)

-- Every request, of whatever type, side and self-trade policy, keeps the book sound: the levels of
-- each side are not empty and strictly worse and worse, and every bid is lower than every ask.
pub submit-IsSound :
    (clock : ℕ → ℕ) (now : ℕ) (e : Engine) (req : OrderReq)
    → IsSound e.bk
    → IsSound (submit clock now e req).0.bk
unfolding submit
submit-IsSound clock now e req i = elim (Option-cases (refusal e req)) [
  | inl passed ↦
      rw (passed, submit)
        (route-IsSound clock now (mark_seen e req) req req.type refl (rw (mark_seen_book e req) i))
  | inr (why, refused) ↦ rw (refused, submit) i
]
