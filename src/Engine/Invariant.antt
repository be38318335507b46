-- ===== src/Engine/Invariant.antt =====
-- examples/sample-engine-go/main.go: the invariant of the engine's book, under every request.
use quantime.Prelude.{
  ℕ, ◌<◌, ◌≡◌, Bool, true, false, not, ◌&&◌, inl, inr, Option, none, some, List, [], ◌∷◌, arith,
  All-map, Bool-cases, Option-cases, ltb, pos_part, lookup,
}
use quantime.Engine.Types.{
  Engine, Book, Side, buy, sell, other_side, OrderReq, PriceLevel, RestingOrder,
}
use quantime.Engine.Book.{
  insert_resting, insert_level, bid_reached, ask_reached, remove_order, remove_from, is_buy,
  is_sell,
}
use quantime.Engine.Match.{Taker, Progress, match_taker, is_done, start_progress}
use quantime.Engine.Submit.{rest, cancel_order, resting_order}
use quantime.Engine.Order.{Ordered, bid_worse, ask_worse, bid-Fits, ask-Fits, insert_level-Ordered}
use quantime.Engine.Shrinks.{
  AllPrices, Shrunk, removed, match_levels-Shrunk, remove_from-Shrunk, insert_level-AllPrices,
}

-- Every bid is lower than every ask.
abbrev pub Uncrossed : List PriceLevel → List PriceLevel → Type 0
Uncrossed bids asks = AllPrices (λ p. AllPrices (λ q. p < q) asks) bids

-- Each side's levels are non-empty and strictly worse and worse, and the book is not crossed.
pub record IsSound (bk : Book) : Type 0 where
  pub bids_ordered : Ordered bid_worse bk.bids
  pub asks_ordered : Ordered ask_worse bk.asks
  pub uncrossed : Uncrossed bk.bids bk.asks

pub shrink_bids :
    (bk : Book) (ms : List PriceLevel)
    → IsSound bk
    → Shrunk bid_worse bk.bids ms
    → IsSound (record bk { bids = ms })
shrink_bids bk ms i s = record {
  bids_ordered = s.ordered;
  asks_ordered = i.asks_ordered;
  uncrossed = s.prices (λ p. AllPrices (λ q. p < q) bk.asks) i.uncrossed;
}

pub shrink_asks :
    (bk : Book) (ms : List PriceLevel)
    → IsSound bk
    → Shrunk ask_worse bk.asks ms
    → IsSound (record bk { asks = ms })
shrink_asks bk ms i s = record {
  bids_ordered = i.bids_ordered;
  asks_ordered = s.ordered;
  uncrossed =
      All-map (λ m. AllPrices (λ q. m.price_x100 < q) bk.asks)
        (λ m. AllPrices (λ q. m.price_x100 < q) ms) (λ m h. s.prices (λ q. m.price_x100 < q) h)
        bk.bids i.uncrossed;
}

insert_bid-IsSound :
    (px : ℕ) (ord : RestingOrder) (bk : Book)
    → IsSound bk
    → AllPrices (λ q. px < q) bk.asks
    → IsSound (record bk { bids = insert_level (bid_reached px) px ord bk.bids })
insert_bid-IsSound px ord bk i h = record {
  bids_ordered =
      insert_level-Ordered bid_worse px (bid_reached px) (bid-Fits px) ord bk.bids i.bids_ordered;
  asks_ordered = i.asks_ordered;
  uncrossed =
      insert_level-AllPrices (λ p. AllPrices (λ q. p < q) bk.asks) bid_worse px (bid_reached px)
        (bid-Fits px) ord bk.bids i.bids_ordered h i.uncrossed;
}

Uncrossed-insert_ask :
    (px : ℕ) (ord : RestingOrder) (bids asks : List PriceLevel)
    → Ordered ask_worse asks
    → Uncrossed bids asks
    → AllPrices (λ p. p < px) bids
    → Uncrossed bids (insert_level (ask_reached px) px ord asks)
Uncrossed-insert_ask px ord [] asks o u h = tt
Uncrossed-insert_ask px ord (l ∷ bids) asks o u h = (
  insert_level-AllPrices (λ q. l.price_x100 < q) ask_worse px (ask_reached px) (ask-Fits px) ord
      asks o h.0 u.0,
  Uncrossed-insert_ask px ord bids asks o u.1 h.1,
)

insert_ask-IsSound :
    (px : ℕ) (ord : RestingOrder) (bk : Book)
    → IsSound bk
    → AllPrices (λ p. p < px) bk.bids
    → IsSound (record bk { asks = insert_level (ask_reached px) px ord bk.asks })
insert_ask-IsSound px ord bk i h = record {
  bids_ordered = i.bids_ordered;
  asks_ordered =
      insert_level-Ordered ask_worse px (ask_reached px) (ask-Fits px) ord bk.asks i.asks_ordered;
  uncrossed = Uncrossed-insert_ask px ord bk.bids bk.asks i.asks_ordered i.uncrossed h;
}

-- On the side that an order would meet, no price is acceptable to it.
abbrev pub Clear : Side → ℕ → Book → Type 0
Clear buy px bk = AllPrices (λ q. px < q) bk.asks
Clear sell px bk = AllPrices (λ p. p < px) bk.bids
Clear other_side px bk = AllPrices (λ p. p < px) bk.bids

insert_resting-IsSound :
    (side : Side) (px : ℕ) (ord : RestingOrder) (bk : Book)
    → IsSound bk
    → Clear side px bk
    → IsSound (insert_resting side px ord bk)
unfolding insert_resting
insert_resting-IsSound buy px ord bk i c = insert_bid-IsSound px ord bk i c
insert_resting-IsSound sell px ord bk i c = insert_ask-IsSound px ord bk i c
insert_resting-IsSound other_side px ord bk i c = insert_ask-IsSound px ord bk i c

done_not : (a : Progress) → (not a.taker_cancelled && ltb 0 a.remaining) ≡ true → is_done a ≡ false
done_not a h = ground arith

pub rest-IsSound :
    (now : ℕ) (req : OrderReq) (a : Progress) (e : Engine)
    → IsSound e.bk
    → (is_done a ≡ false → Clear req.side (pos_part req.price) e.bk)
    → IsSound (rest now req a e).bk
unfolding rest
rest-IsSound now req a e i c = elim (Bool-cases (not a.taker_cancelled && ltb 0 a.remaining)) [
  | inl rests ↦ rw rests (
      insert_resting-IsSound req.side (pos_part req.price) (resting_order now req a) e.bk i
        (c (done_not a rests)))
  | inr not_rests ↦ rw not_rests i
]

pub match_taker-IsSound :
    (t : Taker) (qty : ℕ) (e : Engine) → IsSound e.bk → IsSound (match_taker t qty e).0.bk
unfolding match_taker
match_taker-IsSound t qty e i = elim (Bool-cases (is_buy t.side)) [
  | inl buys ↦ rw buys (
      shrink_asks e.bk _ i
        (match_levels-Shrunk ask_worse t e.bk.asks (start_progress e qty) i.asks_ordered))
  | inr sells ↦ rw sells (
      shrink_bids e.bk _ i
        (match_levels-Shrunk bid_worse t e.bk.bids (start_progress e qty) i.bids_ordered))
]

removed_asks :
    (bk : Book) (q : Option (List PriceLevel))
    → IsSound (record bk { asks = removed bk.asks q })
    → IsSound
        (elim q as (λ x. Book × Bool) [
          | none ↦ (bk, false)
          | some ls ↦ (record bk { asks = ls }, true)
        ]).0
removed_asks bk none i = i
removed_asks bk (some ls) i = i

removed_bids :
    (bk : Book) (q : Option (List PriceLevel))
    → IsSound (record bk { bids = removed bk.bids q })
    → IsSound
        (elim q as (λ x. Book × Bool) [
          | none ↦ (bk, false)
          | some ls ↦ (record bk { bids = ls }, true)
        ]).0
removed_bids bk none i = i
removed_bids bk (some ls) i = i

remove_order-IsSound :
    (side : Side) (px id : ℕ) (bk : Book) → IsSound bk → IsSound (remove_order side px id bk).0
unfolding remove_order
remove_order-IsSound side px id bk i = elim (Bool-cases (is_sell side)) [
  | inl sells ↦ rw sells (
      removed_asks bk (remove_from px id bk.asks)
        (shrink_asks bk _ i (remove_from-Shrunk ask_worse px id bk.asks i.asks_ordered)))
  | inr others ↦ rw others (
      removed_bids bk (remove_from px id bk.bids)
        (shrink_bids bk _ i (remove_from-Shrunk bid_worse px id bk.bids i.bids_ordered)))
]

pub cancel_order-IsSound :
    (e : Engine) (req : OrderReq) → IsSound e.bk → IsSound (cancel_order e req).0.bk
unfolding cancel_order
cancel_order-IsSound e req i = elim (Option-cases (lookup req.target_id e.idx)) [
  | inl miss ↦ rw (miss, cancel_order) i
  | inr (loc, hit) ↦
      rw (hit, cancel_order) (remove_order-IsSound loc.side loc.px req.target_id e.bk i)
]
