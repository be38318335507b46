-- ===== src/Engine/Match.antt =====
-- examples/sample-engine-go/main.go, `engine.match`. Both loops recur on the list that they
-- consume. The inner loop stops at an order that it does not use up: then nothing remains or the
-- taker is cancelled, so its test fails in the next round, and the outer loop's too. The clock
-- gives the time of a fill by the fill's id, since each fill reads the clock once.
use quantime.Prelude.{
  ℕ, ◌+◌, ◌-◌, Bool, true, false, ◌||◌, List, [], ◌∷◌, ◌++◌, ltb, ◌==◌, if◌then◌else◌, erase,
}
use quantime.Engine.Types.{
  RestingOrder, PriceLevel, Book, Loc, Fill, Engine, Side, OrderType, limit, market, ioc, fok,
  postonly, cancel, modify, other_type, StpPolicy, fill_it, stop_taker, drop_maker, drop_both,
}
use quantime.Engine.Book.{is_buy, beyond, stp_decision}

-- The parameters of a call that do not change, and the policy and clock of the engine.
pub record Taker : Type 0 where
  pub side : Side
  pub type : OrderType
  pub px : ℕ
  pub id : ℕ
  pub client_id : ℕ
  pub policy : StpPolicy
  pub clock : ℕ → ℕ

-- The variables of the loops, but for the level that they consume.
pub record Progress : Type 0 where
  pub remaining : ℕ
  pub filled : ℕ
  pub taker_cancelled : Bool
  pub fills : List Fill
  pub idx : List (ℕ × Loc)
  pub fill_id_seq : ℕ

-- What one round does with the first order of the level.
pub data Visit : Type 0 where
  halt : RestingOrder → Progress → Visit
  next : Progress → Visit

abbrev pub is_done : Progress → Bool
is_done a = a.remaining == 0 || a.taker_cancelled

abbrev pub matched_qty : ℕ → ℕ → ℕ
matched_qty remaining qty = if ltb qty remaining then qty else remaining

abbrev pub record_fill : Taker → ℕ → RestingOrder → Progress → Progress
record_fill t px r a =
    let matched = matched_qty a.remaining r.qty in
    record a {
      remaining = a.remaining - matched;
      filled = a.filled + matched;
      fills =
          a.fills
          ++ record {
            id = a.fill_id_seq + 1;
            price = px;
            qty = matched;
            taker_id = t.id;
            maker_id = r.id;
            ts = t.clock (a.fill_id_seq + 1);
          }
            ∷ [];
      fill_id_seq = a.fill_id_seq + 1;
    }

unfoldable pub fill_maker : Taker → ℕ → RestingOrder → Progress → Visit
fill_maker t px r a =
    let left = r.qty - matched_qty a.remaining r.qty in
    let a' = record_fill t px r a in
    if left == 0
    then next (record a' { idx = erase r.id a'.idx })
    else halt (record r { qty = left }) a'

unfoldable pub visit : Taker → ℕ → RestingOrder → Progress → Visit
visit t px r a =
    if is_done a then halt r a else elim (stp_decision t.policy t.client_id r.client_id) [
      | stop_taker ↦ halt r (record a { taker_cancelled = true })
      | drop_maker ↦ next (record a { idx = erase r.id a.idx })
      | drop_both ↦ next (record a { idx = erase r.id a.idx; taker_cancelled = true })
      | fill_it ↦ fill_maker t px r a
    ]

-- The inner loop: what is left of the level's orders, and the progress.
unfoldable pub match_orders :
    Taker → ℕ → List RestingOrder → Progress → List RestingOrder × Progress
match_orders t px [] a = ([], a)
match_orders t px (r ∷ rs) a = elim (visit t px r a) [
  | halt r' a' ↦ (r' ∷ rs, a')
  | next a' ↦ match_orders t px rs a'
]

abbrev pub is_market : OrderType → Bool
is_market market = true
is_market limit = false
is_market ioc = false
is_market fok = false
is_market postonly = false
is_market cancel = false
is_market modify = false
is_market other_type = false

abbrev pub breaks_at : Taker → ℕ → Bool
breaks_at t p = if is_market t.type then false else beyond t.side t.px p

-- The outer loop's end of a round: the level is dropped if nothing is left of it.
abbrev pub after_level :
    PriceLevel
    → List PriceLevel
    → (Progress → List PriceLevel × Progress)
    → List RestingOrder × Progress
    → List PriceLevel × Progress
after_level l ls continue ([], a) = continue a
after_level l ls continue (r ∷ rs, a) = (record l { orders = r ∷ rs } ∷ ls, a)

unfoldable pub match_levels : Taker → List PriceLevel → Progress → List PriceLevel × Progress
match_levels t [] a = ([], a)
match_levels t (l ∷ ls) a =
    if is_done a || breaks_at t l.price_x100
    then (l ∷ ls, a)
    else after_level l ls (match_levels t ls) (match_orders t l.price_x100 l.orders a)

abbrev pub start_progress : Engine → ℕ → Progress
start_progress e qty = record {
  remaining = qty;
  filled = 0;
  taker_cancelled = false;
  fills = [];
  idx = e.idx;
  fill_id_seq = e.fill_id_seq;
}

-- The engine with the book and what the loops changed.
abbrev pub with_progress : Engine → Book → Progress → Engine
with_progress e bk a = record e { bk = bk; idx = a.idx; fill_id_seq = a.fill_id_seq }

-- The levels that an order trades against.
abbrev pub opposite : Side → Book → List PriceLevel
opposite side b = if is_buy side then b.asks else b.bids

abbrev pub set_opposite : Side → Book → List PriceLevel → Book
set_opposite side b ls = if is_buy side then record b { asks = ls } else record b { bids = ls }

-- `match`: the engine afterwards, and the results.
unfoldable pub match_taker : Taker → ℕ → Engine → Engine × Progress
match_taker t qty e =
    let (ls, a) = match_levels t (opposite t.side e.bk) (start_progress e qty) in
    (with_progress e (set_opposite t.side e.bk ls) a, a)
