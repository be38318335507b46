-- ===== src/Engine/Submit.antt =====
-- examples/sample-engine-go/main.go, `engine.submit`. `now` is the clock's reading when the order
-- rests. A quantity or price that is not positive passes only in a "modify" request, or as the
-- price of a market order: there the loops test `remaining > 0`, and compare the price with the
-- positive prices of levels, so 0 stands for every such value.
use quantime.Prelude.{
  ℕ, Bool, true, false, not, ◌&&◌, ◌||◌, Option, none, some, List, [], ◌∷◌, pos_part,
  is_nonpositive, ltb, ◌==◌, if◌then◌else◌, lookup, insert, erase,
}
use quantime.Engine.Types.{
  RestingOrder, Engine, OrderReq, Ack, SubmitResp, Side, buy, sell, other_side, OrderType, limit,
  market, ioc, fok, postonly, cancel, modify, other_type, Status, rejected, cancel_miss, cancelled,
  accepted, partial, filled_status, stp_cancel_taker, unfilled, partial_unfilled, cancelled_ioc,
  partial_cancelled_ioc, Reason, no_reason, bad_side, bad_qty, bad_price, duplicate_id,
  would_cross_postonly, fok_unfillable, unknown_type,
}
use quantime.Engine.Book.{insert_resting, remove_order, would_cross, fok_fillable}
use quantime.Engine.Match.{Taker, Progress, match_taker, start_progress, is_market}

-- Membership in `seenIDs`.
unfoldable pub is_seen : ℕ → ℕ → List (ℕ × ℕ) → Bool
is_seen client id [] = false
is_seen client id ((c, i) ∷ seen) = (c == client && i == id) || is_seen client id seen

abbrev pub is_other_side : Side → Bool
is_other_side buy = false
is_other_side sell = false
is_other_side other_side = true

abbrev pub skips_validation : OrderType → Bool
skips_validation cancel = true
skips_validation modify = true
skips_validation limit = false
skips_validation market = false
skips_validation ioc = false
skips_validation fok = false
skips_validation postonly = false
skips_validation other_type = false

-- Why the request is rejected, if it is.
unfoldable pub refusal : Engine → OrderReq → Option Reason
unfolding is_seen
refusal e req =
    if skips_validation req.type
    then none
    else if is_other_side req.side
    then some bad_side
    else if is_nonpositive req.qty
    then some bad_qty
    else if not (is_market req.type) && is_nonpositive req.price
    then some bad_price
    else if is_seen req.client_id req.id e.seen_ids && not (req.id == 0)
    then some duplicate_id
    else none

unfoldable pub mark_seen : Engine → OrderReq → Engine
mark_seen e req =
    if skips_validation req.type || req.id == 0
    then e
    else record e { seen_ids = (req.client_id, req.id) ∷ e.seen_ids }

abbrev pub reject : OrderReq → Reason → Ack
reject req why = record {
  id = req.id;
  status = rejected;
  filled = 0;
  rem = 0;
  reason = why;
  target_id = 0;
}

abbrev pub only_ack : Ack → SubmitResp
only_ack a = record { acks = a ∷ []; fills = [] }

abbrev pub cancel_ack : OrderReq → Status → Ack
cancel_ack req s = record {
  id = req.id;
  status = s;
  filled = 0;
  rem = 0;
  reason = no_reason;
  target_id = req.target_id;
}

unfoldable pub cancel_order : Engine → OrderReq → Engine × SubmitResp
cancel_order e req = elim (lookup req.target_id e.idx) [
  | none ↦ (e, only_ack (cancel_ack req cancel_miss))
  | some loc ↦ (
    record e {
      bk = (remove_order loc.side loc.px req.target_id e.bk).0;
      idx = erase req.target_id e.idx;
    },
    only_ack (cancel_ack req cancelled),
  )
]

abbrev pub taker_of : (ℕ → ℕ) → Engine → OrderReq → Taker
taker_of clock e req = record {
  side = req.side;
  type = req.type;
  px = pos_part req.price;
  id = req.id;
  client_id = req.client_id;
  policy = e.stp_policy;
  clock = clock;
}

abbrev pub resting_order : ℕ → OrderReq → Progress → RestingOrder
resting_order now req a = record {
  id = req.id;
  client_id = req.client_id;
  qty = a.remaining;
  ts = now;
}

unfoldable pub rest : ℕ → OrderReq → Progress → Engine → Engine
rest now req a e =
    if not a.taker_cancelled && ltb 0 a.remaining
    then record e {
      bk = insert_resting req.side (pos_part req.price) (resting_order now req a) e.bk;
      idx =
          insert req.id
            (record { side = req.side; px = pos_part req.price; client_id = req.client_id }) e.idx;
    }
    else e

abbrev pub resting_status : Progress → Status
resting_status a =
    if a.taker_cancelled
    then stp_cancel_taker
    else if ltb 0 a.filled && ltb 0 a.remaining
    then partial
    else if a.remaining == 0 && ltb 0 a.filled
    then filled_status
    else accepted

-- The two inner switches, of "market" and "ioc".
abbrev pub taking_status : Status → Status → Progress → Status
taking_status nothing some_only a =
    if a.remaining == 0 && ltb 0 a.filled
    then filled_status
    else if ltb 0 a.remaining && ltb 0 a.filled
    then some_only
    else nothing

abbrev pub result_ack : OrderReq → Status → ℕ → ℕ → Ack
result_ack req s filled rem = record {
  id = req.id;
  status = s;
  filled = filled;
  rem = rem;
  reason = no_reason;
  target_id = 0;
}

-- The resting decision, and the ack of each type.
unfoldable pub final_ack : OrderReq → OrderType → Progress → Ack
final_ack req limit a = result_ack req (resting_status a) a.filled a.remaining
final_ack req postonly a = result_ack req (resting_status a) a.filled a.remaining
final_ack req market a =
    result_ack req (taking_status unfilled partial_unfilled a) a.filled a.remaining
final_ack req ioc a =
    result_ack req (taking_status cancelled_ioc partial_cancelled_ioc a) a.filled a.remaining
final_ack req fok a = result_ack req filled_status a.filled 0
final_ack req cancel a = reject req unknown_type
final_ack req modify a = reject req unknown_type
final_ack req other_type a = reject req unknown_type

abbrev pub can_rest : OrderType → Bool
can_rest limit = true
can_rest postonly = true
can_rest market = false
can_rest ioc = false
can_rest fok = false
can_rest cancel = false
can_rest modify = false
can_rest other_type = false

abbrev pub is_postonly : OrderType → Bool
is_postonly postonly = true
is_postonly limit = false
is_postonly market = false
is_postonly ioc = false
is_postonly fok = false
is_postonly cancel = false
is_postonly modify = false
is_postonly other_type = false

-- From the call of `match` on.
unfoldable pub execute : (ℕ → ℕ) → ℕ → Engine → OrderReq → Engine × SubmitResp
execute clock now e req =
    let (e', a) =
      if is_postonly req.type
      then (e, start_progress e (pos_part req.qty))
      else match_taker (taker_of clock e req) (pos_part req.qty) e in
    (
      if can_rest req.type then rest now req a e' else e',
      record { acks = final_ack req req.type a ∷ []; fills = a.fills },
    )

-- The branches between validation and matching.
unfoldable pub route : (ℕ → ℕ) → ℕ → Engine → OrderReq → OrderType → Engine × SubmitResp
route clock now e req cancel = cancel_order e req
route clock now e req postonly =
    if would_cross req.side (pos_part req.price) e.bk
    then (e, only_ack (reject req would_cross_postonly))
    else execute clock now e req
route clock now e req fok =
    if fok_fillable req.side (pos_part req.price) (pos_part req.qty) e.bk
    then execute clock now e req
    else (e, only_ack (reject req fok_unfillable))
route clock now e req limit = execute clock now e req
route clock now e req market = execute clock now e req
route clock now e req ioc = execute clock now e req
route clock now e req modify = execute clock now e req
route clock now e req other_type = execute clock now e req

unfoldable pub submit : (ℕ → ℕ) → ℕ → Engine → OrderReq → Engine × SubmitResp
submit clock now e req = elim (refusal e req) [
  | some why ↦ (e, only_ack (reject req why))
  | none ↦ route clock now (mark_seen e req) req req.type
]
