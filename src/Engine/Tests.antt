-- ===== src/Engine/Tests.antt =====
-- examples/sample-engine-go/main.go on concrete requests.
use quantime.Prelude.{
  arith, ◌⊎◌, none, some, true, false, ℕ, pos, ◌≡◌, refl, List, [], ◌∷◌, map, lookup, insert, erase,
  inl, inr,
}
use quantime.Market.Place.{place}
use quantime.Engine.Types.{
  fok, filled_status, fok_unfillable, Engine, new_engine, OrderReq, SubmitResp, Side, buy, sell,
  OrderType, limit, market, cancel, no_stp, PriceLevel, RestingOrder,
}
use quantime.Go.Search.{search}
use quantime.Engine.Book.{
  best_ask, best_bid, covers, fok_fillable, need_after, remove_from, remove_id, remove_order,
  would_cross, insert_resting, insert_at_index, stp_decision, insert_level, ask_reached,
}
use quantime.Engine.Match.{
  match_orders, visit, fill_maker, Taker, Progress, match_levels, match_taker, start_progress,
}
use quantime.Engine.Fok.{submit_fok}
use quantime.Engine.Submit.{
  result_ack, only_ack, reject, refusal, route, execute, final_ack, mark_seen, rest, cancel_order,
  is_seen, submit,
}
use quantime.Engine.Levels.{place_level, insert_level-place}
use quantime.Engine.Takes.{entries, entry, entry_lot}
use quantime.Engine.Refines.{LevelsMatched, match_levels-sweep}
use quantime.Engine.Order.{ask_worse, Ordered, ask-Fits}
use quantime.Engine.Invariant.{IsSound}
use quantime.Engine.Uncrossed.{submit-IsSound}
use quantime.Go.Channel.{try_send}
use quantime.Engine.Server.{
  Job, Served, Server, snap_request, post_submit, get_snapshot, send_job, serve_job, read_snapshot,
  boot, Reach, here, next, sending, serving, reading, snapshot_of, snapshot,
}
use quantime.Engine.Serial.{IsSerial, Reach-IsSerial}
use quantime.Engine.Rests.{entries-insert_level}

abbrev request : ℕ → ℕ → Side → OrderType → ℕ → ℕ → ℕ → OrderReq
request id client side type px qty target = record {
  id = id;
  client_id = client;
  side = side;
  type = type;
  price = pos px;
  qty = pos qty;
  target_id = target;
}

abbrev clock : ℕ → ℕ
clock n = n

run : Engine → List OrderReq → List SubmitResp
run e [] = []
run e (r ∷ rs) = let (e', resp) = submit clock 0 e r in resp ∷ run e' rs

-- The validator's scenario.
abbrev scenario_requests : List OrderReq
scenario_requests =
    request 1 1 sell limit 10000 10 0
    ∷ request 2 1 sell limit 10010 5 0
    ∷ request 3 2 buy limit 9990 4 0
    ∷ request 4 2 buy limit 10000 6 0
    ∷ request 5 3 buy limit 10005 8 0
    ∷ request 6 3 buy market 0 3 0
    ∷ request 7 1 buy cancel 0 0 2
    ∷ request 8 4 buy limit 10010 5 0
    ∷ request 9 4 sell limit 10005 2 0
    ∷ request 10 5 sell market 0 100 0
    ∷ []

abbrev fills_of : SubmitResp → List ℕ
fills_of r = map (λ a. a.filled) r.acks

abbrev one : ℕ → List ℕ
one n = n ∷ []

fills-run :
    map fills_of (run new_engine scenario_requests)
    ≡ one 0 ∷ one 0 ∷ one 0 ∷ one 6 ∷ one 4 ∷ one 3 ∷ one 0 ∷ one 0 ∷ one 2 ∷ one 11 ∷ []
unfolding run submit lookup insert erase new_engine match_taker match_levels insert_level search
    best_ask best_bid covers fok_fillable need_after remove_from remove_id remove_order would_cross
    insert_resting insert_at_index stp_decision refusal route execute final_ack mark_seen rest
    cancel_order is_seen match_orders visit fill_maker
fills-run = refl

abbrev offer : ℕ → ℕ → RestingOrder
offer id qty = record { id = id; client_id = 1; qty = qty; ts = 0 }

abbrev offers : List PriceLevel
offers =
    record { price_x100 = 100; orders = offer 1 4 ∷ offer 2 5 ∷ [] }
    ∷ record { price_x100 = 102; orders = offer 3 1 ∷ [] }
    ∷ []

abbrev taker : Taker
taker = record {
  side = buy;
  type = limit;
  px = 101;
  id = 9;
  client_id = 2;
  policy = no_stp;
  clock = clock;
}

abbrev starting : Progress
starting = start_progress new_engine 6

match_levels-sweep_example :
    LevelsMatched taker starting offers (match_levels taker offers starting)
match_levels-sweep_example =
    match_levels-sweep taker offers starting refl refl ((λ e. cc), ((λ e. cc), tt))

offers-Ordered : Ordered ask_worse offers
offers-Ordered = ((λ e. cc), (refl, tt), ((λ e. cc), tt, tt))

entries-insert_level_example :
    entries (insert_level (ask_reached 100) 100 (offer 7 2) offers)
    ≡ place entry_lot (ask_worse 100) (entry 100 (offer 7 2)) (entries offers)
entries-insert_level_example =
    entries-insert_level ask_worse 100 (ask_reached 100) (ask-Fits 100) (offer 7 2) offers
      offers-Ordered

insert_level-place_example :
    insert_level (ask_reached 101) 101 (offer 7 2) offers
    ≡ place_level (ask_reached 101) 101 (offer 7 2) offers
insert_level-place_example =
    insert_level-place (ask_reached 101) 101 (offer 7 2) offers (inl refl, (inr tt, tt))

new_engine-IsSound : IsSound new_engine.bk
unfolding new_engine
new_engine-IsSound = record { bids_ordered = tt; asks_ordered = tt; uncrossed = tt }

submit-IsSound_example :
    IsSound (submit clock 0 new_engine (request 1 1 sell limit 10000 10 0)).0.bk
submit-IsSound_example =
    submit-IsSound clock 0 new_engine (request 1 1 sell limit 10000 10 0) new_engine-IsSound

abbrev offering : Engine
offering = record new_engine { bk = record { bids = []; asks = offers } }

offering-IsSound : IsSound offering.bk
offering-IsSound = record { bids_ordered = tt; asks_ordered = offers-Ordered; uncrossed = tt }

abbrev fok_request : OrderReq
fok_request = request 9 2 buy fok 101 6 0

offering_policy : offering.stp_policy ≡ no_stp
unfolding new_engine
offering_policy = refl

fok_passes : refusal offering fok_request ≡ none
unfolding refusal new_engine is_seen
fok_passes = refl

submit_fok_example :
    ((fok_fillable buy 101 6 offering.bk ≡ true)
      × ((submit clock 0 offering fok_request).1.acks
          ≡ result_ack fok_request filled_status 6 0 ∷ []))
    ⊎ ((fok_fillable buy 101 6 offering.bk ≡ false)
        × ((submit clock 0 offering fok_request).1 ≡ only_ack (reject fok_request fok_unfillable))
        × ((submit clock 0 offering fok_request).0.bk ≡ offering.bk))
submit_fok_example =
    submit_fok clock 0 offering fok_request offering_policy offering-IsSound refl fok_passes

abbrev first_job : Job
first_job = record { ticket = 0; req = request 1 1 sell limit 10000 10 0 }

abbrev second_job : Job
second_job = record { ticket = 1; req = snap_request }

abbrev serve_of : Job → Served
serve_of j = record { job = j; clock = clock; now = 0 }

-- An order, a request of a snapshot, the two served, and the snapshot.
abbrev waiting : Server
waiting = send_job second_job (send_job first_job (boot no_stp))

abbrev all_served : Server
all_served =
    serve_job (serve_of second_job) [] (serve_job (serve_of first_job) (second_job ∷ []) waiting)

waiting_test : waiting.jobs.buffer ≡ first_job ∷ second_job ∷ []
unfolding try_send
waiting_test = refl

waiting-Reach : Reach no_stp waiting
unfolding try_send
waiting-Reach =
    next (next here (sending _ (post_submit (some first_job.req)) first_job refl (omega arith)))
      (sending _ get_snapshot second_job refl (omega arith))

all_served-Reach : Reach no_stp (read_snapshot all_served)
unfolding try_send
all_served-Reach =
    next
      (next (next waiting-Reach (serving waiting (serve_of first_job) (second_job ∷ []) refl))
        (serving _ (serve_of second_job) [] refl))
      (reading all_served (serve_of second_job) (serve_of first_job ∷ []) [] refl refl)

Reach-IsSerial_example :
    IsSerial (record new_engine { stp_policy = no_stp }) (read_snapshot all_served)
Reach-IsSerial_example = Reach-IsSerial no_stp (read_snapshot all_served) all_served-Reach

snapshot_test :
    snapshot_of (submit clock 0 new_engine first_job.req).0
    ≡ snapshot none (some (record { px = 10000; sz = 10 }))
unfolding snapshot_of submit refusal route execute insert_resting insert_level new_engine is_seen
    best_ask best_bid match_taker match_levels search insert_at_index rest mark_seen
snapshot_test = refl
