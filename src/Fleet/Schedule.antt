-- ===== src/Fleet/Schedule.antt =====
-- services/botfleet/internal/bot/bot.go: `Bot.Run` in the open loop and the closed one, with the sample that
-- each order publishes for services/telemetry. What the clock and the engine give in a round comes with it;
-- the rounds end where the context is done. Times are nanoseconds, and a latency is its 64-bit pattern.
use quantime.Prelude.{
  ℕ, ◌+◌, ◌-◌, ◌^◌, Bool, true, false, Option, none, some, List, [], ◌∷◌, pos_part,
}
use quantime.Engine.Types.{
  OrderReq, Side, buy, sell, other_side, OrderType, limit, market, ioc, fok, postonly, cancel,
  modify, other_type,
}
use quantime.Telemetry.Rows as Rows
use quantime.Telemetry.Rows.{
  SideText, sell_text, TypeText, market_text, ioc_text, fok_text, postonly_text, cancel_text,
  Sample,
}
use quantime.Fleet.Rng.{word}
use quantime.Fleet.Bot.{Bot, round}

-- An error of the client, or a body: `none` where it does not decode, else the statuses of its acks.
pub data Outcome : Type 0 where
  failed : ℕ → Outcome
  answered : Option (List ℕ) → Outcome

-- The empty status is 0.
abbrev pub first_ack : List ℕ → ℕ
first_ack [] = 0
first_ack (s ∷ ss) = s

abbrev pub status_of : Outcome → ℕ
status_of (failed e) = 0
status_of (answered none) = 0
status_of (answered (some ss)) = first_ack ss

abbrev pub err_of : Outcome → Option ℕ
err_of (failed e) = some e
err_of (answered o) = none

-- `sendTS` and `ackTS`, and the test of the burst profile.
pub record World : Type 0 where
  pub high_rate : Bool
  pub send_ts : ℕ
  pub ack_ts : ℕ
  pub outcome : Outcome

pub record Driver : Type 0 where
  pub bot : Bot
  pub sched : ℕ

abbrev pub side_text : Side → SideText
side_text sell = sell_text
side_text buy = Rows.other_side
side_text other_side = Rows.other_side

abbrev pub type_text : OrderType → TypeText
type_text market = market_text
type_text ioc = ioc_text
type_text fok = fok_text
type_text postonly = postonly_text
type_text cancel = cancel_text
type_text limit = Rows.other_type
type_text modify = Rows.other_type
type_text other_type = Rows.other_type

-- `effSendTS`
abbrev pub effective : Bool → ℕ → ℕ → ℕ
effective true sched send_ts = sched
effective false sched send_ts = send_ts

abbrev pub sample_of : ℕ → ℕ → OrderReq → World → Sample
sample_of run_id eff_send_ts o w = record {
  run_id = run_id;
  bot_id = o.client_id;
  order_id = o.id;
  side = side_text o.side;
  type = type_text o.type;
  price_x100 = pos_part o.price;
  qty = pos_part o.qty;
  send_ts = eff_send_ts;
  ack_ts = w.ack_ts;
  latency_ns = word (w.ack_ts + 2 ^ 64 - eff_send_ts);
  status = status_of w.outcome;
  err = err_of w.outcome;
}

abbrev pub next_sched : Bool → ℕ → ℕ → ℕ
next_sched true interval sched = sched + interval
next_sched false interval sched = sched

-- One turn of the loop: what it publishes, and the driver afterwards.
unfoldable pub drive : ℕ → ℕ → World → Driver → Sample × Driver
unfolding round
drive run_id interval w d =
    let is_open = d.bot.cfg.open_loop in
    let r = round w.high_rate d.bot in
    (
      sample_of run_id (effective is_open d.sched w.send_ts) r.order w,
      record { bot = r.bot; sched = next_sched is_open interval d.sched },
    )

unfoldable pub drive_all : ℕ → ℕ → List World → Driver → List Sample
unfolding drive
drive_all run_id interval [] d = []
drive_all run_id interval (w ∷ ws) d =
    let (s, d') = drive run_id interval w d in s ∷ drive_all run_id interval ws d'
