-- ===== src/Engine/Types.antt =====
-- examples/sample-engine-go/main.go, the order book's structs, the engine's state and the
-- request and response shapes. Ids and client ids are int64 values that the code only compares
-- for equality and with 0, so they are numbers here (the 64-bit pattern). Prices and quantities
-- of a request are signed, as `int64(req.Price)` and `int64(req.Qty)` give them; a resting order
-- and a level hold only values that passed the tests `qty > 0` and `price > 0`.
use quantime.Prelude.{ℕ, ℤ, List, []}

pub record RestingOrder : Type 0 where
  pub id : ℕ
  pub client_id : ℕ
  pub qty : ℕ
  pub ts : ℕ

pub record PriceLevel : Type 0 where
  pub price_x100 : ℕ
  pub orders : List RestingOrder

pub record Book : Type 0 where
  pub bids : List PriceLevel
  pub asks : List PriceLevel

-- A side is a string: `other_side` stands for each that is neither "buy" nor "sell".
pub data Side : Type 0 where
  buy sell other_side : Side

-- So is an order's type.
pub data OrderType : Type 0 where
  limit market ioc fok postonly cancel modify other_type : OrderType

pub data StpPolicy : Type 0 where
  no_stp cancel_taker cancel_maker cancel_both : StpPolicy

-- What `stpDecision` returns: "fill" or a policy's name.
pub data Decision : Type 0 where
  fill_it stop_taker drop_maker drop_both : Decision

pub record Loc : Type 0 where
  pub side : Side
  pub px : ℕ
  pub client_id : ℕ

pub record Engine : Type 0 where
  pub bk : Book
  pub idx : List (ℕ × Loc)
  pub seen_ids : List (ℕ × ℕ)
  pub fill_id_seq : ℕ
  pub stp_policy : StpPolicy

pub record OrderReq : Type 0 where
  pub id : ℕ
  pub client_id : ℕ
  pub side : Side
  pub type : OrderType
  pub price : ℤ
  pub qty : ℤ
  pub target_id : ℕ

pub data Status : Type 0 where
  rejected cancel_miss cancelled accepted partial filled_status stp_cancel_taker : Status
  unfilled partial_unfilled cancelled_ioc partial_cancelled_ioc : Status

pub data Reason : Type 0 where
  no_reason bad_side bad_qty bad_price duplicate_id would_cross_postonly fok_unfillable : Reason
  unknown_type : Reason

pub record Ack : Type 0 where
  pub id : ℕ
  pub status : Status
  pub filled : ℕ
  pub rem : ℕ
  pub reason : Reason
  pub target_id : ℕ

pub record Fill : Type 0 where
  pub id : ℕ
  pub price : ℕ
  pub qty : ℕ
  pub taker_id : ℕ
  pub maker_id : ℕ
  pub ts : ℕ

pub record SubmitResp : Type 0 where
  pub acks : List Ack
  pub fills : List Fill

unfoldable pub new_engine : Engine
new_engine = record {
  bk = record { bids = []; asks = [] };
  idx = [];
  seen_ids = [];
  fill_id_seq = 0;
  stp_policy = no_stp;
}
