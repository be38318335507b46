-- ===== src/Oracle/Types.antt =====
-- services/gateway/internal/validator/validator.go, the scenario's steps and the reference book.
-- A `*resting` is identified by its `seq`, which `apply` gives out once; so `by_id` maps an id to
-- the `seq` of the object, and the lists hold the objects' contents. Prices and quantities are not
-- negative: `scenario` is the only source of orders.
use quantime.Prelude.{ℕ, List, []}

pub data Side : Type 0 where
  buy sell no_side : Side

pub data OrderType : Type 0 where
  limit market cancel : OrderType

pub record VOrder : Type 0 where
  pub id : ℕ
  pub client_id : ℕ
  pub side : Side
  pub type : OrderType
  pub px : ℕ
  pub qty : ℕ
  pub target_id : ℕ

pub record Resting : Type 0 where
  pub id : ℕ
  pub px : ℕ
  pub qty : ℕ
  pub seq : ℕ

pub record Book : Type 0 where
  pub bids : List Resting
  pub asks : List Resting
  pub by_id : List (ℕ × ℕ)
  pub seq : ℕ

unfoldable pub new_book : Book
new_book = record { bids = []; asks = []; by_id = []; seq = 0 }
