-- ===== src/Telemetry/Rows.antt =====
-- services/telemetry/cmd/main.go, `sample`, `pgxCopySource` and the two encodings. Numbers and texts
-- that the service only passes on are numbers here.
use quantime.Prelude.{
  ℕ, zero, suc, ◌+◌, ◌-◌, Bool, Option, none, some, List, [], ◌∷◌, length, get_elem?, ltb,
  if◌then◌else◌,
}

-- A side's text, by what `strings.EqualFold` asks of it.
pub data SideText : Type 0 where
  sell_text other_side : SideText

-- A type's text in lower case.
pub data TypeText : Type 0 where
  market_text ioc_text fok_text postonly_text cancel_text other_type : TypeText

pub record Sample : Type 0 where
  pub run_id : ℕ
  pub bot_id : ℕ
  pub order_id : ℕ
  pub side : SideText
  pub type : TypeText
  pub price_x100 : ℕ
  pub qty : ℕ
  pub send_ts : ℕ
  pub ack_ts : ℕ
  pub latency_ns : ℕ
  pub status : ℕ
  pub err : Option ℕ

abbrev pub encode_side : SideText → ℕ
encode_side sell_text = 1
encode_side other_side = 0

abbrev pub encode_type : TypeText → ℕ
encode_type market_text = 1
encode_type ioc_text = 2
encode_type fok_text = 3
encode_type postonly_text = 4
encode_type cancel_text = 5
encode_type other_type = 0

-- A row of the table `telemetry`.
pub record Row : Type 0 where
  pub ts : ℕ
  pub run_id : ℕ
  pub bot_id : ℕ
  pub order_id : ℕ
  pub side : ℕ
  pub type : ℕ
  pub price_x100 : ℕ
  pub qty : ℕ
  pub latency_ns : ℕ
  pub status : ℕ
  pub filled : ℕ
  pub err : Option ℕ

abbrev pub to_row : Sample → Row
to_row r = record {
  ts = r.ack_ts;
  run_id = r.run_id;
  bot_id = r.bot_id;
  order_id = r.order_id;
  side = encode_side r.side;
  type = encode_type r.type;
  price_x100 = r.price_x100;
  qty = r.qty;
  latency_ns = r.latency_ns;
  status = r.status;
  filled = 0;
  err = r.err;
}

-- `next_idx` is `idx + 1`, since `idx` starts at -1.
pub record CopySource : Type 0 where
  pub rows : List Sample
  pub next_idx : ℕ

abbrev pub copy_source : List Sample → CopySource
copy_source rows = record { rows = rows; next_idx = 0 }

unfoldable pub next : CopySource → CopySource × Bool
next s = (record s { next_idx = s.next_idx + 1 }, ltb s.next_idx (length s.rows))

-- After `next`; `none` for an index out of range.
unfoldable pub values : CopySource → Option Row
values s = elim (get_elem? s.rows (s.next_idx - 1)) [ none ↦ none | some r ↦ some (to_row r) ]

-- The rows of a reader that calls `Values` after each `Next` that holds.
unfoldable pub drain : ℕ → CopySource → List (Option Row)
unfolding next values
drain zero s = []
drain (suc fuel) s =
    let (s', more) = next s in let rest = drain fuel s' in if more then values s' ∷ rest else []
