-- ===== src/Oracle/Book.antt =====
-- services/gateway/internal/validator/validator.go, `book.apply` and what it calls. The code has
-- the matching loop twice, for "buy" and for any other side; here it is one loop over the side
-- that the order trades against.
use quantime.Prelude.{
  ℕ, suc, zero, ◌+◌, ◌-◌, Bool, true, false, ◌||◌, Option, none, some, List, [], ◌∷◌, ◌++◌, length,
  ltb, ◌==◌, if◌then◌else◌, lookup, insert, erase,
}
use quantime.Go.Sort.{slice_stable}
use quantime.Oracle.Types.{
  Side, buy, sell, no_side, OrderType, limit, market, cancel, VOrder, Resting, Book,
}

abbrev pub min64 : ℕ → ℕ → ℕ
min64 a b = if ltb a b then a else b

-- `drop`, by pointer equality.
unfoldable pub drop : ℕ → List Resting → List Resting
drop seq [] = []
drop seq (x ∷ xs) = let rest = drop seq xs in if x.seq == seq then xs else x ∷ rest

-- `book.remove`, of the object with this id and `seq`.
unfoldable pub remove : ℕ → ℕ → Book → Book
remove id seq b = record b {
  by_id = erase id b.by_id;
  bids = drop seq b.bids;
  asks = drop seq b.asks;
}

abbrev pub is_buy : Side → Bool
is_buy buy = true
is_buy sell = false
is_buy no_side = false

abbrev pub is_limit : OrderType → Bool
is_limit limit = true
is_limit market = false
is_limit cancel = false

-- The slice that an order takes from.
abbrev pub opposite : VOrder → Book → List Resting
opposite o b = if is_buy o.side then b.asks else b.bids

abbrev pub set_opposite : VOrder → Book → List Resting → Book
set_opposite o b l = if is_buy o.side then record b { asks = l } else record b { bids = l }

-- The price test: whether the loop breaks at a resting order.
abbrev pub breaks_at : VOrder → ℕ → Bool
breaks_at o px =
    if is_limit o.type then if is_buy o.side then ltb o.px px else ltb px o.px else false

pub record Taking : Type 0 where
  pub book : Book
  pub filled : ℕ
  pub rem : ℕ

-- The loop's body at the best order; the write through `best` is to the head of the slice.
unfoldable pub take_best : VOrder → Resting → List Resting → Taking → Taking
take_best o best others s =
    let take = min64 s.rem best.qty in
    let left = best.qty - take in
    let b = set_opposite o s.book (record best { qty = left } ∷ others) in
    record {
      book = if left == 0 then remove best.id best.seq b else b;
      filled = s.filled + take;
      rem = s.rem - take;
    }

-- One round, or `none` where the loop ends.
unfoldable pub round_at : VOrder → List Resting → Taking → Option Taking
round_at o [] s = none
round_at o (best ∷ others) s =
    if s.rem == 0 || breaks_at o best.px then none else some (take_best o best others s)

unfoldable pub take_loop : ℕ → VOrder → Taking → Taking
unfolding round_at
take_loop zero o s = s
take_loop (suc fuel) o s = elim (round_at o (opposite o s.book) s) [
  | none ↦ s
  | some s' ↦ take_loop fuel o s'
]

-- Each round but the last removes an order, so this many rounds are enough.
abbrev pub enough_fuel : VOrder → Book → ℕ
enough_fuel o b = suc (length (opposite o b))

abbrev pub bid_less : Resting → Resting → Bool
bid_less x y = if x.px == y.px then ltb x.seq y.seq else ltb y.px x.px

abbrev pub ask_less : Resting → Resting → Bool
ask_less x y = if x.px == y.px then ltb x.seq y.seq else ltb x.px y.px

-- The residual rests.
unfoldable pub rest : VOrder → ℕ → Book → Book
rest o rem b =
    let r : Resting = record { id = o.id; px = o.px; qty = rem; seq = b.seq + 1 } in
    let b' = record b { seq = b.seq + 1; by_id = insert o.id (b.seq + 1) b.by_id } in
    if is_buy o.side
    then record b' { bids = slice_stable bid_less (b.bids ++ r ∷ []) }
    else record b' { asks = slice_stable ask_less (b.asks ++ r ∷ []) }

unfoldable pub cancel_target : ℕ → Book → Book
cancel_target target b = elim (lookup target b.by_id) [ none ↦ b | some seq ↦ remove target seq b ]

unfoldable pub trade : VOrder → Book → Book × ℕ
trade o b =
    let s = take_loop (enough_fuel o b) o (record { book = b; filled = 0; rem = o.qty }) in
    (
      if is_limit o.type then if ltb 0 s.rem then rest o s.rem s.book else s.book else s.book,
      s.filled,
    )

unfoldable pub apply_as : OrderType → VOrder → Book → Book × ℕ
apply_as cancel o b = (cancel_target o.target_id b, 0)
apply_as limit o b = trade o b
apply_as market o b = trade o b

-- The book afterwards, and the taker's filled quantity.
unfoldable pub apply : VOrder → Book → Book × ℕ
unfolding apply_as
apply o b = apply_as o.type o b
