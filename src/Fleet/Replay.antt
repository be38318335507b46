-- ===== src/Fleet/Replay.antt =====
-- services/botfleet/internal/bot/replay.go: what `ReplayMarketData` posts for a line of the file, up to
-- the body. What splitting and parsing give are parameters: a line is the number of its columns and the
-- values that `Atoi` and `ParseInt` return, with errors ignored. Order ids are 64-bit patterns.
use quantime.Prelude.{
  ℕ, ℤ, pos, negsuc, zero, suc, pos_part, ◌+◌, ◌*◌, ◌/◌, ◌≤◌, ◌<◌, ◌≡◌, Bool, false, Option, none,
  some, List, [], ◌∷◌, arith, ltb, ◌==◌, if◌then◌else◌,
}
use quantime.Engine.Types.{Engine, OrderReq, Side, buy, sell, other_side, OrderType, limit, cancel}
use quantime.Engine.Submit.{is_seen, refusal}
use quantime.Fleet.Rng.{word}

pub record Line : Type 0 where
  pub has_time_prefix : Bool
  pub columns : ℕ
  pub etype : ℤ
  pub oid : ℕ
  pub size : ℤ
  pub price : ℤ
  pub dir : ℤ

abbrev pub replay_client_id : ℕ
replay_client_id = 9000

abbrev pub is_pos : ℤ → ℕ → Bool
is_pos (pos n) k = n == k
is_pos (negsuc n) k = false

-- The `switch` on the type of the event.
unfoldable pub event_of : ℤ → ℤ → Option (OrderType × Side)
event_of etype dir =
    if is_pos etype 1
    then some (limit, if is_pos dir 1 then buy else sell)
    else if is_pos etype 2
    then some (cancel, other_side)
    else if is_pos etype 3
    then some (cancel, other_side)
    else none

-- `priceL / 100`, which rounds to zero; -(n + 1) is `negsuc n`.
abbrev pub negate : ℕ → ℤ
negate zero = pos 0
negate (suc n) = negsuc n

abbrev pub to_ticks : ℤ → ℤ
to_ticks (pos n) = pos (n / 100)
to_ticks (negsuc n) = negate ((n + 1) / 100)

abbrev pub replay_id : ℕ → ℕ → ℕ
replay_id pass oid = word (oid + pass * 10000000)

abbrev pub message : ℕ → Line → Option (OrderType × Side) → Option OrderReq
message pass l none = none
message pass l (some (type, side)) = some (record {
  id = replay_id pass l.oid;
  client_id = replay_client_id;
  side = side;
  type = type;
  price = to_ticks l.price;
  qty = l.size;
  target_id = replay_id pass l.oid;
})

-- A line after the header; `none` where the loop goes on to the next.
unfoldable pub replay_line : ℕ → Line → Option OrderReq
unfolding event_of
replay_line pass l = if ltb l.columns 6 then none else message pass l (event_of l.etype l.dir)

abbrev pub cons_some : Option OrderReq → List OrderReq → List OrderReq
cons_some none os = os
cons_some (some o) os = o ∷ os

unfoldable pub replay_lines : ℕ → List Line → List OrderReq
unfolding replay_line
replay_lines pass [] = []
replay_lines pass (l ∷ ls) = cons_some (replay_line pass l) (replay_lines pass ls)

-- One pass over the file.
unfoldable pub replay_pass : ℕ → List Line → List OrderReq
unfolding replay_lines
replay_pass pass [] = []
replay_pass pass (l ∷ ls) =
    if l.has_time_prefix then replay_lines pass ls else replay_lines pass (l ∷ ls)

-- The offsets keep the ids of different passes apart as long as the ids of the file are below ten
-- million and the passes below 10 ^ 12.
replay_id_unique :
    (p q i j : ℕ)
    → i < 10000000
    → j < 10000000
    → p < 1000000000000
    → q < 1000000000000
    → replay_id p i ≡ replay_id q j
    → (p ≡ q) × (i ≡ j)
replay_id_unique p q i j hi hj hp hq e = (omega arith, omega arith)

-- A line of the file that is replayed, of a positive size and a price of at least one tick, passes
-- the validation of the sample engine if its id has not been seen.
replay_line-refusal :
    (e : Engine) (pass : ℕ) (l : Line) (o : OrderReq)
    → replay_line pass l ≡ some o
    → 1 ≤ pos_part l.size
    → 100 ≤ pos_part l.price
    → is_seen replay_client_id (replay_id pass l.oid) e.seen_ids ≡ false
    → refusal e o ≡ none
unfolding replay_line refusal event_of
replay_line-refusal e pass l o h size price fresh = ground arith
