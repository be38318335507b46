-- ===== src/Conformance/Submits.antt =====
-- examples/sample-engine-go/main.go and services/gateway/internal/validator/validator.go: limit and
-- market orders, one by one and in sequence.
use quantime.Prelude.{
  ℕ, ◌≡◌, ◌≢◌, refl, false, inl, inr, none, some, Option, List, [], ◌∷◌, arith, Bool-cases, ltb,
  if◌then◌else◌,
}
use mathlib.Core.Path.{ap₂}
use quantime.Engine.Types.{Engine, OrderReq, SubmitResp, no_stp, Ack}
use quantime.Engine.Match.{Progress, match_taker}
use quantime.Engine.Submit.{
  is_seen, refusal, mark_seen, taker_of, rest, execute, route, submit, final_ack,
}
use quantime.Oracle.Types.{VOrder, OrderType, limit, market, cancel}
use quantime.Oracle.Types as Ref
use quantime.Oracle.Book as RefBook
use quantime.Oracle.Fills.{apply_as-trade}
use quantime.Conformance.Trades.{
  request_of, Agree, IsTrade, Traded, taken, match-Traded, rest-Agree_buy, rest-Agree_sell,
}

-- What the validator reads of a response: the first ack's filled quantity.
abbrev pub first_filled : List Ack → Option ℕ
first_filled [] = none
first_filled (a ∷ as') = some a.filled

accepted_request :
    (e : Engine) (o : VOrder)
    → IsTrade o
    → is_seen o.client_id o.id e.seen_ids ≡ false
    → refusal e (request_of o) ≡ none
unfolding refusal
accepted_request e o h fresh = ground arith

submit-execute :
    (clock : ℕ → ℕ) (now : ℕ) (e : Engine) (o : VOrder)
    → IsTrade o
    → is_seen o.client_id o.id e.seen_ids ≡ false
    → submit clock now e (request_of o)
      ≡ execute clock now (mark_seen e (request_of o)) (request_of o)
unfolding submit route
submit-execute clock now e o h fresh = ground (arith, accepted_request e o h fresh)

rest-Conforms :
    (now : ℕ) (o : VOrder) (e : Engine) (a : Progress) (s : RefBook.Taking)
    → IsTrade o
    → Traded e.bk a s
    → Agree
        (rest now (request_of o) a e).bk
        (if ltb 0 s.rem then RefBook.rest o s.rem s.book else s.book)
unfolding rest
rest-Conforms now o e a s h t = elim (Bool-cases (ltb 0 s.rem)) [
  | inl more ↦ elim (Bool-cases (RefBook.is_buy o.side)) [
    | inl buys ↦ let r = rest-Agree_buy now o e.bk s.book s.rem t.agree buys in ground (arith, r)
    | inr sells ↦ let r = rest-Agree_sell now o e.bk s.book s.rem t.agree sells in ground (arith, r)
  ]
  | inr none_left ↦ ground arith
]

-- The engine and the reference book after one order, and what each reports.
pub record Conforms (r : Engine × SubmitResp) (q : Ref.Book × ℕ) : Type 0 where
  pub policy : r.0.stp_policy ≡ no_stp
  pub agree : Agree r.0.bk q.0
  pub fills_same : first_filled r.1.acks ≡ some q.1

rest_policy :
    (now : ℕ) (req : OrderReq) (a : Progress) (e : Engine)
    → (rest now req a e).stp_policy ≡ e.stp_policy
unfolding rest
rest_policy now req a e = ground arith

match_policy :
    (clock : ℕ → ℕ) (e e1 : Engine) (req : OrderReq) (qty : ℕ)
    → (match_taker (taker_of clock e req) qty e1).0.stp_policy ≡ e1.stp_policy
unfolding match_taker
match_policy clock e e1 req qty = refl

execute-Conforms :
    (clock : ℕ → ℕ) (now : ℕ) (e : Engine) (o : VOrder) (b : Ref.Book)
    → e.stp_policy ≡ no_stp
    → IsTrade o
    → Agree e.bk b
    → Conforms (execute clock now e (request_of o)) (RefBook.trade o b)
unfolding execute RefBook.trade final_ack
execute-Conforms clock now e o b p h a =
    let req = request_of o in
    let t = match-Traded clock e o b p h a in
    let m = match_taker (taker_of clock e req) o.qty e in
    ground (
      arith,
      t,
      rest-Conforms now o m.0 m.1 (taken o b) h t,
      rest_policy now req m.1 m.0,
      match_policy clock e e req o.qty,
    )

mark_seen_trade :
    (e : Engine) (o : VOrder)
    → IsTrade o
    → o.id ≢ 0
    → mark_seen e (request_of o) ≡ record e { seen_ids = (o.client_id, o.id) ∷ e.seen_ids }
unfolding mark_seen
mark_seen_trade e o h n = ground arith

-- From books that agree, a limit or market order to buy or sell, with a fresh id that is not 0, a
-- positive quantity and, if not market, a positive price, gets the same fill from the engine with the
-- policy "none" and from the reference book, and leaves books that agree and the policy "none".
submit-Conforms :
    (clock : ℕ → ℕ) (now : ℕ) (e : Engine) (o : VOrder) (b : Ref.Book)
    → e.stp_policy ≡ no_stp
    → IsTrade o
    → is_seen o.client_id o.id e.seen_ids ≡ false
    → o.id ≢ 0
    → Agree e.bk b
    → Conforms (submit clock now e (request_of o)) (RefBook.apply o b)
unfolding RefBook.apply
submit-Conforms clock now e o b p h fresh n a =
    rw
      (
        submit-execute clock now e o h fresh,
        mark_seen_trade e o h n,
        apply_as-trade o.type o b h.not_cancel,
      )
      (execute-Conforms clock now (record e { seen_ids = (o.client_id, o.id) ∷ e.seen_ids }) o b p h
        a)

rest_seen :
    (now : ℕ) (req : OrderReq) (a : Progress) (e : Engine)
    → (rest now req a e).seen_ids ≡ e.seen_ids
unfolding rest
rest_seen now req a e = ground arith

execute_seen :
    (clock : ℕ → ℕ) (now : ℕ) (e : Engine) (req : OrderReq)
    → (execute clock now e req).0.seen_ids ≡ e.seen_ids
unfolding execute match_taker
execute_seen clock now e req = grind (arith, rest_seen)

submit_seen :
    (clock : ℕ → ℕ) (now : ℕ) (e : Engine) (o : VOrder)
    → IsTrade o
    → is_seen o.client_id o.id e.seen_ids ≡ false
    → o.id ≢ 0
    → (submit clock now e (request_of o)).0.seen_ids ≡ (o.client_id, o.id) ∷ e.seen_ids
submit_seen clock now e o h fresh n =
    rw (submit-execute clock now e o h fresh, mark_seen_trade e o h n)
      (execute_seen clock now (record e { seen_ids = (o.client_id, o.id) ∷ e.seen_ids })
        (request_of o))

-- The orders are trades, with ids that no order before has.
abbrev pub AllFresh : List (ℕ × ℕ) → List VOrder → Type 0
AllFresh seen [] = Unit
AllFresh seen (o ∷ os) =
    IsTrade o
    × (is_seen o.client_id o.id seen ≡ false)
    × (o.id ≢ 0)
    × AllFresh ((o.client_id, o.id) ∷ seen) os

-- What the engine reports for each of the orders, the time of each being that of its id.
unfoldable pub engine_fills : (ℕ → ℕ) → (ℕ → ℕ) → Engine → List VOrder → List (Option ℕ)
engine_fills clock times e [] = []
engine_fills clock times e (o ∷ os) =
    let (e', resp) = submit clock (times o.id) e (request_of o) in
    first_filled resp.acks ∷ engine_fills clock times e' os

-- What the reference book expects of each.
unfoldable pub expected_fills : Ref.Book → List VOrder → List (Option ℕ)
expected_fills b [] = []
expected_fills b (o ∷ os) = let (b', f) = RefBook.apply o b in some f ∷ expected_fills b' os

-- From books that agree, on every sequence of limit and market orders to buy or sell, with fresh ids
-- that are not 0, a positive quantity and, if not market, a positive price, the sample engine with
-- the policy "none" reports for each order the fill that the reference book expects.
pub engine_fills-expected_fills :
    (clock times : ℕ → ℕ) (os : List VOrder) (e : Engine) (b : Ref.Book)
    → e.stp_policy ≡ no_stp
    → Agree e.bk b
    → AllFresh e.seen_ids os
    → engine_fills clock times e os ≡ expected_fills b os
unfolding engine_fills expected_fills
engine_fills-expected_fills clock times [] e b p a fresh = refl
engine_fills-expected_fills clock times (o ∷ os) e b p a fresh =
    let c = submit-Conforms clock (times o.id) e o b p fresh.0 fresh.1 fresh.2 a in
    let seen = submit_seen clock (times o.id) e o fresh.0 fresh.1 fresh.2 in
    ap₂ ◌∷◌ c.fills_same (
      engine_fills-expected_fills clock times os (submit clock (times o.id) e (request_of o)).0
        (RefBook.apply o b).0 c.policy c.agree (rw seen fresh.3))
