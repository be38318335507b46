-- ===== src/Engine/Takes.antt =====
-- examples/sample-engine-go/main.go: with the policy "none", the inner loop of `match` is the abstract
-- sweep over the orders of one level.
use quantime.Prelude.{
  ℕ, ◌+◌, ◌-◌, ◌≤◌, ◌<◌, ◌≡◌, ◌≢◌, refl, ◌∙◌, Bool, true, false, ◌||◌, inl, inr, List, [], ◌∷◌,
  ◌++◌, map, arith, All, Bool-cases, ltb→lt, ltb→le, ltb, ◌==◌, erase,
}
use quantime.Market.Sweep.{Lot, sweep, sweep-nil, sweep-stop, sweep-used, sweep-partial}
use quantime.Engine.Types.{RestingOrder, PriceLevel, no_stp, fill_it}
use quantime.Engine.Book.{stp_decision}
use quantime.Engine.Match.{
  Taker, Progress, halt, next, visit, fill_maker, record_fill, match_orders, breaks_at, is_done,
}

-- An order as the market sees it.
pub record Entry : Type 0 where
  pub id : ℕ
  pub px : ℕ
  pub qty : ℕ

abbrev pub entry_lot : Lot Entry
entry_lot = record { px = λ e. e.px; qty = λ e. e.qty; with_qty = λ e q. record e { qty = q } }

abbrev pub entry : ℕ → RestingOrder → Entry
entry px r = record { id = r.id; px = px; qty = r.qty }

abbrev pub tagged : ℕ → List RestingOrder → List Entry
tagged px = map (entry px)

-- One side of the book, best level first, oldest order first.
abbrev pub entries : List PriceLevel → List Entry
entries [] = []
entries (l ∷ ls) = tagged l.price_x100 l.orders ++ entries ls

stp_decision_none : (taker maker : ℕ) → stp_decision no_stp taker maker ≡ fill_it
unfolding stp_decision
stp_decision_none taker maker = ground arith

-- The progress after `f` more has been filled.
pub record Advanced (a b : Progress) (f : ℕ) : Type 0 where
  pub filled_by : b.filled ≡ a.filled + f
  pub remaining_by : b.remaining ≡ a.remaining - f
  pub not_cancelled : b.taker_cancelled ≡ false

visit_fill :
    (t : Taker) (px : ℕ) (r : RestingOrder) (a : Progress)
    → t.policy ≡ no_stp
    → is_done a ≡ false
    → visit t px r a ≡ fill_maker t px r a
unfolding visit
visit_fill t px r a p go = rw (go, p) (ground (arith, stp_decision_none t.client_id r.client_id))

-- Filling against one order that the taker uses up.
fill_maker_used :
    (t : Taker) (px : ℕ) (r : RestingOrder) (a : Progress)
    → r.qty ≤ a.remaining
    → fill_maker t px r a ≡ next (record (record_fill t px r a) { idx = erase r.id a.idx })
unfolding fill_maker
fill_maker_used t px r a le = ground arith

-- Filling against one order that is larger than what remains.
fill_maker_partial :
    (t : Taker) (px : ℕ) (r : RestingOrder) (a : Progress)
    → a.remaining < r.qty
    → fill_maker t px r a ≡ halt (record r { qty = r.qty - a.remaining }) (record_fill t px r a)
unfolding fill_maker
fill_maker_partial t px r a lt = ground arith

match_orders-halt :
    (t : Taker) (px : ℕ) (r r' : RestingOrder) (rs : List RestingOrder) (a b : Progress)
    → visit t px r a ≡ halt r' b
    → match_orders t px (r ∷ rs) a ≡ (r' ∷ rs, b)
unfolding match_orders
match_orders-halt t px r r' rs a b e = rw (e, match_orders)

match_orders-next :
    (t : Taker) (px : ℕ) (r : RestingOrder) (rs : List RestingOrder) (a b : Progress)
    → visit t px r a ≡ next b
    → match_orders t px (r ∷ rs) a ≡ match_orders t px rs b
unfolding match_orders
match_orders-next t px r rs a b e = rw (e, match_orders)

-- The level's orders and the progress after the inner loop.
pub record Matched (t : Taker) (px : ℕ) (a : Progress) (rs : List RestingOrder)
    (r : List RestingOrder × Progress) : Type 0 where
  pub orders_left : tagged px r.0 ≡ (sweep entry_lot (breaks_at t) a.remaining (tagged px rs)).1
  pub advanced : Advanced a r.1 (sweep entry_lot (breaks_at t) a.remaining (tagged px rs)).0

match_orders_nil : (t : Taker) (px : ℕ) (a : Progress) → match_orders t px [] a ≡ ([], a)
unfolding match_orders
match_orders_nil t px a = refl

visit_done :
    (t : Taker) (px : ℕ) (r : RestingOrder) (a : Progress)
    → is_done a ≡ true
    → visit t px r a ≡ halt r a
unfolding visit
visit_done t px r a done = rw done

ok_more : (rem : ℕ) (b : Bool) → (rem == 0) ≡ false → b ≡ false → (rem == 0 || b) ≡ false
ok_more rem b h k = rw (h, k)

-- The induction step: an order is used up, and the rest of the level is matched.
Matched-next :
    (t : Taker) (px : ℕ) (r : RestingOrder) (rs : List RestingOrder) (a : Progress)
    → (a.remaining == 0 || breaks_at t px) ≡ false
    → ltb a.remaining r.qty ≡ false
    → let b = record (record_fill t px r a) { idx = erase r.id a.idx } in
      match_orders t px (r ∷ rs) a ≡ match_orders t px rs b
      → Matched t px b rs (match_orders t px rs b)
      → Matched t px a (r ∷ rs) (match_orders t px (r ∷ rs) a)
Matched-next t px r rs a go used step m = rw step (
    ground
      (arith, sweep-used entry_lot (breaks_at t) a.remaining (entry px r) (tagged px rs) go used))

pub match_orders-sweep :
    (t : Taker) (px : ℕ) (rs : List RestingOrder) (a : Progress)
    → t.policy ≡ no_stp
    → a.taker_cancelled ≡ false
    → breaks_at t px ≡ false
    → Matched t px a rs (match_orders t px rs a)
match_orders-sweep t px [] a p c ok =
    ground (arith, match_orders_nil t px a, sweep-nil entry_lot (breaks_at t) a.remaining)
match_orders-sweep t px (r ∷ rs) a p c ok = elim (Bool-cases (a.remaining == 0)) [
  | inl zero_left ↦ ground (
    arith,
    match_orders-halt t px r r rs a a (visit_done t px r a (rw zero_left)),
    sweep-stop entry_lot (breaks_at t) a.remaining (entry px r) (tagged px rs) (rw zero_left),
  )
  | inr more ↦
      let v = visit_fill t px r a p (rw (more, c)) in
      elim (Bool-cases (ltb a.remaining r.qty)) [
        | inl partial ↦ ground (
          arith,
          match_orders-halt t px r _ rs a _
              (v ∙ fill_maker_partial t px r a (ltb→lt a.remaining r.qty partial)),
          sweep-partial entry_lot (breaks_at t) a.remaining (entry px r) (tagged px rs)
              (rw (more, ok)) partial,
        )
        | inr used ↦
            Matched-next t px r rs a (ok_more a.remaining (breaks_at t px) more ok) used
              (match_orders-next t px r rs a _
                (v ∙ fill_maker_used t px r a (ltb→le a.remaining r.qty used)))
              (match_orders-sweep t px rs (record (record_fill t px r a) { idx = erase r.id a.idx })
                p c ok)
      ]
]

pub tagged-pass :
    (stops : ℕ → Bool) (px : ℕ) (rs : List RestingOrder)
    → stops px ≡ false
    → All (λ e. stops e.px ≡ false) (tagged px rs)
tagged-pass stops px [] h = tt
tagged-pass stops px (r ∷ rs) h = (h, tagged-pass stops px rs h)

pub tagged_stop :
    (stops : ℕ → Bool) (rem px : ℕ) (rs : List RestingOrder) (es : List Entry)
    → rs ≢ []
    → (rem == 0 || stops px) ≡ true
    → sweep entry_lot stops rem (tagged px rs ++ es) ≡ (0, tagged px rs ++ es)
tagged_stop stops rem px [] es n h = absurd (n refl)
tagged_stop stops rem px (r ∷ rs) es n h =
    sweep-stop entry_lot stops rem (entry px r) (tagged px rs ++ es) h
