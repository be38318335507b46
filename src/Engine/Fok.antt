-- ===== src/Engine/Fok.antt =====
-- examples/sample-engine-go/main.go: what `fokFillable` finds is what `match` then takes.
use quantime.Prelude.{
  ℕ, ◌+◌, ◌-◌, ◌≤◌, ◌<◌, ◌≡◌, refl, ap, ◌⊎◌, ◌∙◌, Bool, true, false, Bool-cases, Option-cases, inl,
  inr, none, some, List, [], ◌∷◌, ◌++◌, arith, if◌then◌else◌, pos_part,
}
use quantime.Market.Sweep.{sweep, sweep_zero}
use mathlib.Core.Bool.{false≢true}
use mathlib.Core.Path.{fun_ext}
use quantime.Engine.Types.{
  Side, RestingOrder, PriceLevel, Book, Engine, no_stp, fok, OrderReq, filled_status,
  fok_unfillable,
}
use quantime.Engine.Book.{beyond, need_after, covers, fok_fillable, is_sell}
use quantime.Engine.Match.{Taker, match_taker, opposite, start_progress, breaks_at}
use quantime.Engine.Submit.{
  is_other_side, is_postonly, submit, route, execute, refusal, mark_seen, result_ack, only_ack,
  reject, taker_of, final_ack,
}
use quantime.Engine.Takes.{Entry, entry_lot, tagged, entries}
use quantime.Engine.Refines.{NonEmpty, match_levels-sweep}
use quantime.Engine.Order.{Ordered-NonEmpty, bid_worse, ask_worse}
use quantime.Engine.Invariant.{IsSound}

module _ (stops : ℕ → Bool) where
  -- The orders of a level that is enough.
  sweep-enough :
      (need px : ℕ) (os : List RestingOrder) (es : List Entry)
      → stops px ≡ false
      → 0 < need
      → need_after need os ≡ none
      → (sweep entry_lot stops need (tagged px os ++ es)).0 ≡ need
  unfolding need_after sweep
  sweep-enough need px [] es ok pos h = ground arith
  sweep-enough need px (o ∷ os) es ok pos h = ground (
    arith,
    sweep-enough (need - o.qty) px os es ok,
    sweep_zero entry_lot stops (tagged px os ++ es),
  )

  -- Those of a level that is not.
  sweep-more :
      (need px left : ℕ) (os : List RestingOrder) (es : List Entry)
      → stops px ≡ false
      → 0 < need
      → need_after need os ≡ some left
      → (0 < left)
        × (left ≤ need)
        × ((sweep entry_lot stops need (tagged px os ++ es)).0
            ≡ (need - left) + (sweep entry_lot stops left es).0)
  unfolding need_after sweep
  sweep-more need px left [] es ok pos h = ground arith
  sweep-more need px left (o ∷ os) es ok pos h =
      ground (arith, sweep-more (need - o.qty) px left os es ok)

pub covers-sweep :
    (side : Side) (px need : ℕ) (ls : List PriceLevel)
    → 0 < need
    → covers side px need ls ≡ true
    → (sweep entry_lot (beyond side px) need (entries ls)).0 ≡ need
unfolding covers
covers-sweep side px need [] pos h = ground arith
covers-sweep side px need (l ∷ ls) pos h = elim (Bool-cases (beyond side px l.price_x100)) [
  | inl far ↦ absurd (false≢true (rw far at h))
  | inr near ↦ elim (Option-cases (need_after need l.orders)) [
    | inl enough ↦
        sweep-enough (beyond side px) need l.price_x100 l.orders (entries ls) near pos enough
    | inr (left, more) ↦
        let m =
          sweep-more (beyond side px) need l.price_x100 left l.orders (entries ls) near pos more in
        let rest = covers-sweep side px left ls m.0 (rw (near, more) at h) in omega (arith, m, rest)
  ]
]

-- The side that `fokFillable` walks is the one that `match` takes from.
fok_sides :
    (side : Side) (bk : Book)
    → is_other_side side ≡ false
    → (if is_sell side then bk.bids else bk.asks) ≡ opposite side bk
fok_sides side bk h = ground arith

opposite-NonEmpty : (side : Side) (bk : Book) → IsSound bk → NonEmpty (opposite side bk)
opposite-NonEmpty side bk i = ground (
  arith,
  Ordered-NonEmpty bid_worse bk.bids i.bids_ordered,
  Ordered-NonEmpty ask_worse bk.asks i.asks_ordered,
)

breaks_at-fok : (t : Taker) → t.type ≡ fok → (p : ℕ) → breaks_at t p ≡ beyond t.side t.px p
breaks_at-fok t k p = ground arith

match_taker-whole :
    (t : Taker) (qty : ℕ) (e : Engine)
    → t.policy ≡ no_stp
    → IsSound e.bk
    → t.type ≡ fok
    → is_other_side t.side ≡ false
    → 0 < qty
    → fok_fillable t.side t.px qty e.bk ≡ true
    → ((match_taker t qty e).1.filled ≡ qty) × ((match_taker t qty e).1.remaining ≡ 0)
unfolding match_taker fok_fillable
match_taker-whole t qty e p i k s pos h =
    let m =
      match_levels-sweep t (opposite t.side e.bk) (start_progress e qty) p refl
        (opposite-NonEmpty t.side e.bk i) in
    let c =
      covers-sweep t.side t.px qty (opposite t.side e.bk) pos (rw (fok_sides t.side e.bk s) at h) in
    let same : sweep entry_lot (breaks_at t) qty (entries (opposite t.side e.bk))
        ≡ sweep entry_lot (beyond t.side t.px) qty (entries (opposite t.side e.bk)) =
      rw (fun_ext (breaks_at-fok t k)) refl in
    ground (arith, m.advanced, same, c)

fok_passed :
    (e : Engine) (req : OrderReq)
    → req.type ≡ fok
    → refusal e req ≡ none
    → (is_other_side req.side ≡ false) × (0 < pos_part req.qty)
unfolding refusal
fok_passed e req k h = ground arith

execute_acks :
    (clock : ℕ → ℕ) (now : ℕ) (e : Engine) (req : OrderReq)
    → is_postonly req.type ≡ false
    → (execute clock now e req).1.acks
      ≡ final_ack req req.type (match_taker (taker_of clock e req) (pos_part req.qty) e).1 ∷ []
unfolding execute
execute_acks clock now e req p = rw p refl

route-fok_whole :
    (clock : ℕ → ℕ) (now : ℕ) (e : Engine) (req : OrderReq)
    → req.type ≡ fok
    → fok_fillable req.side (pos_part req.price) (pos_part req.qty) e.bk ≡ true
    → ((match_taker (taker_of clock e req) (pos_part req.qty) e).1.filled ≡ pos_part req.qty)
    → (route clock now e req fok).1.acks ≡ result_ack req filled_status (pos_part req.qty) 0 ∷ []
unfolding route final_ack
route-fok_whole clock now e req k h f =
    let a = (match_taker (taker_of clock e req) (pos_part req.qty) e).1 in
    rw h (
      execute_acks clock now e req (ap is_postonly k)
      ∙ ap (λ x. x ∷ [])
          (ap (λ type. final_ack req type a) k ∙ ap (λ n. result_ack req filled_status n 0) f))

route-fok_none :
    (clock : ℕ → ℕ) (now : ℕ) (e : Engine) (req : OrderReq)
    → fok_fillable req.side (pos_part req.price) (pos_part req.qty) e.bk ≡ false
    → route clock now e req fok ≡ (e, only_ack (reject req fok_unfillable))
unfolding route
route-fok_none clock now e req h = rw h refl

submit-route_fok :
    (clock : ℕ → ℕ) (now : ℕ) (e : Engine) (req : OrderReq)
    → req.type ≡ fok
    → refusal e req ≡ none
    → submit clock now e req ≡ route clock now (mark_seen e req) req fok
unfolding submit
submit-route_fok clock now e req k passed =
    rw (passed, submit) (ap (route clock now (mark_seen e req) req) k)

mark_seen_book : (e : Engine) (req : OrderReq) → (mark_seen e req).bk ≡ e.bk
unfolding mark_seen
mark_seen_book e req = ground arith

mark_seen_policy : (e : Engine) (req : OrderReq) → (mark_seen e req).stp_policy ≡ e.stp_policy
unfolding mark_seen
mark_seen_policy e req = ground arith

-- With the policy "none", on a sound book, a fill-or-kill order that passes validation is filled
-- whole, or it is rejected and the book stays as it was; which of the two is what `fokFillable` says.
pub submit_fok :
    (clock : ℕ → ℕ) (now : ℕ) (e : Engine) (req : OrderReq)
    → e.stp_policy ≡ no_stp
    → IsSound e.bk
    → req.type ≡ fok
    → refusal e req ≡ none
    → let (e', r) = submit clock now e req in
      let fillable = fok_fillable req.side (pos_part req.price) (pos_part req.qty) e.bk in
      ((fillable ≡ true) × (r.acks ≡ result_ack req filled_status (pos_part req.qty) 0 ∷ []))
      ⊎ ((fillable ≡ false) × (r ≡ only_ack (reject req fok_unfillable)) × (e'.bk ≡ e.bk))
submit_fok clock now e req p i k passed =
    let m = mark_seen e req in
    let bk : m.bk ≡ e.bk = mark_seen_book e req in
    let eq = submit-route_fok clock now e req k passed in
    let ok = fok_passed e req k passed in
    elim (Bool-cases (fok_fillable req.side (pos_part req.price) (pos_part req.qty) e.bk)) [
      | inl fits ↦
          let fits_m : fok_fillable req.side (pos_part req.price) (pos_part req.qty) m.bk ≡ true =
            rw bk fits in
          let whole =
            match_taker-whole (taker_of clock m req) (pos_part req.qty) m
              (mark_seen_policy e req ∙ p) (rw bk i) k ok.0 ok.1 fits_m in
          inl (fits, ap (λ q. q.1.acks) eq ∙ route-fok_whole clock now m req k fits_m whole.0)
      | inr lacks ↦
          let lacks_m : fok_fillable req.side (pos_part req.price) (pos_part req.qty) m.bk ≡ false =
            rw bk lacks in
          let same = eq ∙ route-fok_none clock now m req lacks_m in
          inr (lacks, ap (λ q. q.1) same, ap (λ q. q.0.bk) same ∙ bk)
    ]
