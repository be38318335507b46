-- ===== src/Conformance/Views.antt =====
-- examples/sample-engine-go/main.go and services/gateway/internal/validator/validator.go: one side
-- of the engine's book and of the reference book, seen as the same list of entries.
use quantime.Prelude.{
  ℕ, ◌+◌, ◌-◌, ◌<◌, ◌≡◌, refl, sym, Bool, false, List, [], ◌∷◌, ◌++◌, map, arith, All,
}
use mathlib.Core.Path.{fun_ext}
use quantime.Go.Sort.{IsSorted, insert_sorted, slice_stable, slice_stable-snoc}
use quantime.Market.Sweep.{sweep}
use quantime.Market.Place.{place}
use quantime.Engine.Types.{RestingOrder, PriceLevel, no_stp}
use quantime.Engine.Book.{insert_level, bid_reached, ask_reached}
use quantime.Engine.Match.{Taker, Progress, match_levels}
use quantime.Engine.Match
use quantime.Engine.Takes.{Entry, entry, entry_lot, entries}
use quantime.Engine.Refines.{NonEmpty, match_levels-sweep}
use quantime.Engine.Order.{Ordered, bid_worse, ask_worse, bid-Fits, ask-Fits}
use quantime.Engine.Rests.{entries-insert_level}
use quantime.Oracle.Types.{Resting}
use quantime.Oracle.Book.{bid_less, ask_less}
use quantime.Oracle.Refines.{resting_lot}

abbrev pub resting_entry : Resting → Entry
resting_entry r = record { id = r.id; px = r.px; qty = r.qty }

abbrev pub view : List Resting → List Entry
view = map resting_entry

-- The two sides show the same entries.
abbrev pub Same : List PriceLevel → List Resting → Type 0
Same ls l = entries ls ≡ view l

sweep-view :
    (stops : ℕ → Bool) (rem : ℕ) (l : List Resting)
    → let (f, left) = sweep resting_lot stops rem l in
      sweep entry_lot stops rem (view l) ≡ (f, view left)
unfolding sweep
sweep-view stops rem [] = refl
sweep-view stops rem (r ∷ l) = ground (arith, sweep-view stops (rem - r.qty) l)

-- What the engine's loops do, said of the reference book's slice.
pub record SameMatch (t : Taker) (a : Progress) (ls : List PriceLevel) (f : ℕ) (left : List Resting)
    : Type 0 where
  pub levels_same : Same (match_levels t ls a).0 left
  pub filled_same : (match_levels t ls a).1.filled ≡ a.filled + f
  pub remaining_same : (match_levels t ls a).1.remaining ≡ a.remaining - f
  pub not_cancelled : (match_levels t ls a).1.taker_cancelled ≡ false

pub match_levels-SameMatch :
    (t : Taker) (a : Progress) (ls : List PriceLevel) (l : List Resting) (stops : ℕ → Bool)
    → t.policy ≡ no_stp
    → a.taker_cancelled ≡ false
    → NonEmpty ls
    → Same ls l
    → ((p : ℕ) → Match.breaks_at t p ≡ stops p)
    → let (f, left) = sweep resting_lot stops a.remaining l in SameMatch t a ls f left
match_levels-SameMatch t a ls l stops p c n same e =
    let m = match_levels-sweep t ls a p c n in
    let eq : sweep entry_lot (Match.breaks_at t) a.remaining (entries ls)
        ≡ sweep entry_lot stops a.remaining (view l) =
      rw (same, fun_ext e) in
    ground (arith, m, eq, sweep-view stops a.remaining l)

view-insert_sorted_bids :
    (r : Resting) (l : List Resting)
    → All (λ x. x.seq < r.seq) l
    → view (insert_sorted bid_less r l)
      ≡ place entry_lot (bid_worse r.px) (resting_entry r) (view l)
unfolding place
view-insert_sorted_bids r [] h = refl
view-insert_sorted_bids r (x ∷ l) h = ground (arith, view-insert_sorted_bids r l h.1)

view-insert_sorted_asks :
    (r : Resting) (l : List Resting)
    → All (λ x. x.seq < r.seq) l
    → view (insert_sorted ask_less r l)
      ≡ place entry_lot (ask_worse r.px) (resting_entry r) (view l)
unfolding place
view-insert_sorted_asks r [] h = refl
view-insert_sorted_asks r (x ∷ l) h = ground (arith, view-insert_sorted_asks r l h.1)

-- A new bid lands at the same place in both books.
pub rest_bids-Same :
    (ord : RestingOrder) (r : Resting) (ls : List PriceLevel) (l : List Resting)
    → entry r.px ord ≡ resting_entry r
    → Ordered bid_worse ls
    → IsSorted bid_less l
    → All (λ x. x.seq < r.seq) l
    → Same ls l
    → Same (insert_level (bid_reached r.px) r.px ord ls) (slice_stable bid_less (l ++ r ∷ []))
rest_bids-Same ord r ls l e o s new same =
    rw
      (
        entries-insert_level bid_worse r.px (bid_reached r.px) (bid-Fits r.px) ord ls o,
        slice_stable-snoc bid_less r l s,
        same,
        e,
      )
      (sym (view-insert_sorted_bids r l new))

-- So does a new ask.
pub rest_asks-Same :
    (ord : RestingOrder) (r : Resting) (ls : List PriceLevel) (l : List Resting)
    → entry r.px ord ≡ resting_entry r
    → Ordered ask_worse ls
    → IsSorted ask_less l
    → All (λ x. x.seq < r.seq) l
    → Same ls l
    → Same (insert_level (ask_reached r.px) r.px ord ls) (slice_stable ask_less (l ++ r ∷ []))
rest_asks-Same ord r ls l e o s new same =
    rw
      (
        entries-insert_level ask_worse r.px (ask_reached r.px) (ask-Fits r.px) ord ls o,
        slice_stable-snoc ask_less r l s,
        same,
        e,
      )
      (sym (view-insert_sorted_asks r l new))
