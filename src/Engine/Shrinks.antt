-- ===== src/Engine/Shrinks.antt =====
-- examples/sample-engine-go/main.go: what `match` and `removeOrder` leave of a side of the book,
-- and where `match` stops, whatever the engine's self-trade policy is.
use quantime.Prelude.{
  ℕ, ◌≡◌, Bool, true, false, ◌||◌, inl, inr, Option, none, some, List, [], ◌∷◌, arith, All,
  Bool-cases, Option-cases, ◌==◌,
}
use quantime.Engine.Types.{RestingOrder, PriceLevel}
use quantime.Engine.Book.{remove_id, remove_from, keep_level, consider, insert_level}
use quantime.Engine.Match.{
  Taker, Progress, Visit, halt, next, visit, fill_maker, match_orders, match_levels, after_level,
  is_done, breaks_at,
}
use quantime.Engine.Levels.{place_level}
use quantime.Engine.Order.{Worse, Ordered, Fits, insert_level-place_level, match_levels-Ordered}

abbrev pub AllPrices : (ℕ → Type 0) → List PriceLevel → Type 0
AllPrices P ls = All (λ m. P m.price_x100) ls

-- No price is new.
pub record Shrunk (worse : Worse) (ls ms : List PriceLevel) : Type 1 where
  pub ordered : Ordered worse ms
  pub prices : (P : ℕ → Type 0) → AllPrices P ls → AllPrices P ms

after_level-AllPrices :
    (P : ℕ → Type 0) (l : PriceLevel) (ls : List PriceLevel)
    (continue : Progress → List PriceLevel × Progress) (r : List RestingOrder × Progress)
    → AllPrices P (l ∷ ls)
    → ((a : Progress) → AllPrices P (continue a).0)
    → AllPrices P (after_level l ls continue r).0
after_level-AllPrices P l ls continue ([], a) h ih = ih a
after_level-AllPrices P l ls continue (r ∷ rs, a) h ih = h

match_levels-AllPrices :
    (P : ℕ → Type 0) (t : Taker) (ls : List PriceLevel)
    → AllPrices P ls
    → (a : Progress) → AllPrices P (match_levels t ls a).0
unfolding match_levels
match_levels-AllPrices P t [] h a = tt
match_levels-AllPrices P t (l ∷ ls) h a =
    elim (Bool-cases (is_done a || breaks_at t l.price_x100)) [
      | inl stop ↦ rw stop h
      | inr go ↦ rw go (
          after_level-AllPrices P l ls (match_levels t ls) (match_orders t l.price_x100 l.orders a)
            h (match_levels-AllPrices P t ls h.1))
    ]

pub match_levels-Shrunk :
    (worse : Worse) (t : Taker) (ls : List PriceLevel) (a : Progress)
    → Ordered worse ls
    → Shrunk worse ls (match_levels t ls a).0
match_levels-Shrunk worse t ls a o = record {
  ordered = match_levels-Ordered worse t ls a o;
  prices = λ P h. match_levels-AllPrices P t ls h a;
}

-- The side after `removeOrder`, which leaves it alone where it returns false.
abbrev pub removed : List PriceLevel → Option (List PriceLevel) → List PriceLevel
removed ls none = ls
removed ls (some ms) = ms

keep_level-Shrunk :
    (worse : Worse) (l : PriceLevel) (os : List RestingOrder) (ls : List PriceLevel)
    → Ordered worse (l ∷ ls)
    → Shrunk worse (l ∷ ls) (keep_level l os ls)
keep_level-Shrunk worse l [] ls o = record { ordered = o.2; prices = λ P h. h.1 }
keep_level-Shrunk worse l (x ∷ os) ls o = record {
  ordered = (λ e. cc, o.1, o.2);
  prices = λ P h. h;
}

consider-Shrunk :
    (worse : Worse) (l : PriceLevel) (ls : List PriceLevel) (q : Option (List PriceLevel))
    → Ordered worse (l ∷ ls)
    → Shrunk worse ls (removed ls q)
    → Shrunk worse (l ∷ ls) (removed (l ∷ ls) (consider l q))
consider-Shrunk worse l ls none o s = record { ordered = o; prices = λ P h. h }
consider-Shrunk worse l ls (some ms) o s = record {
  ordered = (o.0, s.prices (λ p. worse l.price_x100 p ≡ true) o.1, s.ordered);
  prices = λ P h. (h.0, s.prices P h.1);
}

pub remove_from-Shrunk :
    (worse : Worse) (px id : ℕ) (ls : List PriceLevel)
    → Ordered worse ls
    → Shrunk worse ls (removed ls (remove_from px id ls))
unfolding remove_from
remove_from-Shrunk worse px id [] o = record { ordered = tt; prices = λ P h. h }
remove_from-Shrunk worse px id (l ∷ ls) o =
    let later =
      consider-Shrunk worse l ls (remove_from px id ls) o (remove_from-Shrunk worse px id ls o.2) in
    elim (Bool-cases (l.price_x100 == px)) [
      | inl same ↦ elim (Option-cases (remove_id id l.orders)) [
        | inl miss ↦ rw (same, miss) later
        | inr (os, found) ↦ rw (same, found) (keep_level-Shrunk worse l os ls o)
      ]
      | inr other ↦ rw other later
    ]

place_level-AllPrices :
    (P : ℕ → Type 0) (reached : ℕ → Bool) (px : ℕ) (ord : RestingOrder) (ls : List PriceLevel)
    → P px
    → AllPrices P ls
    → AllPrices P (place_level reached px ord ls)
unfolding place_level
place_level-AllPrices P reached px ord [] p h = (p, tt)
place_level-AllPrices P reached px ord (l ∷ ls) p h =
    ground (arith, place_level-AllPrices P reached px ord ls p h.1)

pub insert_level-AllPrices :
    (P : ℕ → Type 0) (worse : Worse) (px : ℕ) (reached : ℕ → Bool)
    → Fits worse px reached
    → (ord : RestingOrder) (ls : List PriceLevel) → Ordered worse ls
    → P px
    → AllPrices P ls
    → AllPrices P (insert_level reached px ord ls)
insert_level-AllPrices P worse px reached fits ord ls o p h =
    rw (insert_level-place_level worse px reached fits ord ls o)
      (place_level-AllPrices P reached px ord ls p h)

-- The loops halt at an order only when nothing remains or the taker is cancelled.
abbrev HaltsDone : Visit → Type 0
HaltsDone (halt r a) = is_done a ≡ true
HaltsDone (next a) = Unit

fill_maker-HaltsDone :
    (t : Taker) (px : ℕ) (r : RestingOrder) (a : Progress) → HaltsDone (fill_maker t px r a)
unfolding fill_maker
fill_maker-HaltsDone t px r a = ground arith

visit-HaltsDone :
    (t : Taker) (px : ℕ) (r : RestingOrder) (a : Progress) → HaltsDone (visit t px r a)
unfolding visit
visit-HaltsDone t px r a = ground (arith, fill_maker-HaltsDone t px r a)

abbrev LeavesDone : List RestingOrder × Progress → Type 0
LeavesDone ([], a) = Unit
LeavesDone (r ∷ rs, a) = is_done a ≡ true

visited-LeavesDone :
    (t : Taker) (px : ℕ) (rs : List RestingOrder) (v : Visit)
    → HaltsDone v
    → ((a : Progress) → LeavesDone (match_orders t px rs a))
    → LeavesDone (elim v as (λ x. List RestingOrder × Progress) [
      | halt r' a' ↦ (r' ∷ rs, a')
      | next a' ↦ match_orders t px rs a'
    ])
visited-LeavesDone t px rs (halt r a) h ih = h
visited-LeavesDone t px rs (next a) h ih = ih a

match_orders-LeavesDone :
    (t : Taker) (px : ℕ) (rs : List RestingOrder) (a : Progress)
    → LeavesDone (match_orders t px rs a)
unfolding match_orders
match_orders-LeavesDone t px [] a = tt
match_orders-LeavesDone t px (r ∷ rs) a =
    visited-LeavesDone t px rs (visit t px r a) (visit-HaltsDone t px r a)
      (match_orders-LeavesDone t px rs)

or_right : (b c : Bool) → (b || c) ≡ true → b ≡ false → c ≡ true
or_right b c h e = rw e at h

-- `match` stops with something left only at a price that it does not accept.
abbrev pub Stops : Taker → List PriceLevel × Progress → Type 0
Stops t ([], a) = Unit
Stops t (l ∷ ls, a) = is_done a ≡ false → breaks_at t l.price_x100 ≡ true

after_level-Stops :
    (t : Taker) (l : PriceLevel) (ls : List PriceLevel)
    (continue : Progress → List PriceLevel × Progress) (r : List RestingOrder × Progress)
    → LeavesDone r
    → ((a : Progress) → Stops t (continue a))
    → Stops t (after_level l ls continue r)
after_level-Stops t l ls continue ([], a) d ih = ih a
after_level-Stops t l ls continue (r ∷ rs, a) d ih = λ e. ground (arith, d, e)

pub match_levels-Stops :
    (t : Taker) (ls : List PriceLevel) (a : Progress) → Stops t (match_levels t ls a)
unfolding match_levels
match_levels-Stops t [] a = tt
match_levels-Stops t (l ∷ ls) a = elim (Bool-cases (is_done a || breaks_at t l.price_x100)) [
  | inl stop ↦ rw stop (or_right (is_done a) (breaks_at t l.price_x100) stop)
  | inr go ↦ rw go (
      after_level-Stops t l ls (match_levels t ls) (match_orders t l.price_x100 l.orders a)
        (match_orders-LeavesDone t l.price_x100 l.orders a) (match_levels-Stops t ls))
]
