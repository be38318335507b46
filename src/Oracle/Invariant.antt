-- ===== src/Oracle/Invariant.antt =====
-- services/gateway/internal/validator/validator.go: resting an order, and so `apply`, keeps the
-- invariant of the reference book.
use quantime.Prelude.{
  ℕ, Bool, ◌+◌, ◌<◌, ◌≤◌, ◌≡◌, ◌≢◌, refl, inl, inr, List, [], ◌∷◌, ◌++◌, arith, All, All-map,
  Bool-cases, ltb,
}
use quantime.Go.Sort.{IsSorted, slice_stable, slice_stable-IsSorted, All-slice_stable}
use quantime.Market.Sweep.{sweep}
use quantime.Oracle.Types.{VOrder, Resting, Book, OrderType, limit, market, cancel}
use quantime.Oracle.Book.{
  is_buy, is_limit, opposite, bid_less, ask_less, breaks_at, take_loop, enough_fuel, rest, trade,
  apply_as, apply,
}
use quantime.Oracle.Identity.{Fresh, Apart, Fresh-above}
use quantime.Oracle.Refines.{resting_lot}
use quantime.Oracle.Order.{bid_less-IsWeak, ask_less-IsWeak, bid_less_asym, ask_less_asym}
use quantime.Oracle.WellFormed.{
  Kept, WellFormed, cancel_target-WellFormed, start, trade-Swept, Kept-Swept,
}

pub All-below :
    (seq : ℕ) (l : List Resting) → All (λ x. x.seq ≤ seq) l → All (λ x. x.seq < seq + 1) l
All-below seq l = All-map (λ x. x.seq ≤ seq) (λ x. x.seq < seq + 1) (λ x h. omega arith) l

All-weaken : (seq : ℕ) (l : List Resting) → All (λ x. x.seq ≤ seq) l → All (λ x. x.seq ≤ seq + 1) l
All-weaken seq l = All-map (λ x. x.seq ≤ seq) (λ x. x.seq ≤ seq + 1) (λ x h. omega arith) l

Fresh-next : (seq : ℕ) (l : List Resting) → All (λ x. x.seq ≤ seq) l → Fresh (seq + 1) l
Fresh-next seq l h =
    Fresh-above (seq + 1) l
      (All-map (λ x. x.seq ≤ seq) (λ x. x.seq < seq + 1) (λ x h. omega arith) l h)

-- A new object is in neither slice.
Apart-new :
    (seq : ℕ) (xs ys : List Resting) (r : Resting)
    → r.seq ≡ seq + 1
    → All (λ y. y.seq ≤ seq) ys
    → Apart xs ys
    → All (λ y. (y.seq ≢ r.seq) × Fresh y.seq xs) ys
Apart-new seq xs [] r e h a = tt
Apart-new seq xs (y ∷ ys) r e h a = ((omega arith, a.0), Apart-new seq xs ys r e h.1 a.1)

Fresh-slice_stable :
    (less : Resting → Resting → Bool) (seq : ℕ) (r : Resting) (l : List Resting)
    → IsSorted less l
    → r.seq ≢ seq
    → Fresh seq l
    → Fresh seq (slice_stable less (l ++ r ∷ []))
Fresh-slice_stable less seq r l s n h = All-slice_stable less (λ x. x.seq ≢ seq) r l s n h

Kept-rest_bids :
    (r : Resting) (bids asks : List Resting) (seq : ℕ)
    → r.seq ≡ seq + 1
    → Kept bids asks seq
    → Kept (slice_stable bid_less (bids ++ r ∷ [])) asks (seq + 1)
Kept-rest_bids r bids asks seq e k = record {
  bids_sorted = slice_stable-IsSorted bid_less bid_less-IsWeak bid_less_asym r bids k.bids_sorted;
  asks_sorted = k.asks_sorted;
  asks_apart =
      All-map (λ y. (y.seq ≢ r.seq) × Fresh y.seq bids)
        (λ y. Fresh y.seq (slice_stable bid_less (bids ++ r ∷ [])))
        (λ y p. Fresh-slice_stable bid_less y.seq r bids k.bids_sorted (λ q. p.0 (omega arith)) p.1)
        asks (Apart-new seq bids asks r e k.asks_below k.asks_apart);
  bids_apart =
      All-slice_stable bid_less (λ y. Fresh y.seq asks) r bids k.bids_sorted
        (rw e (Fresh-next seq asks k.asks_below)) k.bids_apart;
  bids_below =
      All-slice_stable bid_less (λ x. x.seq ≤ seq + 1) r bids k.bids_sorted (omega arith)
        (All-weaken seq bids k.bids_below);
  asks_below = All-weaken seq asks k.asks_below;
}

Kept-rest_asks :
    (r : Resting) (bids asks : List Resting) (seq : ℕ)
    → r.seq ≡ seq + 1
    → Kept bids asks seq
    → Kept bids (slice_stable ask_less (asks ++ r ∷ [])) (seq + 1)
Kept-rest_asks r bids asks seq e k = record {
  bids_sorted = k.bids_sorted;
  asks_sorted = slice_stable-IsSorted ask_less ask_less-IsWeak ask_less_asym r asks k.asks_sorted;
  asks_apart =
      All-slice_stable ask_less (λ y. Fresh y.seq bids) r asks k.asks_sorted
        (rw e (Fresh-next seq bids k.bids_below)) k.asks_apart;
  bids_apart =
      All-map (λ y. (y.seq ≢ r.seq) × Fresh y.seq asks)
        (λ y. Fresh y.seq (slice_stable ask_less (asks ++ r ∷ [])))
        (λ y p. Fresh-slice_stable ask_less y.seq r asks k.asks_sorted (λ q. p.0 (omega arith)) p.1)
        bids (Apart-new seq asks bids r e k.bids_below k.bids_apart);
  bids_below = All-weaken seq bids k.bids_below;
  asks_below =
      All-slice_stable ask_less (λ x. x.seq ≤ seq + 1) r asks k.asks_sorted (omega arith)
        (All-weaken seq asks k.asks_below);
}

pub rest-WellFormed : (o : VOrder) (rem : ℕ) (b : Book) → WellFormed b → WellFormed (rest o rem b)
unfolding rest
rest-WellFormed o rem b w =
    let r : Resting = record { id = o.id; px = o.px; qty = rem; seq = b.seq + 1 } in
    elim (Bool-cases (is_buy o.side)) [
      | inl e ↦ rw e (Kept-rest_bids r b.bids b.asks b.seq refl w)
      | inr e ↦ rw e (Kept-rest_asks r b.bids b.asks b.seq refl w)
    ]

trade-WellFormed : (o : VOrder) (b : Book) → WellFormed b → WellFormed (trade o b).0
unfolding trade
trade-WellFormed o b w =
    let s = take_loop (enough_fuel o b) o (start o b) in
    let k =
      Kept-Swept o b s (sweep resting_lot (breaks_at o) o.qty (opposite o b)).0 w
        (trade-Swept o b w) in
    elim (Bool-cases (is_limit o.type)) [
      | inl limited ↦ elim (Bool-cases (ltb 0 s.rem)) [
        | inl more ↦ rw (limited, more) (rest-WellFormed o s.rem s.book k)
        | inr none_left ↦ rw (limited, none_left) k
      ]
      | inr other ↦ rw other k
    ]

apply_as-WellFormed :
    (type : OrderType) (o : VOrder) (b : Book) → WellFormed b → WellFormed (apply_as type o b).0
unfolding apply_as
apply_as-WellFormed cancel o b w = cancel_target-WellFormed o.target_id b w
apply_as-WellFormed limit o b w = trade-WellFormed o b w
apply_as-WellFormed market o b w = trade-WellFormed o b w

-- Every order, cancels included, keeps the book well formed: both slices are sorted by price and
-- arrival, no object stands in both, and the next sequence number is new.
pub apply-WellFormed : (o : VOrder) (b : Book) → WellFormed b → WellFormed (apply o b).0
unfolding apply
apply-WellFormed o b w = apply_as-WellFormed o.type o b w
