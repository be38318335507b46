-- ===== src/Oracle/WellFormed.antt =====
-- services/gateway/internal/validator/validator.go: the invariant of the reference book, and that
-- taking and cancelling keep it.
use quantime.Prelude.{
  ℕ, Bool, ◌≤◌, ◌≡◌, ◌≢◌, refl, inl, inr, List, arith, All, All-map, Bool-cases, Option-cases,
  lookup,
}
use quantime.Go.Sort.{IsSorted}
use quantime.Market.Sweep.{sweep, All-sweep}
use quantime.Oracle.Types.{VOrder, Resting, Book, new_book}
use quantime.Oracle.Book.{
  Taking, drop, remove, is_buy, opposite, bid_less, ask_less, breaks_at, take_loop, enough_fuel,
  cancel_target,
}
use quantime.Oracle.Identity.{Fresh, Apart, own, Fresh-drop, All-drop, drop-IsSorted}
use quantime.Oracle.Refines.{resting_lot, Swept, take_loop-sweep}
use quantime.Oracle.Order.{sweep-IsSorted, bid_less-IgnoresQty, ask_less-IgnoresQty}

-- Both slices are sorted by price and arrival, no object stands in both, and the next `seq` is new.
pub record Kept (bids asks : List Resting) (seq : ℕ) : Type 0 where
  pub bids_sorted : IsSorted bid_less bids
  pub asks_sorted : IsSorted ask_less asks
  pub asks_apart : Apart bids asks
  pub bids_apart : Apart asks bids
  pub bids_below : All (λ x. x.seq ≤ seq) bids
  pub asks_below : All (λ x. x.seq ≤ seq) asks

abbrev pub WellFormed : Book → Type 0
WellFormed b = Kept b.bids b.asks b.seq

pub new_book-WellFormed : WellFormed new_book
unfolding new_book
new_book-WellFormed = record {
  bids_sorted = tt;
  asks_sorted = tt;
  asks_apart = tt;
  bids_apart = tt;
  bids_below = tt;
  asks_below = tt;
}

Apart-drop : (d : ℕ) (xs ys : List Resting) → Apart xs ys → Apart (drop d xs) (drop d ys)
Apart-drop d xs ys h =
    All-drop (λ y. Fresh y.seq (drop d xs)) d ys
      (All-map (λ y. Fresh y.seq xs) (λ y. Fresh y.seq (drop d xs)) (λ y f. Fresh-drop y.seq d xs f)
        ys h)

pub remove-WellFormed : (id seq : ℕ) (b : Book) → WellFormed b → WellFormed (remove id seq b)
unfolding remove
remove-WellFormed id seq b w = record {
  bids_sorted = drop-IsSorted bid_less seq b.bids w.bids_sorted;
  asks_sorted = drop-IsSorted ask_less seq b.asks w.asks_sorted;
  asks_apart = Apart-drop seq b.bids b.asks w.asks_apart;
  bids_apart = Apart-drop seq b.asks b.bids w.bids_apart;
  bids_below = All-drop (λ x. x.seq ≤ b.seq) seq b.bids w.bids_below;
  asks_below = All-drop (λ x. x.seq ≤ b.seq) seq b.asks w.asks_below;
}

pub cancel_target-WellFormed : (t : ℕ) (b : Book) → WellFormed b → WellFormed (cancel_target t b)
unfolding cancel_target
cancel_target-WellFormed t b w = elim (Option-cases (lookup t b.by_id)) [
  | inl e ↦ rw (e, cancel_target) w
  | inr (seq, e) ↦ rw (e, cancel_target) (remove-WellFormed t seq b w)
]

Fresh-sweep :
    (stops : ℕ → Bool) (rem seq : ℕ) (l : List Resting)
    → Fresh seq l
    → Fresh seq (sweep resting_lot stops rem l).1
Fresh-sweep stops rem seq l h = All-sweep resting_lot stops (λ x. x.seq ≢ seq) (λ e q p. p) rem l h

Kept-sweep_asks :
    (stops : ℕ → Bool) (rem : ℕ) (bids asks : List Resting) (seq : ℕ)
    → Kept bids asks seq
    → Kept bids (sweep resting_lot stops rem asks).1 seq
Kept-sweep_asks stops rem bids asks seq k = record {
  bids_sorted = k.bids_sorted;
  asks_sorted = sweep-IsSorted ask_less ask_less-IgnoresQty stops rem asks k.asks_sorted;
  asks_apart =
      All-sweep resting_lot stops (λ y. Fresh y.seq bids) (λ e q p. p) rem asks k.asks_apart;
  bids_apart =
      All-map (λ y. Fresh y.seq asks) (λ y. Fresh y.seq (sweep resting_lot stops rem asks).1)
        (λ y p. Fresh-sweep stops rem y.seq asks p) bids k.bids_apart;
  bids_below = k.bids_below;
  asks_below = All-sweep resting_lot stops (λ x. x.seq ≤ seq) (λ e q p. p) rem asks k.asks_below;
}

Kept-sweep_bids :
    (stops : ℕ → Bool) (rem : ℕ) (bids asks : List Resting) (seq : ℕ)
    → Kept bids asks seq
    → Kept (sweep resting_lot stops rem bids).1 asks seq
Kept-sweep_bids stops rem bids asks seq k = record {
  bids_sorted = sweep-IsSorted bid_less bid_less-IgnoresQty stops rem bids k.bids_sorted;
  asks_sorted = k.asks_sorted;
  asks_apart =
      All-map (λ y. Fresh y.seq bids) (λ y. Fresh y.seq (sweep resting_lot stops rem bids).1)
        (λ y p. Fresh-sweep stops rem y.seq bids p) asks k.asks_apart;
  bids_apart =
      All-sweep resting_lot stops (λ y. Fresh y.seq asks) (λ e q p. p) rem bids k.bids_apart;
  bids_below = All-sweep resting_lot stops (λ x. x.seq ≤ seq) (λ e q p. p) rem bids k.bids_below;
  asks_below = k.asks_below;
}

abbrev pub start : VOrder → Book → Taking
start o b = record { book = b; filled = 0; rem = o.qty }

Apart-own : (o : VOrder) (b : Book) → WellFormed b → Apart (own o b) (opposite o b)
Apart-own o b w = ground arith

-- The whole loop, from a well-formed book.
pub trade-Swept :
    (o : VOrder) (b : Book)
    → WellFormed b
    → let (f, left) = sweep resting_lot (breaks_at o) o.qty (opposite o b) in
      Swept o (start o b) (take_loop (enough_fuel o b) o (start o b)) f left
trade-Swept o b w =
    take_loop-sweep (enough_fuel o b) o (opposite o b) (start o b) refl (Apart-own o b w)
      (omega arith)

Kept-eq :
    (bids bids' asks asks' : List Resting) (seq seq' : ℕ)
    → bids' ≡ bids
    → asks' ≡ asks
    → seq' ≡ seq
    → Kept bids asks seq
    → Kept bids' asks' seq'
Kept-eq bids bids' asks asks' seq seq' e f g k = rw (e, f, g) k

pub Kept-Swept :
    (o : VOrder) (b : Book) (r : Taking) (f : ℕ)
    → WellFormed b
    → Swept o (start o b) r f (sweep resting_lot (breaks_at o) o.qty (opposite o b)).1
    → WellFormed r.book
Kept-Swept o b r f w s = elim (Bool-cases (is_buy o.side)) [
  | inl e ↦
      Kept-eq b.bids r.book.bids (sweep resting_lot (breaks_at o) o.qty b.asks).1 r.book.asks b.seq
        r.book.seq (ground arith) (ground arith) s.seq_kept
        (Kept-sweep_asks (breaks_at o) o.qty b.bids b.asks b.seq w)
  | inr e ↦
      Kept-eq (sweep resting_lot (breaks_at o) o.qty b.bids).1 r.book.bids b.asks r.book.asks b.seq
        r.book.seq (ground arith) (ground arith) s.seq_kept
        (Kept-sweep_bids (breaks_at o) o.qty b.bids b.asks b.seq w)
]
