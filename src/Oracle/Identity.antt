-- ===== src/Oracle/Identity.antt =====
-- services/gateway/internal/validator/validator.go: which objects the slices of the reference
-- book hold, and what `drop` and `remove` do to them.
use quantime.Prelude.{ℕ, ◌≡◌, ◌≢◌, refl, List, [], ◌∷◌, Bool, false, ◌<◌, arith, All, if◌then◌else◌}
use quantime.Go.Sort.{IsSorted}
use quantime.Oracle.Types.{VOrder, Resting, Book}
use quantime.Oracle.Book.{drop, remove, is_buy, opposite, set_opposite}

-- No object of the slice is the one with this `seq`.
abbrev pub Fresh : ℕ → List Resting → Type 0
Fresh seq l = All (λ x. x.seq ≢ seq) l

abbrev pub Distinct : List Resting → Type 0
Distinct [] = Unit
Distinct (x ∷ xs) = Fresh x.seq xs × Distinct xs

-- No object stands in both slices.
abbrev pub Apart : List Resting → List Resting → Type 0
Apart xs ys = All (λ y. Fresh y.seq xs) ys

pub drop-Fresh : (seq : ℕ) (l : List Resting) → Fresh seq l → drop seq l ≡ l
unfolding drop
drop-Fresh seq [] h = refl
drop-Fresh seq (x ∷ xs) h = ground (arith, drop-Fresh seq xs h.1)

pub drop_head : (x : Resting) (xs : List Resting) → drop x.seq (x ∷ xs) ≡ xs
unfolding drop
drop_head x xs = ground arith

-- The slice that an order would rest in.
abbrev pub own : VOrder → Book → List Resting
own o b = if is_buy o.side then b.bids else b.asks

-- Removing the head of the opposite slice leaves its tail, and the other slice as it was.
pub remove_best :
    (o : VOrder) (best : Resting) (others : List Resting) (b : Book)
    → Fresh best.seq (own o b)
    → let b' = remove best.id best.seq (set_opposite o b (best ∷ others)) in
      (opposite o b' ≡ others) × (own o b' ≡ own o b) × (b'.seq ≡ b.seq)
unfolding remove
remove_best o best others b h =
    ground (arith, drop_head best others, drop-Fresh best.seq b.bids, drop-Fresh best.seq b.asks)

pub Fresh-above : (seq : ℕ) (l : List Resting) → All (λ x. x.seq < seq) l → Fresh seq l
Fresh-above seq [] h = tt
Fresh-above seq (x ∷ xs) h = (omega arith, Fresh-above seq xs h.1)

pub Fresh-drop : (seq d : ℕ) (l : List Resting) → Fresh seq l → Fresh seq (drop d l)
unfolding drop
Fresh-drop seq d [] h = tt
Fresh-drop seq d (x ∷ xs) h = ground (arith, Fresh-drop seq d xs h.1)

pub All-drop {κ} : (P : Resting → Type κ) (d : ℕ) (l : List Resting) → All P l → All P (drop d l)
unfolding drop
All-drop P d [] h = tt
All-drop P d (x ∷ xs) h = ground (arith, All-drop P d xs h.1)

pub drop-IsSorted :
    (less : Resting → Resting → Bool) (d : ℕ) (l : List Resting)
    → IsSorted less l
    → IsSorted less (drop d l)
unfolding drop
drop-IsSorted less d [] h = tt
drop-IsSorted less d (x ∷ xs) h =
    ground (arith, drop-IsSorted less d xs h.1, All-drop (λ y. less y x ≡ false) d xs h.0)
