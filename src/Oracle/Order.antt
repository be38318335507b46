-- ===== src/Oracle/Order.antt =====
-- services/gateway/internal/validator/validator.go: the slices stay sorted by price, then by
-- arrival, so what stops the matching loop at its best order would stop it at every later one.
use quantime.Prelude.{
  ℕ, ◌≡◌, ◌-◌, inl, inr, true, false, Bool, List, [], ◌∷◌, arith, All, Bool-cases,
}
use quantime.Go.Sort.{IsSorted, IsWeak}
use quantime.Market.Sweep.{sweep, available, IsOrdered}
use quantime.Oracle.Types.{VOrder, Resting}
use quantime.Oracle.Book.{bid_less, ask_less, breaks_at, is_buy}
use quantime.Oracle.Refines.{resting_lot}

pub bid_less-IsWeak : IsWeak bid_less
bid_less-IsWeak x y z h k = ground arith

pub ask_less-IsWeak : IsWeak ask_less
ask_less-IsWeak x y z h k = ground arith

pub bid_less_asym : (x y : Resting) → bid_less x y ≡ true → bid_less y x ≡ false
bid_less_asym x y h = ground arith

pub ask_less_asym : (x y : Resting) → ask_less x y ≡ true → ask_less y x ≡ false
ask_less_asym x y h = ground arith

-- A test that looks at neither quantity keeps the order under a sweep.
module _ (less : Resting → Resting → Bool) where
  abbrev pub IgnoresQty : Type 0
  IgnoresQty =
      (x y : Resting) (q : ℕ)
      → (less y x ≡ false → less (record y { qty = q }) x ≡ false)
        × (less y x ≡ false → less y (record x { qty = q }) ≡ false)

  requantify :
      IgnoresQty
      → (x : Resting) (q : ℕ) (ys : List Resting) → All (λ y. less y x ≡ false) ys
      → All (λ y. less y (record x { qty = q }) ≡ false) ys
  requantify ig x q [] h = tt
  requantify ig x q (y ∷ ys) h = ((ig x y q).1 h.0, requantify ig x q ys h.1)

  pub sweep-IsSorted :
      IgnoresQty
      → (stops : ℕ → Bool) (rem : ℕ) (es : List Resting) → IsSorted less es
      → IsSorted less (sweep resting_lot stops rem es).1
  unfolding sweep
  sweep-IsSorted ig stops rem [] h = tt
  sweep-IsSorted ig stops rem (e ∷ es) h =
      ground
        (arith, sweep-IsSorted ig stops (rem - e.qty) es h.1, requantify ig e (e.qty - rem) es h.0)

pub bid_less-IgnoresQty : IgnoresQty bid_less
bid_less-IgnoresQty x y q = (λ h. ground arith, λ h. ground arith)

pub ask_less-IgnoresQty : IgnoresQty ask_less
ask_less-IgnoresQty x y q = (λ h. ground arith, λ h. ground arith)

-- Every later ask costs at least as much.
asks_beyond :
    (o : VOrder) (x : Resting) (ys : List Resting)
    → is_buy o.side ≡ true
    → breaks_at o x.px ≡ true
    → All (λ y. ask_less y x ≡ false) ys
    → available resting_lot (breaks_at o) ys ≡ 0
unfolding available
asks_beyond o x [] b h k = omega arith
asks_beyond o x (y ∷ ys) b h k = ground (arith, asks_beyond o x ys b h k.1)

bids_beyond :
    (o : VOrder) (x : Resting) (ys : List Resting)
    → is_buy o.side ≡ false
    → breaks_at o x.px ≡ true
    → All (λ y. bid_less y x ≡ false) ys
    → available resting_lot (breaks_at o) ys ≡ 0
unfolding available
bids_beyond o x [] b h k = omega arith
bids_beyond o x (y ∷ ys) b h k = ground (arith, bids_beyond o x ys b h k.1)

pub asks-IsOrdered :
    (o : VOrder) (ys : List Resting)
    → is_buy o.side ≡ true
    → IsSorted ask_less ys
    → IsOrdered resting_lot (breaks_at o) ys
asks-IsOrdered o [] b h = tt
asks-IsOrdered o (y ∷ ys) b h = (
  elim (Bool-cases (breaks_at o y.px)) [ inl e ↦ inr (asks_beyond o y ys b e h.0) | inr e ↦ inl e ],
  asks-IsOrdered o ys b h.1,
)

pub bids-IsOrdered :
    (o : VOrder) (ys : List Resting)
    → is_buy o.side ≡ false
    → IsSorted bid_less ys
    → IsOrdered resting_lot (breaks_at o) ys
bids-IsOrdered o [] b h = tt
bids-IsOrdered o (y ∷ ys) b h = (
  elim (Bool-cases (breaks_at o y.px)) [ inl e ↦ inr (bids_beyond o y ys b e h.0) | inr e ↦ inl e ],
  bids-IsOrdered o ys b h.1,
)
