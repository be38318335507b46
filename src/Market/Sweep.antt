-- ===== src/Market/Sweep.antt =====
-- Taking from one side of a book: lots are used up in order until the quantity is met or the
-- price test fails.
use quantime.Prelude.{
  ℕ, ◌+◌, ◌-◌, ◌≤◌, min, ◌≡◌, ◌≢◌, ◌⊎◌, refl, Bool-cases, inl, inr, Bool, true, false, ◌||◌, List,
  [], ◌∷◌, ◌++◌, arith, All, ltb, ◌==◌, if◌then◌else◌,
}
use native.Mathlib.Nat.{add_assoc}

pub record Lot {ℓ} (A : Type ℓ) : Type ℓ where
  pub px : A → ℕ
  pub qty : A → ℕ
  pub with_qty : A → ℕ → A

module _ {ℓ} {A : Type ℓ} (L : Lot A) (stops : ℕ → Bool) where
  open L use {px, qty, with_qty}

  -- What is taken of `rem`, and the lots that are left.
  unfoldable pub sweep : ℕ → List A → ℕ × List A
  sweep rem [] = (0, [])
  sweep rem (e ∷ es) =
      let (f, left) = sweep (rem - qty e) es in
      if rem == 0 || stops (px e)
      then (0, e ∷ es)
      else if ltb rem (qty e)
      then (rem, with_qty e (qty e - rem) ∷ es)
      else (qty e + f, left)

  -- The quantity at prices where the test does not stop, wherever it stands.
  unfoldable pub available : List A → ℕ
  available [] = 0
  available (e ∷ es) = (if stops (px e) then 0 else qty e) + available es

  -- Behind a price that stops there is nothing that would be taken.
  abbrev pub IsOrdered : List A → Type 0
  IsOrdered [] = Unit
  IsOrdered (e ∷ es) = ((stops (px e) ≡ false) ⊎ (available es ≡ 0)) × IsOrdered es

  pub sweep_filled :
      (rem : ℕ) (es : List A) → IsOrdered es → (sweep rem es).0 ≡ min rem (available es)
  unfolding sweep available
  sweep_filled rem [] h = omega arith
  sweep_filled rem (e ∷ es) h = ground (arith, sweep_filled (rem - qty e) es h.1)

  pub sweep-nil : (rem : ℕ) → sweep rem [] ≡ (0, [])
  unfolding sweep
  sweep-nil rem = refl

  pub sweep-stop :
      (rem : ℕ) (e : A) (es : List A)
      → (rem == 0 || stops (px e)) ≡ true
      → sweep rem (e ∷ es) ≡ (0, e ∷ es)
  unfolding sweep
  sweep-stop rem e es h = rw h

  pub sweep-partial :
      (rem : ℕ) (e : A) (es : List A)
      → (rem == 0 || stops (px e)) ≡ false
      → ltb rem (qty e) ≡ true
      → sweep rem (e ∷ es) ≡ (rem, with_qty e (qty e - rem) ∷ es)
  unfolding sweep
  sweep-partial rem e es h k = rw (h, k)

  pub sweep-used :
      (rem : ℕ) (e : A) (es : List A)
      → (rem == 0 || stops (px e)) ≡ false
      → ltb rem (qty e) ≡ false
      → let (f, left) = sweep (rem - qty e) es in sweep rem (e ∷ es) ≡ (qty e + f, left)
  unfolding sweep
  sweep-used rem e es h k = rw (h, k)

  pub sweep_le : (rem : ℕ) (es : List A) → (sweep rem es).0 ≤ rem
  unfolding sweep
  sweep_le rem [] = omega arith
  sweep_le rem (e ∷ es) = ground (arith, sweep_le (rem - qty e) es)

  pub sweep_zero : (es : List A) → sweep 0 es ≡ (0, es)
  unfolding sweep
  sweep_zero [] = refl
  sweep_zero (e ∷ es) = refl

  unfoldable pub total : List A → ℕ
  total [] = 0
  total (e ∷ es) = qty e + total es

  pub total-append : (xs ys : List A) → total (xs ++ ys) ≡ total xs + total ys
  unfolding total
  total-append [] ys = omega arith
  total-append (x ∷ xs) ys = omega (arith, total-append xs ys)

  -- A property that does not look at the quantity survives.
  pub All-sweep {κ} :
      (P : A → Type κ) (keep : (e : A) (q : ℕ) → P e → P (with_qty e q)) (rem : ℕ) (es : List A)
      → All P es
      → All P (sweep rem es).1
  unfolding sweep
  All-sweep P keep rem [] h = tt
  All-sweep P keep rem (e ∷ es) h =
      ground (arith, All-sweep P keep (rem - qty e) es h.1, keep e (qty e - rem) h.0)

  -- What is left of such a part means that nothing is left to take.
  pub sweep_exhausted :
      (rem : ℕ) (xs : List A)
      → All (λ x. stops (px x) ≡ false) xs
      → (sweep rem xs).1 ≢ []
      → (sweep rem xs).0 ≡ rem
  unfolding sweep
  sweep_exhausted rem [] h n = absurd (n refl)
  sweep_exhausted rem (x ∷ xs) h n = ground (arith, sweep_exhausted (rem - qty x) xs h.1)

stop_zero : (rem : ℕ) (b : Bool) → b ≡ false → (rem == 0 || b) ≡ true → rem ≡ 0
stop_zero rem b h e = ground arith

sub_self : (n : ℕ) → n - n ≡ 0
sub_self n = omega arith

sub_sub : (a b c : ℕ) → a - (b + c) ≡ a - b - c
sub_sub a b c = omega arith

module _ {A : Type 0} (L : Lot A) (stops : ℕ → Bool) where
  -- A first part at prices that do not stop the loop is swept on its own, then the second part.
  pub sweep-append :
      (rem : ℕ) (xs ys : List A)
      → All (λ x. stops (L.px x) ≡ false) xs
      → let (f, l) = sweep L stops rem xs in
        let (g, m) = sweep L stops (rem - f) ys in sweep L stops rem (xs ++ ys) ≡ (f + g, l ++ m)
  sweep-append rem [] ys h = rw (sweep-nil L stops rem) (ground arith)
  sweep-append rem (x ∷ xs) ys h = elim (Bool-cases (rem == 0 || stops (L.px x))) [
    | inl stop ↦ rw (
      stop_zero rem (stops (L.px x)) h.0 stop,
      sweep_zero L stops (x ∷ xs ++ ys),
      sweep_zero L stops (x ∷ xs),
      sweep_zero L stops ys,
    )
    | inr go ↦ elim (Bool-cases (ltb rem (L.qty x))) [
      | inl partial ↦
          rw
            (
              sweep-partial L stops rem x (xs ++ ys) go partial,
              sweep-partial L stops rem x xs go partial,
              sub_self rem,
              sweep_zero L stops ys,
            )
            (ground arith)
      | inr used ↦ rw (
        sweep-used L stops rem x (xs ++ ys) go used,
        sweep-used L stops rem x xs go used,
        sweep-append (rem - L.qty x) xs ys h.1,
        sub_sub rem (L.qty x) (sweep L stops (rem - L.qty x) xs).0,
        add_assoc (L.qty x) (sweep L stops (rem - L.qty x) xs).0,
      )
    ]
  ]
