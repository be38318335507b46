-- ===== src/Go/Channel.antt =====
-- Go's buffered channels: a queue of at most `capacity` values. A send in a `select` with a `default` case
-- drops the value when the queue is full; a plain send waits until it is not.
use mathlib.Core.Path.{subst}
use quantime.Prelude.{
  ℕ, suc, ◌+◌, ◌≤◌, ◌≡◌, refl, ap, inl, inr, List, [], ◌∷◌, ◌++◌, append_assoc, arith, ltb, ltb→lt,
  Bool-cases, length, length-append, if◌then◌else◌,
}

-- `n` values of the second list are not in the first one, which is in the same order.
pub data Kept {ℓ} {A : Type ℓ} : ℕ → List A → List A → Type ℓ where
  ended : Kept 0 [] []
  kept : {n : ℕ} {a : A} {xs ys : List A} → Kept n xs ys → Kept n (a ∷ xs) (a ∷ ys)
  lost : {n : ℕ} {a : A} {xs ys : List A} → Kept n xs ys → Kept (suc n) xs (a ∷ ys)

-- The values that wait, and how many were dropped, a number that no program keeps.
pub record Channel {ℓ} (A : Type ℓ) : Type ℓ where
  pub buffer : List A
  pub dropped : ℕ

module _ {ℓ} {A : Type ℓ} where
  abbrev pub make : Channel A
  make = record { buffer = []; dropped = 0 }

  unfoldable pub try_send : ℕ → A → Channel A → Channel A
  try_send capacity a c =
      if ltb (length c.buffer) capacity
      then record c { buffer = c.buffer ++ a ∷ [] }
      else record c { dropped = c.dropped + 1 }

  keep_last : (n : ℕ) (a : A) (xs ys : List A) → Kept n xs ys → Kept n (xs ++ a ∷ []) (ys ++ a ∷ [])
  keep_last _ a _ _ ended = kept ended
  keep_last n a (x ∷ xs) (x' ∷ ys) (kept k) = kept (keep_last n a xs ys k)
  keep_last (suc n) a xs (y ∷ ys) (lost k) = lost (keep_last n a xs ys k)

  lose_last : (n : ℕ) (a : A) (xs ys : List A) → Kept n xs ys → Kept (suc n) xs (ys ++ a ∷ [])
  lose_last _ a _ _ ended = lost ended
  lose_last n a (x ∷ xs) (x' ∷ ys) (kept k) = kept (lose_last n a xs ys k)
  lose_last (suc n) a xs (y ∷ ys) (lost k) = lost (lose_last n a xs ys k)

  Kept-zero : (xs ys : List A) → Kept 0 xs ys → xs ≡ ys
  Kept-zero _ _ ended = refl
  Kept-zero (x ∷ xs) (_ ∷ ys) (kept k) = ap (λ l. x ∷ l) (Kept-zero xs ys k)

-- What was offered to a channel has been delivered, or waits in it, or was dropped.
pub record IsFifo {ℓ} {A : Type ℓ} (capacity : ℕ) (offered delivered : List A) (c : Channel A)
    : Type ℓ where
  pub in_order : Kept c.dropped (delivered ++ c.buffer) offered
  pub bounded : length c.buffer ≤ capacity

pub make-IsFifo {ℓ} : {A : Type ℓ} (capacity : ℕ) → IsFifo capacity [] [] (make {A = A})
make-IsFifo capacity = record { in_order = ended; bounded = omega arith }

module _ {ℓ} {A : Type ℓ} {capacity : ℕ} {offered delivered : List A} where
  pub try_send-IsFifo :
      (a : A) (c : Channel A)
      → IsFifo capacity offered delivered c
      → IsFifo capacity (offered ++ a ∷ []) delivered (try_send capacity a c)
  unfolding try_send
  try_send-IsFifo a c h = elim (Bool-cases (ltb (length c.buffer) capacity)) [
    | inl room ↦ rw room record {
      in_order =
          rw (← append_assoc delivered c.buffer (a ∷ []))
            (keep_last c.dropped a (delivered ++ c.buffer) offered h.in_order);
      bounded =
          omega (arith, length-append c.buffer (a ∷ []), ltb→lt (length c.buffer) capacity room);
    }
    | inr full ↦ rw full record {
      in_order =
          subst (λ n. Kept n (delivered ++ c.buffer) (offered ++ a ∷ [])) (omega arith)
            (lose_last c.dropped a (delivered ++ c.buffer) offered h.in_order);
      bounded = h.bounded;
    }
  ]

  -- The first value that waits is received.
  pub receive-IsFifo :
      (a : A) (rest : List A) (c : Channel A)
      → c.buffer ≡ a ∷ rest
      → IsFifo capacity offered delivered c
      → IsFifo capacity offered (delivered ++ a ∷ []) (record c { buffer = rest })
  receive-IsFifo a rest c e h = record {
    in_order =
        rw (append_assoc delivered (a ∷ []) rest)
          (subst (λ b. Kept c.dropped (delivered ++ b) offered) e h.in_order);
    bounded = omega (arith, h.bounded, ap length e);
  }

  -- Where nothing was dropped, nothing is missing.
  pub IsFifo-whole :
      (c : Channel A)
      → IsFifo capacity offered delivered c
      → c.dropped ≡ 0
      → delivered ++ c.buffer ≡ offered
  IsFifo-whole c h e =
      Kept-zero (delivered ++ c.buffer) offered
        (subst (λ n. Kept n (delivered ++ c.buffer) offered) e h.in_order)
