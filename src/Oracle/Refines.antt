-- ===== src/Oracle/Refines.antt =====
-- services/gateway/internal/validator/validator.go: the matching loop of the reference book is
-- the abstract sweep over the slice that the order trades against.
use quantime.Prelude.{
  ℕ, zero, suc, ◌+◌, ◌-◌, ◌≤◌, ◌<◌, ◌≡◌, refl, Bool-cases, ltb→lt, ltb→le, inl, inr, none, some,
  List, [], ◌∷◌, arith, length, ltb, ◌==◌, ◌||◌,
}
use mathlib.Core.Path.{subst}
use quantime.Market.Sweep.{Lot, sweep, sweep-nil, sweep-stop, sweep-partial, sweep-used}
use quantime.Oracle.Types.{VOrder, Resting}
use quantime.Oracle.Book.{Taking, breaks_at, opposite, take_best, round_at, take_loop, min64}
use quantime.Oracle.Identity.{Fresh, Apart, own, remove_best}

abbrev pub resting_lot : Lot Resting
resting_lot = record { px = λ r. r.px; qty = λ r. r.qty; with_qty = λ r q. record r { qty = q } }

-- The state after the loop, for the slice `left` and the quantity `f` that a sweep gives.
pub record Swept (o : VOrder) (s r : Taking) (f : ℕ) (left : List Resting) : Type 0 where
  pub opposite_left : opposite o r.book ≡ left
  pub own_kept : own o r.book ≡ own o s.book
  pub seq_kept : r.book.seq ≡ s.book.seq
  pub filled_by : r.filled ≡ s.filled + f
  pub rem_by : r.rem ≡ s.rem - f

take_best-used :
    (o : VOrder) (best : Resting) (others : List Resting) (s : Taking)
    → Fresh best.seq (own o s.book)
    → best.qty ≤ s.rem
    → Swept o s (take_best o best others s) best.qty others
unfolding take_best
take_best-used o best others s h le =
    ground
      (arith, remove_best o (record best { qty = best.qty - min64 s.rem best.qty }) others s.book h)

take_best-partial :
    (o : VOrder) (best : Resting) (others : List Resting) (s : Taking)
    → s.rem < best.qty
    → Swept o s (take_best o best others s) s.rem (record best { qty = best.qty - s.rem } ∷ others)
unfolding take_best
take_best-partial o best others s lt = ground arith

take_loop-stop :
    (fuel : ℕ) (o : VOrder) (s : Taking) (l : List Resting)
    → opposite o s.book ≡ l
    → round_at o l s ≡ none
    → take_loop fuel o s ≡ s
unfolding take_loop
take_loop-stop zero o s l e stop = refl
take_loop-stop (suc fuel) o s l e stop = rw (e, take_loop) (rw (stop, take_loop))

take_loop-step :
    (fuel : ℕ) (o : VOrder) (s s' : Taking) (l : List Resting)
    → opposite o s.book ≡ l
    → round_at o l s ≡ some s'
    → take_loop (suc fuel) o s ≡ take_loop fuel o s'
unfolding take_loop
take_loop-step fuel o s s' l e go = rw (e, take_loop) (rw (go, take_loop))

Swept-refl : (o : VOrder) (s : Taking) (l : List Resting) → opposite o s.book ≡ l → Swept o s s 0 l
Swept-refl o s l e = ground arith

Swept-trans :
    (o : VOrder) (s t r : Taking) (q f : ℕ) (l m : List Resting)
    → Swept o s t q l
    → Swept o t r f m
    → Swept o s r (q + f) m
Swept-trans o s t r q f l m a b = ground arith

take_loop-partial :
    (fuel : ℕ) (o : VOrder) (best : Resting) (others : List Resting) (s : Taking)
    → s.rem < best.qty
    → Swept o s
        (take_loop fuel o (take_best o best others s))
        s.rem
        (record best { qty = best.qty - s.rem } ∷ others)
unfolding round_at
take_loop-partial fuel o best others s lt =
    let w = take_best-partial o best others s lt in
    rw (take_loop-stop fuel o (take_best o best others s) _ w.opposite_left (ground arith)) w

-- The loop with more rounds of fuel than the slice has orders.
pub take_loop-sweep :
    (fuel : ℕ) (o : VOrder) (l : List Resting) (s : Taking)
    → opposite o s.book ≡ l
    → Apart (own o s.book) l
    → length l < fuel
    → let (f, left) = sweep resting_lot (breaks_at o) s.rem l in
      Swept o s (take_loop fuel o s) f left
unfolding round_at
take_loop-sweep zero o l s e apart enough = absurd (omega arith)
take_loop-sweep (suc fuel) o [] s e apart enough =
    rw (sweep-nil resting_lot (breaks_at o) s.rem)
      (rw (take_loop-stop (suc fuel) o s [] e refl) (Swept-refl o s [] e))
take_loop-sweep (suc fuel) o (best ∷ others) s e apart enough =
    elim (Bool-cases (s.rem == 0 || breaks_at o best.px)) [
      | inl stop ↦ rw (sweep-stop resting_lot (breaks_at o) s.rem best others stop) (
          rw (take_loop-stop (suc fuel) o s (best ∷ others) e (rw stop))
            (Swept-refl o s (best ∷ others) e))
      | inr go ↦ elim (Bool-cases (ltb s.rem best.qty)) [
        | inl partial ↦ rw (sweep-partial resting_lot (breaks_at o) s.rem best others go partial) (
            rw (take_loop-step fuel o s (take_best o best others s) (best ∷ others) e (rw go))
              (take_loop-partial fuel o best others s (ltb→lt s.rem best.qty partial)))
        | inr used ↦ rw (sweep-used resting_lot (breaks_at o) s.rem best others go used) (
            rw (take_loop-step fuel o s (take_best o best others s) (best ∷ others) e (rw go)) (
              let u = take_best-used o best others s apart.0 (ltb→le s.rem best.qty used) in
              Swept-trans o s (take_best o best others s) _ best.qty _ others _ u (
                subst
                  (λ q.
                    Swept o (take_best o best others s)
                      (take_loop fuel o (take_best o best others s))
                      (sweep resting_lot (breaks_at o) q others).0
                      (sweep resting_lot (breaks_at o) q others).1)
                  u.rem_by
                  (take_loop-sweep fuel o others (take_best o best others s) u.opposite_left
                    (rw u.own_kept apart.1) (omega arith)))))
      ]
    ]
