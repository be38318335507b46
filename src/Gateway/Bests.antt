-- ===== src/Gateway/Bests.antt =====
-- services/telemetry/cmd/main.go, `finalizeRun`, and services/gateway/internal/cache/cache.go, LeaderboardZAdd:
-- what ZADD GT keeps.
use mathlib.Core.Path.{subst}
use mathlib.Core.Option.{some-injective}
use native.Mathlib.Nat.{mul-le-mul_right, le_of_mul-le-mul_right}
use quantime.Prelude.{
  ℕ, ◌*◌, ◌≤◌, ◌<◌, ◌≡◌, ◌≢◌, ◌⊎◌, refl, sym, ◌∙◌, inl, inr, true, false, Option, none, some, List,
  [], ◌∷◌, ◌==◌, lookup, lookup-insert, All, All-map, arith, Bool-cases,
}
use quantime.Telemetry.Scores.{Fraction}
use quantime.Telemetry.Finals.{is_less, higher, zadd_gt}

-- Some run of the team has the score.
abbrev pub Attained : ℕ → Fraction → List (ℕ × Fraction) → Type 0
Attained t f [] = ⊥
Attained t f (k ∷ ks) = ((k.0 ≡ t) × (k.1 ≡ f)) ⊎ Attained t f ks

-- The score is that of a run of the team, and no run of the team has a higher one.
pub record IsBest (t : ℕ) (f : Fraction) (ks : List (ℕ × Fraction)) : Type 0 where
  pub attained : Attained t f ks
  pub none_higher : All (λ k. k.0 ≡ t → is_less f k.1 ≡ false) ks

-- What a sorted set holds after the scores that were added.
pub record Holds (scores ks : List (ℕ × Fraction)) : Type 0 where
  pub best : (t : ℕ) (f : Fraction) → lookup t scores ≡ some f → IsBest t f ks
  pub absent : (t : ℕ) → lookup t scores ≡ none → All (λ k. k.0 ≢ t) ks

abbrev pub Defined : List (ℕ × Fraction) → Type 0
Defined = All (λ k. 0 < k.1.den)

is_less_refl : (f : Fraction) → is_less f f ≡ false
is_less_refl f = ground arith

lt-le : {a b : ℕ} → a < b → a ≤ b
lt-le h = omega (arith, h)

-- k ≤ old < g
is_less_trans :
    (old g k : Fraction)
    → 0 < old.den
    → is_less old g ≡ true
    → is_less old k ≡ false
    → is_less g k ≡ false
is_less_trans old g k d less more =
    let a : k.num * old.den ≤ old.num * k.den = ground (arith, more) in
    let b : old.num * g.den < g.num * old.den = ground (arith, less) in
    let scaled : k.num * g.den * old.den ≤ g.num * k.den * old.den =
      omega (arith, mul-le-mul_right g.den a, mul-le-mul_right k.den (lt-le b)) in
    let c : k.num * g.den ≤ g.num * k.den = le_of_mul-le-mul_right scaled d in ground (arith, c)

Attained-Defined :
    (t : ℕ) (f : Fraction) (ks : List (ℕ × Fraction)) → Defined ks → Attained t f ks → 0 < f.den
Attained-Defined t f [] d a = absurd a
Attained-Defined t f (k ∷ ks) d (inl (here, e)) = subst (λ g. 0 < g.den) e d.0
Attained-Defined t f (k ∷ ks) d (inr later) = Attained-Defined t f ks d.1 later

others_lower :
    (t : ℕ) (f : Fraction) (ks : List (ℕ × Fraction))
    → All (λ k. k.0 ≢ t) ks
    → All (λ k. k.0 ≡ t → is_less f k.1 ≡ false) ks
others_lower t f = All-map _ _ (λ k n e. absurd (n e))

raised :
    (t : ℕ) (old g : Fraction) (ks : List (ℕ × Fraction))
    → 0 < old.den
    → is_less old g ≡ true
    → All (λ k. k.0 ≡ t → is_less old k.1 ≡ false) ks
    → All (λ k. k.0 ≡ t → is_less g k.1 ≡ false) ks
raised t old g ks d less = All-map _ _ (λ k h e. is_less_trans old g k.1 d less (h e)) ks

higher-IsBest :
    (u : ℕ) (g : Fraction) (scores ks : List (ℕ × Fraction)) (o : Option Fraction)
    → Holds scores ks
    → Defined ks
    → lookup u scores ≡ o
    → IsBest u (higher o g) ((u, g) ∷ ks)
higher-IsBest u g scores ks none h d e = record {
  attained = inl (refl, refl);
  none_higher = (λ x. is_less_refl g, others_lower u g ks (h.absent u e));
}
higher-IsBest u g scores ks (some old) h d e =
    let was = h.best u old e in
    elim (Bool-cases (is_less old g)) [
      | inl less ↦ rw less record {
        attained = inl (refl, refl);
        none_higher = (
          λ x. is_less_refl g,
          raised u old g ks (Attained-Defined u old ks d was.attained) less was.none_higher,
        );
      }
      | inr more ↦
          rw more record { attained = inr was.attained; none_higher = (λ x. more, was.none_higher) }
    ]

pub zadd_gt-Holds :
    (u : ℕ) (g : Fraction) (scores ks : List (ℕ × Fraction))
    → Holds scores ks
    → Defined ks
    → Holds (zadd_gt u g scores) ((u, g) ∷ ks)
unfolding zadd_gt
zadd_gt-Holds u g scores ks h d = record {
  best = λ t f e.
      let e' = sym (lookup-insert t u (higher (lookup u scores) g) scores) ∙ e in
      elim (Bool-cases (t == u)) [
        | inl same ↦
            let is_f = some-injective (higher (lookup u scores) g) f (ground (arith, same, e')) in
            let is_u : u ≡ t = ground (arith, same) in
            subst (λ x. IsBest x f ((u, g) ∷ ks)) is_u
              (subst (λ x. IsBest u x ((u, g) ∷ ks)) is_f
                (higher-IsBest u g scores ks (lookup u scores) h d refl))
        | inr other ↦
            let was = h.best t f (ground (arith, other, e')) in
            record {
              attained = inr was.attained;
              none_higher = (λ x. absurd (ground (arith, other, x)), was.none_higher);
            }
      ];
  absent = λ t e.
      let e' = sym (lookup-insert t u (higher (lookup u scores) g) scores) ∙ e in
      elim (Bool-cases (t == u)) [
        | inl same ↦ absurd (ground (arith, same, e'))
        | inr other ↦ (λ x. ground (arith, other, x), h.absent t (ground (arith, other, e')))
      ];
}
