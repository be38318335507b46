-- ===== src/Telemetry/Scores.antt =====
-- services/telemetry/cmd/main.go: the scores of `finalizeRun`, mathExpDecay and mathSat, on exact
-- fractions in place of floating-point numbers.
use native.Mathlib.Nat.{mul-le-mul_right, mul-pos}
use quantime.Prelude.{
  ℕ, ◌+◌, ◌*◌, ◌-◌, ◌≤◌, ◌<◌, inl, inr, Option, none, some, ◌==◌, ltb, if◌then◌else◌, arith,
  Bool-cases, ltb→le,
}

pub record Fraction : Type 0 where
  pub num : ℕ
  pub den : ℕ

abbrev pub one : Fraction
one = record { num = 1; den = 1 }

abbrev pub percent : Fraction → Fraction
percent f = record { num = 100 * f.num; den = f.den }

-- 1 / (1 + x/k)
unfoldable pub math_exp_decay : Fraction → ℕ → Fraction
math_exp_decay x k = if x.num == 0 then one else record { num = k * x.den; den = k * x.den + x.num }

unfoldable pub math_sat : Fraction → ℕ → Fraction
math_sat x k = if ltb (x.den * k) x.num then one else record { num = x.num; den = x.den * k }

abbrev pub latency_scale : ℕ
latency_scale = 200000000

abbrev pub tps_scale : ℕ
tps_scale = 200000

-- 1 - x, for a rate.
abbrev pub complement : Fraction → Fraction
complement x = record { num = x.den - x.num; den = x.den }

-- The oracle's score in percent, or what the error rate leaves.
abbrev pub correctness_score : Option Fraction → Fraction → Fraction
correctness_score none err_rate = percent (complement err_rate)
correctness_score (some oracle) err_rate = oracle

-- 0.4 a + 0.4 b + 0.2 c
abbrev pub weighted : Fraction → Fraction → Fraction → Fraction
weighted a b c = record {
  num =
      4 * (a.num * (b.den * c.den)) + 4 * (b.num * (a.den * c.den)) + 2 * (c.num * (a.den * b.den));
  den = 10 * (a.den * (b.den * c.den));
}

-- What the query gives and the score reads; the other percentiles are only passed on.
pub record Aggregates : Type 0 where
  pub p99 : Fraction
  pub tps : Fraction
  pub err_rate : Fraction

unfoldable pub composite : Aggregates → Option Fraction → Fraction
unfolding math_exp_decay math_sat
composite m oracle =
    weighted (percent (math_exp_decay m.p99 latency_scale)) (percent (math_sat m.tps tps_scale))
      (correctness_score oracle m.err_rate)

-- A percentage: at most 100, over a denominator that is not 0.
pub record IsPercentage (f : Fraction) : Type 0 where
  pub defined : 0 < f.den
  pub at_most : f.num ≤ 100 * f.den

decay-IsPercentage :
    (x : Fraction) → 0 < x.den → IsPercentage (percent (math_exp_decay x latency_scale))
unfolding math_exp_decay
decay-IsPercentage x d = elim (Bool-cases (x.num == 0)) [
  | inl none_at_all ↦ rw none_at_all record { defined = omega arith; at_most = omega arith }
  | inr late ↦ rw late record { defined = omega (arith, d); at_most = omega arith }
]

sat-IsPercentage : (x : Fraction) → 0 < x.den → IsPercentage (percent (math_sat x tps_scale))
unfolding math_sat
sat-IsPercentage x d = elim (Bool-cases (ltb (x.den * tps_scale) x.num)) [
  | inl over ↦ rw over record { defined = omega arith; at_most = omega arith }
  | inr under ↦ rw under record {
    defined = omega (arith, d);
    at_most = omega (arith, ltb→le (x.den * tps_scale) x.num under);
  }
]

weighted-IsPercentage :
    (a b c : Fraction)
    → IsPercentage a
    → IsPercentage b
    → IsPercentage c
    → IsPercentage (weighted a b c)
weighted-IsPercentage a b c pa pb pc = record {
  defined = omega (arith, mul-pos pa.defined (mul-pos pb.defined pc.defined));
  at_most = omega (
    arith,
    mul-le-mul_right (b.den * c.den) pa.at_most,
    mul-le-mul_right (a.den * c.den) pb.at_most,
    mul-le-mul_right (a.den * b.den) pc.at_most,
  );
}

-- What the query gives: denominators that are not 0, and a share of errors.
pub record IsMeasured (m : Aggregates) : Type 0 where
  pub p99_defined : 0 < m.p99.den
  pub tps_defined : 0 < m.tps.den
  pub err_rate_defined : 0 < m.err_rate.den
  pub err_rate_share : m.err_rate.num ≤ m.err_rate.den

abbrev pub IsOracle : Option Fraction → Type 0
IsOracle none = Unit
IsOracle (some f) = IsPercentage f

correctness-IsPercentage :
    (oracle : Option Fraction) (m : Aggregates)
    → IsOracle oracle
    → IsMeasured m
    → IsPercentage (correctness_score oracle m.err_rate)
correctness-IsPercentage none m h d = record { defined = d.err_rate_defined; at_most = omega arith }
correctness-IsPercentage (some f) m h d = h

-- The composite score is at most 100, for every measurement and every percentage of the oracle.
pub composite-IsPercentage :
    (m : Aggregates) (oracle : Option Fraction)
    → IsMeasured m
    → IsOracle oracle
    → IsPercentage (composite m oracle)
unfolding composite
composite-IsPercentage m oracle d h =
    weighted-IsPercentage (percent (math_exp_decay m.p99 latency_scale))
      (percent (math_sat m.tps tps_scale)) (correctness_score oracle m.err_rate)
      (decay-IsPercentage m.p99 d.p99_defined) (sat-IsPercentage m.tps d.tps_defined)
      (correctness-IsPercentage oracle m h d)
