-- ===== src/Analyzer/Breakdown.antt =====
-- services/ai-analyzer/internal/report/generator.go: the score breakdown of GeneratePerformanceReport, with
-- expDecay and sat, on exact fractions in place of floating-point numbers, and what it has to do with the
-- composite score of services/telemetry/cmd/main.go. A percentage of errors above 100 makes a score
-- negative, so that the correctness is a difference.
use quantime.Prelude.{ℕ, ◌+◌, ◌*◌, ◌-◌, ◌≡◌, ◌≤◌, none, some, ◌==◌, ltb, if◌then◌else◌, arith}
use mathlib.Core.Path.{subst}
use quantime.Telemetry.Scores.{
  Fraction, one, percent, math_exp_decay, math_sat, latency_scale, tps_scale, weighted, complement,
  Aggregates, composite, IsMeasured,
}

pub record ReportMetrics : Type 0 where
  pub p99 : Fraction
  pub tps : Fraction
  pub err_pct : Fraction

unfoldable pub exp_decay : Fraction → ℕ → Fraction
exp_decay x k = if x.num == 0 then one else record { num = k * x.den; den = k * x.den + x.num }

unfoldable pub sat : Fraction → ℕ → Fraction
sat x k = if ltb (x.den * k) x.num then one else record { num = x.num; den = x.den * k }

-- (plus - minus) / den
pub record Signed : Type 0 where
  pub plus : ℕ
  pub minus : ℕ
  pub den : ℕ

-- 100 (1 - x/100)
abbrev pub correctness_of : Fraction → Signed
correctness_of x = record { plus = 100 * (100 * x.den); minus = 100 * x.num; den = 100 * x.den }

pub record ScoreBreakdown : Type 0 where
  pub speed_score : Fraction
  pub throughput_score : Fraction
  pub correctness : Signed
  pub composite_score : Signed

-- 0.4 a + 0.4 b + 0.2 c
abbrev pub weighted_signed : Fraction → Fraction → Signed → Signed
weighted_signed a b c = record {
  plus =
      4 * (a.num * (b.den * c.den))
      + 4 * (b.num * (a.den * c.den))
      + 2 * (c.plus * (a.den * b.den));
  minus = 2 * (c.minus * (a.den * b.den));
  den = 10 * (a.den * (b.den * c.den));
}

unfoldable pub score_breakdown : ReportMetrics → ScoreBreakdown
unfolding exp_decay sat
score_breakdown m =
    let speed = percent (exp_decay m.p99 200000000) in
    let throughput = percent (sat m.tps 200000) in
    let correctness = correctness_of m.err_pct in
    record {
      speed_score = speed;
      throughput_score = throughput;
      correctness = correctness;
      composite_score = weighted_signed speed throughput correctness;
    }

-- The same number, cross-multiplied.
abbrev pub Same : Signed → Signed → Type 0
Same s t = s.plus * t.den + t.minus * s.den ≡ t.plus * s.den + s.minus * t.den

abbrev pub signed : Fraction → Signed
signed f = record { plus = f.num; minus = 0; den = f.den }

-- s + t/5
abbrev pub plus_fifth : Signed → Signed → Signed
plus_fifth s t = record {
  plus = s.plus * (5 * t.den) + t.plus * s.den;
  minus = s.minus * (5 * t.den) + t.minus * s.den;
  den = s.den * (5 * t.den);
}

Same-weighted :
    (a b : Fraction) (c : Signed) (o : Fraction)
    → Same (plus_fifth (weighted_signed a b c) (signed o)) (plus_fifth (signed (weighted a b o)) c)
Same-weighted a b c o = grind arith

Same-sum :
    (a b : Fraction) (e g : ℕ)
    → Same
        (signed (weighted a b (record { num = 100 * g; den = g + e })))
        (weighted_signed a b (correctness_of (record { num = 100 * e; den = g + e })))
Same-sum a b e g = grind arith

Same-complement :
    (a b x : Fraction)
    → x.num ≤ x.den
    → Same
        (signed (weighted a b (percent (complement x))))
        (weighted_signed a b (correctness_of (percent x)))
Same-complement a b x share =
    subst
      (λ d.
        Same (signed (weighted a b (record { num = 100 * (x.den - x.num); den = d })))
          (weighted_signed a b (correctness_of (record { num = 100 * x.num; den = d }))))
      (omega (arith, share)) (Same-sum a b x.num (x.den - x.num))

-- The metrics of a run as `finalizeRun` writes them.
abbrev pub metrics_of : Aggregates → ReportMetrics
metrics_of m = record { p99 = m.p99; tps = m.tps; err_pct = percent m.err_rate }

abbrev pub composite_of : Aggregates → Signed
composite_of m = (score_breakdown (metrics_of m)).composite_score

-- For what telemetry measures of a run, the composite score of the report is the run's score if the
-- submission has no score of the oracle; if it has one, the two scores differ by a fifth of what the
-- report's correctness score and the oracle's differ by.
pub score_breakdown-composite :
    (m : Aggregates) (oracle : Fraction)
    → IsMeasured m
    → Same (signed (composite m none)) (composite_of m)
      × Same (plus_fifth (composite_of m) (signed oracle)) (
          plus_fifth
            (signed (composite m (some oracle)))
            (score_breakdown (metrics_of m)).correctness)
unfolding composite score_breakdown math_exp_decay math_sat exp_decay sat
score_breakdown-composite m oracle d =
    let speed = percent (math_exp_decay m.p99 latency_scale) in
    let throughput = percent (math_sat m.tps tps_scale) in
    (
      Same-complement speed throughput m.err_rate d.err_rate_share,
      Same-weighted speed throughput (correctness_of (percent m.err_rate)) oracle,
    )
