-- ===== src/Gateway/ReleaseGate.antt =====
-- services/gateway/internal: a run is promoted to the baseline and another one compared with it.
use mathlib.Core.Option.{some-injective}
use mathlib.Core.Option
use quantime.Prelude.{
  ==_iff, ℕ, ◌≡◌, ◌≢◌, refl, ap, sym, ◌∙◌, inl, inr, Bool, true, false, not, ◌&&◌, ◌||◌, some, List,
  [], ◌∷◌, ◌==◌, ltb, arith, Bool-cases,
}
use quantime.Gateway.Store.{Metrics, Run, finished, get_run, set_baseline}
use quantime.Gateway.Results.{
  result_of, as_result, get_run_result, team_baseline, get_team_baseline,
}
use quantime.Gateway.Baselines.{marked, get_run-set_baseline, set_baseline_run, promote}
use quantime.Gateway.Promotions.{DistinctIds, team_baseline-set_baseline}
use quantime.Gateway.Regressions.{
  Key, key_p99, key_p99_9, key_p99_99, key_tps, metrics_map, value, checks, is_above, is_below,
  is_worse, is_better, verdict_of, deltas_of, is_regression, regressions_of, Overall, overall_ok,
  overall_regression, Diff, RegressionResponse, diff, diff_of, against, regression_of,
  get_regression,
}

-- Whether a metric of the baseline that is not 0 got worse: more than 5% higher, or lower.
abbrev pub got_higher : ℕ → ℕ → Bool
got_higher b v = not (b == 0) && is_above b v

abbrev pub got_lower : ℕ → ℕ → Bool
got_lower b v = not (b == 0) && is_below b v

abbrev pub got_worse : Metrics → Metrics → Bool
got_worse bm cm =
    got_higher bm.p99 cm.p99
    || (got_higher bm.p99_9 cm.p99_9 || (got_higher bm.p99_99 cm.p99_99 || got_lower bm.tps cm.tps))

-- One check more: the count is positive if this check or a later one is a regression.
counts_more :
    (bm cm : Metrics) (key : Key) (lower : Bool) (rest : List (Key × Bool))
    → ltb 0 (regressions_of (deltas_of bm cm ((key, lower) ∷ rest))) ≡ (
        (not (value key bm == 0) && is_regression (verdict_of lower (value key bm) (value key cm)))
        || ltb 0 (regressions_of (deltas_of bm cm rest)))
unfolding deltas_of regressions_of
counts_more bm cm key lower rest = elim (Bool-cases (value key bm == 0)) [
  | inl zero_base ↦ rw zero_base refl
  | inr based ↦ elim (Bool-cases (is_regression (verdict_of lower (value key bm) (value key cm)))) [
    | inl bad ↦ rw (based, bad) (ground arith)
    | inr good ↦ rw (based, good) refl
  ]
]

regression_iff_worse :
    (lower : Bool) (b v : ℕ) → is_regression (verdict_of lower b v) ≡ is_worse lower b v
regression_iff_worse lower b v = elim (Bool-cases (is_worse lower b v)) [
  | inl bad ↦ rw bad refl
  | inr good ↦ elim (Bool-cases (is_better lower b v)) [
    | inl better ↦ rw (good, better) refl
    | inr same ↦ rw (good, same) refl
  ]
]

higher_check :
    (bm cm : Metrics) (key : Key) (rest : List (Key × Bool)) (later : Bool)
    → ltb 0 (regressions_of (deltas_of bm cm rest)) ≡ later
    → ltb 0 (regressions_of (deltas_of bm cm ((key, true) ∷ rest)))
      ≡ (got_higher (value key bm) (value key cm) || later)
higher_check bm cm key rest later h = ground (
  arith,
  counts_more bm cm key true rest,
  regression_iff_worse true (value key bm) (value key cm),
  h,
)

lower_check :
    (bm cm : Metrics) (key : Key) (rest : List (Key × Bool)) (later : Bool)
    → ltb 0 (regressions_of (deltas_of bm cm rest)) ≡ later
    → ltb 0 (regressions_of (deltas_of bm cm ((key, false) ∷ rest)))
      ≡ (got_lower (value key bm) (value key cm) || later)
lower_check bm cm key rest later h = ground (
  arith,
  counts_more bm cm key false rest,
  regression_iff_worse false (value key bm) (value key cm),
  h,
)

no_checks : (bm cm : Metrics) → ltb 0 (regressions_of (deltas_of bm cm [])) ≡ false
unfolding deltas_of regressions_of
no_checks bm cm = refl

or_false : (b : Bool) → (b || false) ≡ b
or_false true = refl
or_false false = refl

counts-checks :
    (bm cm : Metrics) → ltb 0 (regressions_of (deltas_of bm cm checks)) ≡ got_worse bm cm
counts-checks bm cm = higher_check bm cm key_p99 _ _ (
    higher_check bm cm key_p99_9 _ _ (
      higher_check bm cm key_p99_99 _ _ (
        lower_check bm cm key_tps [] false (no_checks bm cm)
        ∙ or_false (got_lower (value key_tps bm) (value key_tps cm)))))

-- The overall verdict on the metrics.
abbrev pub overall_of : Bool → Overall
overall_of true = overall_regression
overall_of false = overall_ok

-- What getRegression answers about a run and a baseline.
pub record IsCompared (base cur : Run) (r : RegressionResponse) : Type 0 where
  pub answer : Diff
  pub answered : r ≡ diff answer
  pub baseline_is : answer.baseline_run_id ≡ base.id
  pub current_is : answer.current_run_id ≡ cur.id
  pub verdict_is :
      answer.verdict ≡ overall_of (got_worse (metrics_map base.metrics) (metrics_map cur.metrics))

diff_of-verdict :
    (base cur : Run)
    → (diff_of (result_of cur) (result_of base)).verdict
      ≡ overall_of (got_worse (metrics_map base.metrics) (metrics_map cur.metrics))
unfolding diff_of
diff_of-verdict base cur =
    let e = counts-checks (metrics_map base.metrics) (metrics_map cur.metrics) in
    elim (Bool-cases (got_worse (metrics_map base.metrics) (metrics_map cur.metrics))) [
      | inl bad ↦ rw (e, bad) refl
      | inr good ↦ rw (e, good) refl
    ]

diff_of-ids :
    (base cur : Run)
    → ((diff_of (result_of cur) (result_of base)).baseline_run_id ≡ base.id)
      × ((diff_of (result_of cur) (result_of base)).current_run_id ≡ cur.id)
unfolding diff_of
diff_of-ids base cur = (refl, refl)

against-IsCompared :
    (base cur : Run)
    → (base.id == cur.id) ≡ false
    → IsCompared base cur (against (result_of cur) (some (result_of base)))
against-IsCompared base cur other = rw other record {
  answer = diff_of (result_of cur) (result_of base);
  answered = refl;
  baseline_is = (diff_of-ids base cur).0;
  current_is = (diff_of-ids base cur).1;
  verdict_is = diff_of-verdict base cur;
}

ids_apart : (m n : ℕ) → m ≢ n → (m == n) ≡ false
ids_apart m n h = ground (arith, h)

get_run-id : (id : ℕ) (rows : List Run) (r : Run) → get_run id rows ≡ some r → r.id ≡ id
unfolding get_run
get_run-id id [] r h = ground arith
get_run-id id (q ∷ rows) r h = elim (Bool-cases (q.id == id)) [
  | inl same ↦
      ap (λ x. x.id) (sym (some-injective q r (ground (arith, same, h)))) ∙ (==_iff q.id id).0 same
  | inr other ↦ get_run-id id rows r (ground (arith, other, h))
]

-- The answer, from what the two statements on the table give.
get_regression-found :
    (id : ℕ) (rows : List Run) (cur base : Run)
    → get_run id rows ≡ some cur
    → team_baseline cur.team_id rows ≡ some base
    → get_regression true true id rows ≡ against (result_of cur) (some (result_of base))
unfolding get_regression get_run_result get_team_baseline
get_regression-found id rows cur base found is_base =
    ap (λ o. regression_of true (as_result o) rows) found
    ∙ ap (λ o. against (result_of cur) (as_result o)) is_base

marked-member :
    (id team : ℕ) (j : ℕ) (c : Run)
    → c.team_id ≡ team
    → marked id team j c ≡ record c { is_baseline = j == id }
marked-member id team j c e = ground (arith, e)

-- If no two rows have the same id and a finished run is promoted, and both statements on the database
-- succeed, then getRegression on another run of its team compares it with that run: the verdict is
-- "REGRESSION" exactly if p99, p99.9 or p99.99 is more than 5% above the baseline's, or tps more than 5%
-- below it, where the baseline's is not 0.
pub get_regression-set_baseline_run :
    (base id : ℕ) (runs : List Run) (b c : Run)
    → DistinctIds runs
    → get_run base runs ≡ some b
    → b.status ≡ finished
    → get_run id runs ≡ some c
    → c.team_id ≡ b.team_id
    → base ≢ id
    → IsCompared b c (get_regression true true id (set_baseline_run true true base runs).0)
unfolding set_baseline_run promote
get_regression-set_baseline_run base id runs b c distinct found done found_c same_team other =
    let b' = record b { is_baseline = true } in
    let c' = record c { is_baseline = id == base } in
    let table : (set_baseline_run true true base runs).0 ≡ set_baseline base b.team_id runs =
      rw (found, done) refl in
    let is_c : get_run id (set_baseline base b.team_id runs) ≡ some c' =
      get_run-set_baseline base b.team_id id runs
      ∙ ap (Option.map (marked base b.team_id id)) found_c
      ∙ ap some (marked-member base b.team_id id c same_team) in
    let is_b : team_baseline c.team_id (set_baseline base b.team_id runs) ≡ some b' =
      ap (λ t. team_baseline t (set_baseline base b.team_id runs)) same_team
      ∙ team_baseline-set_baseline base runs b distinct found done in
    let apart : (b.id == c.id) ≡ false =
      ids_apart b.id c.id
        (λ e. other (sym (get_run-id base runs b found) ∙ e ∙ get_run-id id runs c found_c)) in
    let w = against-IsCompared b' c' apart in
    let e =
      ap (get_regression true true id) table
      ∙ get_regression-found id (set_baseline base b.team_id runs) c' b' is_c is_b in
    record {
      answer = w.answer;
      answered = e ∙ w.answered;
      baseline_is = w.baseline_is;
      current_is = w.current_is;
      verdict_is = w.verdict_is;
    }
