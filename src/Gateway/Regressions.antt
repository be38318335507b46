-- ===== src/Gateway/Regressions.antt =====
-- services/gateway/internal/api/handlers.go: getRegression and cancelRun. The 5% band is compared
-- exactly, without the rounding of floating-point numbers; `deltaPct` and the difference of the scores are
-- left as their two terms. Whether the database and the bus answer is a parameter.
use quantime.Prelude.{
  ℕ, ◌+◌, ◌*◌, Bool, true, false, not, ◌&&◌, ◌||◌, Option, none, some, List, [], ◌∷◌, ◌==◌, ltb,
  if◌then◌else◌,
}
use quantime.Gateway.Store.{Metrics, Run}
use quantime.Gateway.Results.{RunResult, get_run_result, get_team_baseline}
use quantime.Gateway.Runs.{Response, accepted, internal_error}

pub data Key : Type 0 where
  key_p99 key_p99_9 key_p99_99 key_tps : Key

abbrev pub no_metrics : Metrics
no_metrics = record {
  p50 = 0;
  p90 = 0;
  p99 = 0;
  p99_9 = 0;
  p99_99 = 0;
  max = 0;
  tps = 0;
  err_pct = 0;
}

-- `json.Unmarshal` into an empty map.
abbrev pub metrics_map : Option Metrics → Metrics
metrics_map none = no_metrics
metrics_map (some m) = m

abbrev pub value : Key → Metrics → ℕ
value key_p99 m = m.p99
value key_p99_9 m = m.p99_9
value key_p99_99 m = m.p99_99
value key_tps m = m.tps

-- A key and `betterIsLower`.
abbrev pub checks : List (Key × Bool)
checks = (key_p99, true) ∷ (key_p99_9, true) ∷ (key_p99_99, true) ∷ (key_tps, false) ∷ []

pub data Verdict : Type 0 where
  neutral regression improvement : Verdict

-- `v > b*(1+threshold)` and `v < b*(1-threshold)`
abbrev pub is_above : ℕ → ℕ → Bool
is_above b v = ltb (b * 105) (v * 100)

abbrev pub is_below : ℕ → ℕ → Bool
is_below b v = ltb (v * 100) (b * 95)

abbrev pub is_worse : Bool → ℕ → ℕ → Bool
is_worse lower b v = (lower && is_above b v) || (not lower && is_below b v)

abbrev pub is_better : Bool → ℕ → ℕ → Bool
is_better lower b v = (lower && is_below b v) || (not lower && is_above b v)

abbrev pub verdict_of : Bool → ℕ → ℕ → Verdict
verdict_of lower b v =
    if is_worse lower b v then regression else if is_better lower b v then improvement else neutral

pub record Delta : Type 0 where
  pub metric : Key
  pub baseline : ℕ
  pub current : ℕ
  pub verdict : Verdict

abbrev pub delta_of : Key → Bool → ℕ → ℕ → Delta
delta_of key lower b v = record {
  metric = key;
  baseline = b;
  current = v;
  verdict = verdict_of lower b v;
}

-- The loop over the checks.
unfoldable pub deltas_of : Metrics → Metrics → List (Key × Bool) → List Delta
deltas_of bm cm [] = []
deltas_of bm cm ((key, lower) ∷ rest) =
    let later = deltas_of bm cm rest in
    if value key bm == 0 then later else delta_of key lower (value key bm) (value key cm) ∷ later

abbrev pub is_regression : Verdict → Bool
is_regression regression = true
is_regression neutral = false
is_regression improvement = false

unfoldable pub regressions_of : List Delta → ℕ
regressions_of [] = 0
regressions_of (d ∷ ds) =
    let rest = regressions_of ds in if is_regression d.verdict then 1 + rest else rest

pub data Overall : Type 0 where
  overall_ok overall_regression : Overall

pub record Diff : Type 0 where
  pub baseline_run_id : ℕ
  pub current_run_id : ℕ
  pub deltas : List Delta
  pub score_delta : Option (ℕ × ℕ)
  pub regressions : ℕ
  pub verdict : Overall

pub data RegressionResponse : Type 0 where
  failed_query no_such_run no_baseline : RegressionResponse
  diff : Diff → RegressionResponse

abbrev pub score_terms : Option ℕ → Option ℕ → Option (ℕ × ℕ)
score_terms none base = none
score_terms (some c) none = none
score_terms (some c) (some b) = some (c, b)

unfoldable pub diff_of : RunResult → RunResult → Diff
unfolding deltas_of regressions_of
diff_of cur base =
    let deltas = deltas_of (metrics_map base.metrics) (metrics_map cur.metrics) checks in
    let n = regressions_of deltas in
    record {
      baseline_run_id = base.run_id;
      current_run_id = cur.run_id;
      deltas = deltas;
      score_delta = score_terms cur.score base.score;
      regressions = n;
      verdict = if ltb 0 n then overall_regression else overall_ok;
    }

abbrev pub against : RunResult → Option RunResult → RegressionResponse
against cur none = no_baseline
against cur (some base) = if base.run_id == cur.run_id then no_baseline else diff (diff_of cur base)

abbrev pub regression_of : Bool → Option RunResult → List Run → RegressionResponse
regression_of baseline_answers none runs = no_such_run
regression_of baseline_answers (some cur) runs =
    let r = against cur (get_team_baseline cur.team_id runs) in
    if baseline_answers then r else failed_query

unfoldable pub get_regression : Bool → Bool → ℕ → List Run → RegressionResponse
unfolding get_run_result get_team_baseline diff_of
get_regression db_answers baseline_answers id runs =
    let r = regression_of baseline_answers (get_run_result id runs) runs in
    if db_answers then r else failed_query

-- `cancelRun`: the run of the command that is published, and the response.
abbrev pub cancel_run : Bool → ℕ → Option ℕ × Response
cancel_run published id = if published then (some id, accepted id) else (none, internal_error)
