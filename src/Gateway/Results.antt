-- ===== src/Gateway/Results.antt =====
-- services/gateway/internal/store/store.go: the statements on results and baselines of runs.
use quantime.Prelude.{
  ℕ, Bool, true, false, ◌&&◌, Option, none, some, List, [], ◌∷◌, ◌==◌, ltb, if◌then◌else◌,
}
use quantime.Gateway.Store.{Metrics, Run, RunStatus, get_run}
use quantime.Gateway.Baselines.{is_finished}

pub record RunResult : Type 0 where
  pub run_id : ℕ
  pub team_id : ℕ
  pub score : Option ℕ
  pub metrics : Option Metrics
  pub is_baseline : Bool

abbrev pub result_of : Run → RunResult
result_of r = record {
  run_id = r.id;
  team_id = r.team_id;
  score = r.score;
  metrics = r.metrics;
  is_baseline = r.is_baseline;
}

abbrev pub as_result : Option Run → Option RunResult
as_result none = none
as_result (some r) = some (result_of r)

unfoldable pub get_run_result : ℕ → List Run → Option RunResult
unfolding get_run
get_run_result id rows = as_result (get_run id rows)

abbrev pub is_team_baseline : ℕ → Run → Bool
is_team_baseline team r = r.team_id == team && r.is_baseline && is_finished r.status

-- `ORDER BY finished_at DESC LIMIT 1`: NULL comes first; of equals the statement may take any, here the
-- first one.
abbrev pub is_earlier : Option ℕ → Option ℕ → Bool
is_earlier none q = false
is_earlier (some r) none = true
is_earlier (some r) (some q) = ltb r q

abbrev pub latest : Run → Option Run → Run
latest r none = r
latest r (some q) = if is_earlier r.finished_at q.finished_at then q else r

unfoldable pub team_baseline : ℕ → List Run → Option Run
team_baseline team [] = none
team_baseline team (r ∷ rows) =
    let rest = team_baseline team rows in
    if is_team_baseline team r then some (latest r rest) else rest

unfoldable pub get_team_baseline : ℕ → List Run → Option RunResult
unfolding team_baseline
get_team_baseline team rows = as_result (team_baseline team rows)

abbrev pub finish_row : RunStatus → ℕ → ℕ → Metrics → Run → Run
finish_row status now score metrics r = record r {
  status = status;
  finished_at = some now;
  score = some score;
  metrics = some metrics;
}

-- `UPDATE runs … WHERE id = $1`
unfoldable pub update_run : ℕ → (Run → Run) → List Run → List Run
update_run id f [] = []
update_run id f (r ∷ rows) = (if r.id == id then f r else r) ∷ update_run id f rows

unfoldable pub finish_run : ℕ → RunStatus → ℕ → ℕ → Metrics → List Run → List Run
unfolding update_run
finish_run id status now score metrics = update_run id (finish_row status now score metrics)

abbrev pub log_row : ℕ → Run → Run
log_row text r = record r { raw_log = some text }

unfoldable pub update_run_log : ℕ → ℕ → List Run → List Run
unfolding update_run
update_run_log id text = update_run id (log_row text)
