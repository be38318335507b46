-- ===== src/Gateway/Judge.antt =====
-- services/gateway/internal/api/handlers.go: the handlers that read a row or a table, and those of the
-- judge console. Whether the database answers is a parameter.
use quantime.Prelude.{ℕ, pos, Bool, Option, none, some, List, [], lookup, map, if◌then◌else◌}
use quantime.Gateway.Store.{Submission, get_submission, Run, get_run, Metrics}
use quantime.Gateway.Leaderboards.{Entry, LeaderboardRow, get_leaderboard}
use quantime.Gateway.Queries.{
  TeamRow, leaderboard, AdminTeamRow, get_all_teams, AdminRunRow, get_all_runs, get_teams_map,
  Tables, reset_platform,
}

-- Statuses 500, 404, 400 and 200.
pub data Answer (A : Type 0) : Type 0 where
  internal_error not_found bad_request : Answer A
  ok : A → Answer A

abbrev pub row_or_404 : {A : Type 0} → Option A → Answer A
row_or_404 none = not_found
row_or_404 (some a) = ok a

module _ (db_answers : Bool) where
  unfoldable pub show_submission : ℕ → Tables → Answer Submission
  unfolding get_submission
  show_submission id t =
      if db_answers then row_or_404 (get_submission id t.submissions) else internal_error

  unfoldable pub show_run : ℕ → Tables → Answer Run
  unfolding get_run
  show_run id t = if db_answers then row_or_404 (get_run id t.runs) else internal_error

  unfoldable pub get_judge_teams : List TeamRow → Tables → Answer (List AdminTeamRow)
  unfolding get_all_teams
  get_judge_teams teams t = if db_answers then ok (get_all_teams teams t.runs) else internal_error

  unfoldable pub get_judge_runs : (ℕ → ℕ) → List TeamRow → Tables → Answer (List AdminRunRow)
  unfolding get_all_runs
  get_judge_runs started_at teams t =
      if db_answers then ok (get_all_runs started_at teams t.runs 100) else internal_error

  -- The tables afterwards, and the answer.
  abbrev pub judge_reset : Tables → Tables × Answer Unit
  judge_reset t = if db_answers then (reset_platform t, ok tt) else (t, internal_error)

-- The weights are logged, and nothing else.
abbrev pub update_weights : Bool → Answer Unit
update_weights decodes = if decodes then ok tt else bad_request

-- What Redis has: the sorted set, at most its first 100 entries, and the metrics of its members, as they
-- decode; none of them if it does not answer.
pub record Cached : Type 0 where
  pub entries : Option (List Entry)
  pub metrics : ℕ → Option Metrics

abbrev pub entries_or_nil : Option (List Entry) → List Entry
entries_or_nil none = []
entries_or_nil (some zs) = zs

abbrev pub members : List Entry → List ℕ
members = map (λ z. z.member)

-- The database answers.
unfoldable pub show_leaderboard : List TeamRow → Cached → Tables → Option (List LeaderboardRow)
unfolding leaderboard get_teams_map lookup
show_leaderboard teams c t =
    let ids = members (entries_or_nil c.entries) in
    let found = get_teams_map ids teams in
    get_leaderboard (λ id. lookup id found) (map c.metrics ids) c.entries
      (some (leaderboard teams t.runs (pos 100)))
