-- ===== src/Gateway/Queries.antt =====
-- services/gateway/internal/store/store.go: the queries of the leaderboard and of the judge console, and
-- ResetPlatform. A query that orders its rows gives equal ones in the order of the table, where the
-- statement may give them in any.
use quantime.Prelude.{
  ℕ, zero, suc, ◌+◌, ℤ, pos, negsuc, Bool, true, false, ◌&&◌, ◌||◌, Option, none, some, List, [],
  ◌∷◌, ◌==◌, ltb, if◌then◌else◌, map, take, insert,
}
use quantime.Go.Sort.{slice_stable}
use quantime.Gateway.Store.{Metrics, Run, RunStatus, Submissions}
use quantime.Gateway.Baselines.{is_finished}
use quantime.Gateway.Leaderboards.{Team, LeaderboardRow}

-- A row of `teams`; the members are only passed on.
pub record TeamRow : Type 0 where
  pub id : ℕ
  pub name : ℕ
  pub region : Option ℕ

-- `COALESCE(x, 0)`, and `COALESCE(x, '')` with 0 for the empty text.
abbrev pub or_zero : Option ℕ → ℕ
or_zero none = 0
or_zero (some n) = n

abbrev pub is_run_of : ℕ → Run → Bool
is_run_of team r = r.team_id == team && is_finished r.status

-- `score DESC NULLS LAST`
abbrev pub is_below : Option ℕ → Option ℕ → Bool
is_below none none = false
is_below none (some b) = true
is_below (some a) none = false
is_below (some a) (some b) = ltb a b

abbrev pub better : Run → Option Run → Run
better r none = r
better r (some q) = if is_below r.score q.score then q else r

-- `SELECT DISTINCT ON (team_id) … WHERE status = 'finished' ORDER BY team_id, score DESC NULLS LAST`
unfoldable pub best_run : ℕ → List Run → Option Run
best_run team [] = none
best_run team (r ∷ rows) =
    let rest = best_run team rows in if is_run_of team r then some (better r rest) else rest

-- A team, its best run, and `COALESCE(b.score, 0)`.
pub record Ranked : Type 0 where
  pub team : TeamRow
  pub best : Option Run
  pub score : ℕ

abbrev pub score_of : Option Run → ℕ
score_of none = 0
score_of (some r) = or_zero r.score

unfoldable pub ranked : List Run → TeamRow → Ranked
unfolding best_run
ranked runs t =
    let best = best_run t.id runs in record { team = t; best = best; score = score_of best }

abbrev pub metrics_of : Option Run → Option Metrics
metrics_of none = none
metrics_of (some r) = r.metrics

abbrev pub metric : (Metrics → ℕ) → Option Metrics → ℕ
metric column none = 0
metric column (some m) = column m

abbrev pub finished_of : Option Run → Option ℕ
finished_of none = none
finished_of (some r) = r.finished_at

abbrev pub scan_row : Ranked → LeaderboardRow
scan_row x = record {
  team_id = x.team.id;
  name = x.team.name;
  region = or_zero x.team.region;
  score = record { num = x.score; den = 1 };
  p50 = metric (λ m. m.p50) (metrics_of x.best);
  p99 = metric (λ m. m.p99) (metrics_of x.best);
  tps = metric (λ m. m.tps) (metrics_of x.best);
  err_pct = metric (λ m. m.err_pct) (metrics_of x.best);
  last_run = or_zero (finished_of x.best);
}

-- `if limit <= 0 { limit = 50 }`
abbrev pub limit_or_50 : ℤ → ℕ
limit_or_50 (pos zero) = 50
limit_or_50 (pos (suc n)) = suc n
limit_or_50 (negsuc n) = 50

unfoldable pub leaderboard : List TeamRow → List Run → ℤ → List LeaderboardRow
unfolding ranked slice_stable
leaderboard teams runs limit =
    let rows = slice_stable (λ a b. ltb b.score a.score) (map (ranked runs) teams) in
    map scan_row (take rows (limit_or_50 limit))

-- `MAX(r.score)`, which passes over NULL, and `COUNT(r.id)`.
abbrev pub larger : Option ℕ → Option ℕ → Option ℕ
larger none b = b
larger (some a) none = some a
larger (some a) (some b) = some (if ltb a b then b else a)

unfoldable pub max_score : ℕ → List Run → Option ℕ
max_score team [] = none
max_score team (r ∷ rows) =
    let rest = max_score team rows in if is_run_of team r then larger r.score rest else rest

unfoldable pub run_count : ℕ → List Run → ℕ
run_count team [] = 0
run_count team (r ∷ rows) =
    let rest = run_count team rows in if is_run_of team r then rest + 1 else rest

-- The status, always "active", is left out.
pub record AdminTeamRow : Type 0 where
  pub team_id : ℕ
  pub name : ℕ
  pub region : ℕ
  pub best_score : ℕ
  pub runs : ℕ

unfoldable pub admin_team : List Run → TeamRow → AdminTeamRow
unfolding max_score run_count
admin_team runs t = record {
  team_id = t.id;
  name = t.name;
  region = or_zero t.region;
  best_score = or_zero (max_score t.id runs);
  runs = run_count t.id runs;
}

unfoldable pub get_all_teams : List TeamRow → List Run → List AdminTeamRow
unfolding admin_team slice_stable
get_all_teams teams runs =
    slice_stable (λ a b. ltb b.best_score a.best_score) (map (admin_team runs) teams)

unfoldable pub find_team : ℕ → List TeamRow → Option TeamRow
find_team id [] = none
find_team id (t ∷ teams) = let rest = find_team id teams in if t.id == id then some t else rest

pub record AdminRunRow : Type 0 where
  pub run_id : ℕ
  pub team_id : ℕ
  pub team_name : ℕ
  pub submission_id : ℕ
  pub p50 : ℕ
  pub p99 : ℕ
  pub tps : ℕ
  pub err_pct : ℕ
  pub score : ℕ
  pub status : RunStatus

abbrev pub admin_run : Run → TeamRow → AdminRunRow
admin_run r t = record {
  run_id = r.id;
  team_id = r.team_id;
  team_name = t.name;
  submission_id = r.submission_id;
  p50 = metric (λ m. m.p50) r.metrics;
  p99 = metric (λ m. m.p99) r.metrics;
  tps = metric (λ m. m.tps) r.metrics;
  err_pct = metric (λ m. m.err_pct) r.metrics;
  score = or_zero r.score;
  status = r.status;
}

-- `JOIN teams t ON t.id = r.team_id`
abbrev pub join_team : Run → Option TeamRow → List AdminRunRow → List AdminRunRow
join_team r none rest = rest
join_team r (some t) rest = admin_run r t ∷ rest

unfoldable pub admin_runs : List TeamRow → List Run → List AdminRunRow
unfolding find_team
admin_runs teams [] = []
admin_runs teams (r ∷ rows) = join_team r (find_team r.team_id teams) (admin_runs teams rows)

-- `started_at` of a run, by its id.
unfoldable pub get_all_runs : (ℕ → ℕ) → List TeamRow → List Run → ℕ → List AdminRunRow
unfolding admin_runs slice_stable
get_all_runs started_at teams runs limit =
    take
      (slice_stable (λ a b. ltb (started_at b.run_id) (started_at a.run_id))
        (admin_runs teams runs))
      limit

abbrev pub has_id : ℕ → List ℕ → Bool
has_id id [] = false
has_id id (i ∷ ids) = id == i || has_id id ids

-- `WHERE id = ANY($1)`, scanned into a map.
unfoldable pub get_teams_map : List ℕ → List TeamRow → List (ℕ × Team)
unfolding insert
get_teams_map ids [] = []
get_teams_map ids (t ∷ teams) =
    let rest = get_teams_map ids teams in
    if has_id t.id ids
    then (t.id, record { name = t.name; region = or_zero t.region }) ∷ rest
    else rest

-- `TRUNCATE runs, submissions, analysis_reports CASCADE`, for the first two.
pub record Tables : Type 0 where
  pub submissions : Submissions
  pub runs : List Run

abbrev pub reset_platform : Tables → Tables
reset_platform t = record { submissions = []; runs = [] }
