-- ===== src/Gateway/JudgeTests.antt =====
-- services/gateway/internal: the queries of store.go and the handlers of the judge console on concrete
-- tables.
use quantime.Prelude.{ℕ, ◌+◌, pos, ◌≡◌, refl, true, false, Option, none, some, List, [], ◌∷◌, map}
use quantime.Go.Sort.{slice_stable}
use quantime.Gateway.Store.{Run, finished}
use quantime.Gateway.Leaderboards.{Entry}
use quantime.Gateway.Queries.{
  TeamRow, leaderboard, get_all_teams, ranked, best_run, admin_team, max_score, run_count, Tables,
  get_all_runs, admin_runs, find_team,
}
use quantime.Gateway.Rankings.{IsRanking, admin_place, leaderboard-get_all_teams}
use quantime.Gateway.Cache.{leaderboard_top, finalize_all}
use quantime.Gateway.Bests.{IsBest}
use quantime.Gateway.Champions.{added, empty, RunMeasured, leaderboard_top-IsBest}
use quantime.Telemetry.Scores.{Aggregates, IsMeasured, composite, math_exp_decay, math_sat}
use quantime.Telemetry.Finals.{Answers, finalize_run, zadd_gt}
use mathlib.Core.Path.{subst}
use mathlib.Core.Option.{some-injective}
use quantime.Prelude.{All, length, ◌≤◌, arith, lookup, insert, erase}
use quantime.Gateway.Judge.{
  Cached, not_found, ok, judge_reset, show_submission, show_run, get_judge_runs, show_leaderboard,
}

abbrev team : ℕ → TeamRow
team id = record { id = id; name = id + 100; region = none }

abbrev run_of : ℕ → ℕ → Option ℕ → Run
run_of id team_id score = record {
  id = id;
  submission_id = 3;
  team_id = team_id;
  profile = 0;
  seed = 42;
  status = finished;
  finished_at = some id;
  score = score;
  metrics = none;
  is_baseline = false;
  raw_log = none;
}

abbrev teams : List TeamRow
teams = team 1 ∷ team 2 ∷ team 3 ∷ []

abbrev runs : List Run
runs = run_of 50 1 (some 40) ∷ run_of 51 2 none ∷ run_of 52 2 (some 70) ∷ run_of 53 1 (some 60) ∷ []

leaderboard-get_all_teams_example :
    IsRanking 2 (leaderboard teams runs (pos 2)) (map admin_place (get_all_teams teams runs))
leaderboard-get_all_teams_example = leaderboard-get_all_teams teams runs (pos 2)

leaderboard_test : map (λ r. r.score.num) (leaderboard teams runs (pos 2)) ≡ 70 ∷ 60 ∷ []
unfolding leaderboard ranked best_run slice_stable
leaderboard_test = refl

get_all_teams_test : map (λ r. r.runs) (get_all_teams teams runs) ≡ 2 ∷ 2 ∷ 0 ∷ []
unfolding get_all_teams admin_team max_score run_count slice_stable
get_all_teams_test = refl

-- The latest two, of teams that are known.
get_all_runs_test :
    map (λ r. r.run_id) (get_all_runs (λ id. id) (team 1 ∷ []) runs 2) ≡ 53 ∷ 50 ∷ []
unfolding get_all_runs admin_runs find_team slice_stable
get_all_runs_test = refl

abbrev entry : Entry
entry = record { member = 1; score = record { num = 60; den = 1 } }

abbrev cached : Cached
cached = record { entries = some (entry ∷ []); metrics = λ id. none }

abbrev tables : Tables
tables = record { submissions = []; runs = runs }

-- After a reset, run 50 is not found and no run is listed, but the leaderboard is shown from Redis as before.
reset_run_test : show_run true 50 (judge_reset true tables).0 ≡ not_found
unfolding show_run
reset_run_test = refl

reset_submission_test : show_submission true 3 (judge_reset true tables).0 ≡ not_found
unfolding show_submission
reset_submission_test = refl

reset_runs_test : get_judge_runs true (λ id. id) teams (judge_reset true tables).0 ≡ ok []
unfolding get_judge_runs
reset_runs_test = refl

reset_leaderboard_test :
    show_leaderboard teams cached (judge_reset true tables).0 ≡ show_leaderboard teams cached tables
unfolding show_leaderboard
reset_leaderboard_test = refl

abbrev measured : ℕ → Aggregates
measured orders_per_s = record {
  p99 = record { num = 200000000; den = 1 };
  tps = record { num = orders_per_s; den = 1 };
  err_rate = record { num = 0; den = 500 };
}

measured-IsMeasured : (n : ℕ) → IsMeasured (measured n)
measured-IsMeasured n = record {
  p99_defined = omega arith;
  tps_defined = omega arith;
  err_rate_defined = omega arith;
  err_rate_share = omega arith;
}

abbrev answers : ℕ → Answers
answers n = record {
  aggregates = some (measured n);
  oracle = none;
  team_id = some 3;
  update_answers = true;
  has_redis = true;
  zadd_answers = true;
  hset_answers = true;
  publish_answers = false;
}

answers-RunMeasured : (n id : ℕ) → RunMeasured (answers n, id)
answers-RunMeasured n id =
    (λ m e. subst IsMeasured (some-injective (measured n) m e) (measured-IsMeasured n), tt)

-- The later run of the team, the first in the list, is the worse one.
abbrev two_runs : List (Answers × ℕ)
two_runs = (answers 20000, 51) ∷ (answers 100000, 50) ∷ []

leaderboard_top-IsBest_example :
    All
      (λ z. IsBest z.member z.score (added two_runs))
      (leaderboard_top (pos 100) (finalize_all two_runs empty).scores)
    × (length (leaderboard_top (pos 100) (finalize_all two_runs empty).scores) ≤ 100)
leaderboard_top-IsBest_example =
    leaderboard_top-IsBest 100 two_runs (omega arith)
      (answers-RunMeasured 20000 51, (answers-RunMeasured 100000 50, tt))

top_test :
    map (λ z. z.score) (leaderboard_top (pos 100) (finalize_all two_runs empty).scores)
    ≡ composite (measured 100000) none ∷ []
unfolding leaderboard_top finalize_all finalize_run zadd_gt composite math_exp_decay math_sat
    slice_stable lookup insert erase
top_test = refl
