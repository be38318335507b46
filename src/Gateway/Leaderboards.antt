-- ===== src/Gateway/Leaderboards.antt =====
-- services/gateway/internal/api/handlers.go: getLeaderboard and getLeaderboardSummary up to the request to
-- the analyzer. What Redis, the database and the analyzer answer is a parameter: the entries of the sorted
-- set in its order, the metrics as they decode, none for "" and for what does not, the teams that are
-- found, the code of a team. The score that is cut down to an integer is a fraction.
use quantime.Prelude.{
  ℕ, zero, suc, ◌+◌, ◌/◌, ◌≡◌, refl, ap, ◌∙◌, Bool, ◌||◌, Option, none, some, List, [], ◌∷◌, ◌==◌,
  ltb, leb, length, get_elem?, if◌then◌else◌, arith,
}
use mathlib.Core.Option.{some-injective}
use quantime.Gateway.Store.{Metrics}
use quantime.Telemetry.Scores.{Fraction}
use quantime.Analyzer.Agents.{LeaderboardRun}

pub record Entry : Type 0 where
  pub member : ℕ
  pub score : Fraction

pub record Team : Type 0 where
  pub name : ℕ
  pub region : ℕ

-- The name "" is 0.
abbrev pub team_or_empty : Option Team → Team
team_or_empty none = record { name = 0; region = 0 }
team_or_empty (some t) = t

pub record LeaderboardRow : Type 0 where
  pub team_id : ℕ
  pub name : ℕ
  pub region : ℕ
  pub score : Fraction
  pub p50 : ℕ
  pub p99 : ℕ
  pub tps : ℕ
  pub err_pct : ℕ
  pub last_run : ℕ

abbrev pub set_metrics : Option (Option Metrics) → LeaderboardRow → LeaderboardRow
set_metrics none row = row
set_metrics (some none) row = row
set_metrics (some (some m)) row = record row {
  p50 = m.p50;
  p99 = m.p99;
  tps = m.tps;
  err_pct = m.err_pct;
}

module _ (teams : ℕ → Option Team) (metrics : List (Option Metrics)) where
  abbrev pub leaderboard_row : ℕ → Entry → LeaderboardRow
  leaderboard_row i z =
      let t = team_or_empty (teams z.member) in
      set_metrics (get_elem? metrics i) (record {
        team_id = z.member;
        name = t.name;
        region = t.region;
        score = z.score;
        p50 = 0;
        p99 = 0;
        tps = 0;
        err_pct = 0;
        last_run = 0;
      })

  unfoldable pub leaderboard_rows : ℕ → List Entry → List LeaderboardRow
  leaderboard_rows i [] = []
  leaderboard_rows i (z ∷ zs) = leaderboard_row i z ∷ leaderboard_rows (i + 1) zs

  -- `none` is a status 500.
  abbrev pub get_leaderboard :
      Option (List Entry) → Option (List LeaderboardRow) → Option (List LeaderboardRow)
  get_leaderboard none postgres = postgres
  get_leaderboard (some []) postgres = postgres
  get_leaderboard (some (z ∷ zs)) postgres = some (leaderboard_rows 0 (z ∷ zs))

abbrev pub run_metrics : Option (Option Metrics) → LeaderboardRun → LeaderboardRun
run_metrics none run = run
run_metrics (some none) run = run
run_metrics (some (some m)) run = record run { p99 = m.p99; tps = m.tps; error_rate = m.err_pct }

abbrev pub name_or_id : ℕ → ℕ → ℕ
name_or_id name id = if name == 0 then id else name

module _ (teams : ℕ → Option Team) (metrics : List (Option Metrics)) where
  abbrev pub summary_run : ℕ → Entry → LeaderboardRun
  summary_run i z = run_metrics (get_elem? metrics i) (record {
    team = name_or_id (team_or_empty (teams z.member)).name z.member;
    score = z.score.num / z.score.den;
    p99 = 0;
    tps = 0;
    error_rate = 0;
    source_code = 0;
  })

  unfoldable pub all_runs : ℕ → List Entry → List LeaderboardRun
  all_runs i [] = []
  all_runs i (z ∷ zs) = summary_run i z ∷ all_runs (i + 1) zs

-- `i < 3`, and `i >= len(allRuns)-3`, also where the difference is negative.
abbrev pub is_top_or_bottom : ℕ → ℕ → Bool
is_top_or_bottom n i = ltb i 3 || leb n (i + 3)

abbrev pub set_code : Option ℕ → LeaderboardRun → LeaderboardRun
set_code none run = run
set_code (some code) run = record run { source_code = code }

unfoldable pub with_codes :
    (ℕ → Option ℕ) → ℕ → ℕ → List Entry → List LeaderboardRun → List LeaderboardRun
with_codes code_of n i zs [] = []
with_codes code_of n i [] (r ∷ rs) = r ∷ rs
with_codes code_of n i (z ∷ zs) (r ∷ rs) =
    (if is_top_or_bottom n i then set_code (code_of z.member) r else r)
    ∷ with_codes code_of n (i + 1) zs rs

pub data SummaryResponse : Type 0 where
  no_leaderboard_data : SummaryResponse
  asks_analyzer : List LeaderboardRun → SummaryResponse

unfoldable pub summary_runs :
    (ℕ → Option Team) → List (Option Metrics) → (ℕ → Option ℕ) → List Entry → List LeaderboardRun
unfolding all_runs with_codes
summary_runs teams metrics code_of zs =
    let runs = all_runs teams metrics 0 zs in with_codes code_of (length runs) 0 zs runs

abbrev pub get_leaderboard_summary :
    (ℕ → Option Team)
    → List (Option Metrics)
    → (ℕ → Option ℕ)
    → Option (List Entry)
    → SummaryResponse
get_leaderboard_summary teams metrics code_of none = no_leaderboard_data
get_leaderboard_summary teams metrics code_of (some []) = no_leaderboard_data
get_leaderboard_summary teams metrics code_of (some (z ∷ zs)) =
    asks_analyzer (summary_runs teams metrics code_of (z ∷ zs))

length-all_runs :
    (teams : ℕ → Option Team) (metrics : List (Option Metrics)) (i : ℕ) (zs : List Entry)
    → length (all_runs teams metrics i zs) ≡ length zs
unfolding all_runs
length-all_runs teams metrics i [] = refl
length-all_runs teams metrics i (z ∷ zs) = ap suc (length-all_runs teams metrics (i + 1) zs)

module _ (teams : ℕ → Option Team) (metrics : List (Option Metrics)) (code_of : ℕ → Option ℕ)
    (n : ℕ) where
  -- The run of the entry with a number.
  abbrev pub run_with_code : Entry → ℕ → LeaderboardRun
  run_with_code z i =
      if is_top_or_bottom n i
      then set_code (code_of z.member) (summary_run teams metrics i z)
      else summary_run teams metrics i z

  get_elem-with_codes :
      (k : ℕ) (zs : List Entry) (i : ℕ) (z : Entry)
      → get_elem? zs i ≡ some z
      → get_elem? (with_codes code_of n k zs (all_runs teams metrics k zs)) i
        ≡ some (run_with_code z (k + i))
  unfolding with_codes all_runs
  get_elem-with_codes k [] i z h = ground arith
  get_elem-with_codes k (y ∷ zs) zero z h =
      ap some
        (ap (λ x. run_with_code x k) (some-injective y z h) ∙ ap (run_with_code z) (omega arith))
  get_elem-with_codes k (y ∷ zs) (suc i) z h =
      get_elem-with_codes (k + 1) zs i z h ∙ ap (λ j. some (run_with_code z j)) (omega arith)

-- The request to the analyzer has the entries of the leaderboard in their order, each with its own name,
-- score and metrics, and the first three and the last three of them, also where these overlap, with the
-- code of their team, if there is one; no other has code.
get_elem-summary_runs :
    (teams : ℕ → Option Team) (metrics : List (Option Metrics)) (code_of : ℕ → Option ℕ)
    (zs : List Entry) (i : ℕ) (z : Entry)
    → get_elem? zs i ≡ some z
    → get_elem? (summary_runs teams metrics code_of zs) i
      ≡ some (run_with_code teams metrics code_of (length zs) z i)
unfolding summary_runs
get_elem-summary_runs teams metrics code_of zs i z h =
    ap (λ n. get_elem? (with_codes code_of n 0 zs (all_runs teams metrics 0 zs)) i)
      (length-all_runs teams metrics 0 zs)
    ∙ get_elem-with_codes teams metrics code_of (length zs) 0 zs i z h
    ∙ ap (λ j. some (run_with_code teams metrics code_of (length zs) z j)) (omega arith)
