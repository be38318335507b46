-- ===== src/Gateway/Tests.antt =====
-- services/gateway/internal/api/handlers.go on concrete requests and tables.
use quantime.Prelude.{
  ℕ, List, pos, ◌≡◌, refl, true, false, none, some, [], ◌∷◌, arith, ◌==◌, if◌then◌else◌,
}
use mathlib.Core.Option
use quantime.Gateway.Store.{
  Submission, uploaded, deployed, Submissions, get_submission, has_upload, Metrics, Run, finished,
  get_run,
}
use quantime.Gateway.Submissions.{
  Upload, uploaded_row, IsComplete, create_submission, create_new, create_again, accepted,
}
use quantime.Gateway.Deploys.{Outcome, build_and_deploy, after_deploy, get-build_and_deploy}
use quantime.Gateway.Reuploads.{reupload_lost}
use quantime.Gateway.Runs.{
  sustained, RunRequest, Launched, control, new_run, start_run, start_run_published, launch,
}
use quantime.Gateway.Regressions.{get_regression}
use quantime.Prelude.{Option}
use quantime.Gateway.Leaderboards.{Entry, Team, run_with_code}
use quantime.Gateway.Promotions.{DistinctIds}
use quantime.Gateway.ReleaseGate.{got_worse, IsCompared, get_regression-set_baseline_run}
use quantime.Gateway.Baselines.{set_baseline_run}

abbrev upload : Upload
upload = record {
  form_parses = true;
  team_id = some 1;
  name = 5;
  lang = some 2;
  file = some (77, 300);
  body_reads = true;
  new_id = 10;
  db_answers = true;
}

upload-IsComplete : IsComplete upload 1 2 (77, 300)
upload-IsComplete = record {
  parses = refl;
  has_team = refl;
  has_lang = refl;
  has_file = refl;
  reads = refl;
  answers = refl;
}

-- The row of an earlier upload of the same bytes.
abbrev earlier : Submission
earlier = record {
  id = 3;
  team_id = 1;
  name = 5;
  lang = 2;
  hash = 77;
  image_tag = some 8;
  endpoint = some 9;
  status = deployed;
  size_bytes = 300;
  correctness = some 100;
}

abbrev table : Submissions
table = earlier ∷ []

new_missing : get_submission 10 table ≡ none
unfolding get_submission
new_missing = refl

earlier_there : get_submission 3 table ≡ some earlier
unfolding get_submission
earlier_there = refl

earlier_conflicts : has_upload (uploaded_row upload 1 2 (77, 300)) table ≡ true
unfolding has_upload
earlier_conflicts = refl

nothing_there : get_submission 10 [] ≡ none
unfolding get_submission
nothing_there = refl

nothing_conflicts : has_upload (uploaded_row upload 1 2 (77, 300)) [] ≡ false
unfolding has_upload
nothing_conflicts = refl

abbrev success : Outcome
success = record {
  saved = true;
  image_tag = some 20;
  container = some 30;
  correctness = 100;
  building_answers = true;
  built_answers = true;
  final_answers = true;
  correctness_answers = true;
}

create_new_example :
    ((create_submission upload []).1 ≡ accepted 10 77)
    × (get_submission 10 (create_submission upload []).0 ≡ some (uploaded_row upload 1 2 (77, 300)))
create_new_example =
    create_new upload 1 2 (77, 300) [] upload-IsComplete nothing_there nothing_conflicts

create_again_example :
    ((create_submission upload table).1 ≡ accepted 10 77)
    × (get_submission 10 (create_submission upload table).0 ≡ none)
    × (get_submission 3 (create_submission upload table).0
        ≡ some (record earlier { status = uploaded; image_tag = none; endpoint = none }))
create_again_example =
    create_again upload 1 2 (77, 300) table earlier upload-IsComplete new_missing earlier_there refl
      earlier_conflicts

reupload_lost_example :
    let rows' = build_and_deploy 10 success (create_submission upload table).0 in
    (get_submission 10 rows' ≡ none)
    × (get_submission 3 rows'
        ≡ some (record earlier { status = uploaded; image_tag = none; endpoint = none }))
reupload_lost_example =
    reupload_lost upload 1 2 (77, 300) table earlier success upload-IsComplete new_missing
      earlier_there refl earlier_conflicts

get-build_and_deploy_example : get_submission 3 (build_and_deploy 3 success table) ≡ (
    if 3 == 3
    then Option.map (after_deploy success) (get_submission 3 table)
    else get_submission 3 table)
get-build_and_deploy_example = get-build_and_deploy 3 3 success table

abbrev run_request : RunRequest
run_request = record {
  decodes = true;
  submission_id = 3;
  profile = sustained;
  seed = 42;
  duration_sec = pos 60;
  bots_per_fleet = pos 200;
  target_rate_per_bot = 0;
  new_id = 50;
  profile_text = λ p. 0;
  db_answers = true;
  insert_answers = true;
  bus_answers = true;
}

run_missing : get_run 50 [] ≡ none
unfolding get_run
run_missing = refl

run_published : (start_run run_request table []).published ≡ some (control run_request earlier)
unfolding start_run launch get_submission
run_published = refl

start_run_published_example :
    (sub : Submission) × (get_submission 3 table ≡ some sub)
    × Launched run_request sub (start_run run_request table []) (control run_request earlier)
start_run_published_example =
    start_run_published run_request table [] (control run_request earlier) run_missing run_published

abbrev done_run : Run
done_run = record (new_run run_request earlier) { status = finished }

abbrev slow_metrics : ℕ → Metrics
slow_metrics p99 = record {
  p50 = 10;
  p90 = 20;
  p99 = p99;
  p99_9 = 90;
  p99_99 = 100;
  max = 120;
  tps = 1000;
  err_pct = 0;
}

abbrev base_run : Run
base_run = record done_run { metrics = some (slow_metrics 40) }

-- p99 is 7.5% higher.
abbrev slower_run : Run
slower_run = record done_run { id = 51; metrics = some (slow_metrics 43) }

abbrev two_runs : List Run
two_runs = base_run ∷ slower_run ∷ []

two_runs-DistinctIds : DistinctIds two_runs
unfolding get_run
two_runs-DistinctIds = (refl, (refl, tt))

base_there : get_run 50 two_runs ≡ some base_run
unfolding get_run
base_there = refl

slower_there : get_run 51 two_runs ≡ some slower_run
unfolding get_run
slower_there = refl

get_regression-set_baseline_run_example :
    IsCompared base_run slower_run
      (get_regression true true 51 (set_baseline_run true true 50 two_runs).0)
get_regression-set_baseline_run_example =
    get_regression-set_baseline_run 50 51 two_runs base_run slower_run two_runs-DistinctIds
      base_there refl slower_there refl (λ e. omega (arith, e))

regression_test : got_worse (slow_metrics 40) (slow_metrics 43) ≡ true
regression_test = refl

abbrev entry_of : ℕ → Entry
entry_of n = record { member = n; score = record { num = 90; den = 1 } }

-- Seven teams; the fourth is neither among the first three nor among the last three.
abbrev seven : List Entry
seven =
    entry_of 1 ∷ entry_of 2 ∷ entry_of 3 ∷ entry_of 4 ∷ entry_of 5 ∷ entry_of 6 ∷ entry_of 7 ∷ []

abbrev no_team : ℕ → Option Team
no_team id = none

abbrev code_99 : ℕ → Option ℕ
code_99 id = some 99

code_test : (run_with_code no_team [] code_99 7 (entry_of 4) 3).source_code ≡ 0
code_test = refl
