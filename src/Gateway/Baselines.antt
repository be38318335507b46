-- ===== src/Gateway/Baselines.antt =====
-- services/gateway/internal/api/handlers.go, `setBaseline`. Whether the two statements on the
-- database succeed is a parameter.
use quantime.Prelude.{
  ℕ, ◌≡◌, refl, Bool, true, false, not, Option, none, some, List, [], ◌∷◌, arith, ◌==◌,
  if◌then◌else◌,
}
use mathlib.Core.Option
use quantime.Gateway.Store.{Run, RunStatus, running, finished, get_run, set_baseline}
use quantime.Gateway.Runs.{Response, not_found, conflict, internal_error, ok_response}

abbrev pub is_finished : RunStatus → Bool
is_finished finished = true
is_finished running = false

-- From the test of the run's status on.
unfoldable pub promote : Bool → ℕ → Run → List Run → List Run × Response
unfolding set_baseline
promote update_answers id run runs =
    if not (is_finished run.status)
    then (runs, conflict)
    else if not update_answers
    then (runs, internal_error)
    else (set_baseline id run.team_id runs, ok_response)

abbrev pub with_run : Bool → ℕ → Option Run → List Run → List Run × Response
with_run update_answers id none runs = (runs, not_found)
with_run update_answers id (some run) runs = promote update_answers id run runs

-- The table afterwards and the response.
unfoldable pub set_baseline_run : Bool → Bool → ℕ → List Run → List Run × Response
unfolding promote
set_baseline_run db_answers update_answers id runs =
    if not db_answers
    then (runs, internal_error)
    else with_run update_answers id (get_run id runs) runs

-- What `setBaseline` on the run `id` of a team makes of the row `j`.
abbrev pub marked : ℕ → ℕ → ℕ → Run → Run
marked id team j r = if r.team_id == team then record r { is_baseline = j == id } else r

pub get_run-set_baseline :
    (id team j : ℕ) (runs : List Run)
    → get_run j (set_baseline id team runs) ≡ Option.map (marked id team j) (get_run j runs)
unfolding get_run set_baseline
get_run-set_baseline id team j [] = refl
get_run-set_baseline id team j (r ∷ runs) = ground (arith, get_run-set_baseline id team j runs)

-- A finished run that is promoted, where both statements on the database succeed, becomes the one
-- baseline of its team: of the team's rows it is marked and no other is, and the rows of other
-- teams stay as they are.
get-set_baseline_run :
    (id j : ℕ) (runs : List Run) (run : Run)
    → get_run id runs ≡ some run
    → run.status ≡ finished
    → let (runs', response) = set_baseline_run true true id runs in
      (response ≡ ok_response)
      × (get_run j runs' ≡ Option.map (marked id run.team_id j) (get_run j runs))
unfolding set_baseline_run
get-set_baseline_run id j runs run found done =
    rw (found, done) (refl, get_run-set_baseline id run.team_id j runs)
