-- ===== src/Gateway/Runs.antt =====
-- services/gateway/internal/api/handlers.go, `startRun`. What the decoder, the id
-- generator, the database connection and the bus give are fields of the request.
use quantime.Prelude.{
  ℕ, ℤ, pos_part, is_nonpositive, ◌≤◌, ◌<◌, ◌≡◌, refl, Bool, true, false, not, ◌||◌, Option, none,
  some, List, [], ◌∷◌, arith, ltb, ◌==◌, if◌then◌else◌, Bool-cases, inl, inr,
}
use mathlib.Core.Path.{subst}
use quantime.Prelude.{sym}
use quantime.Gateway.Store.{
  Submission, Submissions, SubmissionStatus, uploaded, building, built, deployed, failed,
  get_submission, Run, running, get_run, insert_run,
}

-- The profile's text: `sustained` is what an empty one becomes.
pub data Profile : Type 0 where
  empty sustained : Profile
  other_profile : ℕ → Profile

abbrev pub or_sustained : Profile → Profile
or_sustained empty = sustained
or_sustained sustained = sustained
or_sustained (other_profile p) = other_profile p

-- `req.DurationSec` after the two tests on it, in their order.
unfoldable pub duration_sec : ℤ → ℕ
duration_sec z =
    let first = if is_nonpositive z || ltb 300 (pos_part z) then 30 else pos_part z in
    if first == 0 then 30 else if ltb 300 first then 300 else first

unfoldable pub bots_per_fleet : ℤ → ℕ
bots_per_fleet z =
    if is_nonpositive z then 50 else if ltb 1000 (pos_part z) then 1000 else pos_part z

pub record RunRequest : Type 0 where
  pub decodes : Bool
  pub submission_id : ℕ
  pub profile : Profile
  pub seed : ℕ
  pub duration_sec : ℤ
  pub bots_per_fleet : ℤ
  pub target_rate_per_bot : ℕ
  pub new_id : ℕ
  pub profile_text : Profile → ℕ
  pub db_answers : Bool
  pub insert_answers : Bool
  pub bus_answers : Bool

-- The "start" message on `runs.<id>.control`.
pub record StartControl : Type 0 where
  pub run_id : ℕ
  pub endpoint : Option ℕ
  pub profile : Profile
  pub seed : ℕ
  pub duration_sec : ℕ
  pub bots_per_fleet : ℕ
  pub target_rate_per_bot : ℕ

pub data Response : Type 0 where
  bad_request conflict not_found internal_error ok_response : Response
  accepted : ℕ → Response

pub record Started : Type 0 where
  pub runs : List Run
  pub published : Option StartControl
  pub response : Response

abbrev pub refused : List Run → Response → Started
refused runs response = record { runs = runs; published = none; response = response }

abbrev pub new_run : RunRequest → Submission → Run
new_run req sub = record {
  id = req.new_id;
  submission_id = sub.id;
  team_id = sub.team_id;
  profile = req.profile_text (or_sustained req.profile);
  seed = req.seed;
  status = running;
  score = none;
  finished_at = none;
  metrics = none;
  is_baseline = false;
  raw_log = none;
}

abbrev pub control : RunRequest → Submission → StartControl
control req sub = record {
  run_id = req.new_id;
  endpoint = sub.endpoint;
  profile = or_sustained req.profile;
  seed = req.seed;
  duration_sec = duration_sec req.duration_sec;
  bots_per_fleet = bots_per_fleet req.bots_per_fleet;
  target_rate_per_bot = req.target_rate_per_bot;
}

abbrev pub is_deployed : SubmissionStatus → Bool
is_deployed deployed = true
is_deployed uploaded = false
is_deployed building = false
is_deployed built = false
is_deployed failed = false

-- From the test of the submission's status on.
unfoldable pub launch : RunRequest → Submission → List Run → Started
unfolding duration_sec bots_per_fleet
launch req sub runs =
    if not (is_deployed sub.status)
    then refused runs conflict
    else if not req.insert_answers
    then refused runs internal_error
    else if not req.bus_answers
    then refused (insert_run (new_run req sub) runs) internal_error
    else record {
      runs = insert_run (new_run req sub) runs;
      published = some (control req sub);
      response = accepted req.new_id;
    }

abbrev pub with_submission : RunRequest → Option Submission → List Run → Started
with_submission req none runs = refused runs bad_request
with_submission req (some sub) runs = launch req sub runs

unfoldable pub start_run : RunRequest → Submissions → List Run → Started
unfolding launch
start_run req subs runs =
    if not req.decodes || not req.db_answers
    then refused runs bad_request
    else with_submission req (get_submission req.submission_id subs) runs

-- Whatever the request says, a run lasts 1 to 300 seconds and a replica of the fleet gets 1 to
-- 1000 bots.
start_limits :
    (duration bots : ℤ)
    → (1 ≤ duration_sec duration)
      × (duration_sec duration ≤ 300)
      × (1 ≤ bots_per_fleet bots)
      × (bots_per_fleet bots ≤ 1000)
unfolding duration_sec bots_per_fleet
start_limits duration bots = (ground arith, ground arith, ground arith, ground arith)

-- A request for more than 300 seconds runs 30: the second test never sees such a value.
duration_over_limit : (duration : ℤ) → 300 < pos_part duration → duration_sec duration ≡ 30
unfolding duration_sec
duration_over_limit duration h = ground arith

get_run-insert_run :
    (r : Run) (rows : List Run)
    → get_run r.id rows ≡ none
    → get_run r.id (insert_run r rows) ≡ some r
unfolding get_run insert_run
get_run-insert_run r [] h = ground arith
get_run-insert_run r (x ∷ rows) h = ground (arith, get_run-insert_run r rows)

deployed-by_test : (st : SubmissionStatus) → is_deployed st ≡ true → st ≡ deployed
deployed-by_test deployed h = refl
deployed-by_test uploaded h = ground arith
deployed-by_test building h = ground arith
deployed-by_test built h = ground arith
deployed-by_test failed h = ground arith

-- What a published "start" says of the submission and of the run's row.
pub record Launched (req : RunRequest) (sub : Submission) (started : Started) (c : StartControl)
    : Type 0 where
  pub has_status : sub.status ≡ deployed
  pub run_is : c.run_id ≡ req.new_id
  pub endpoint_is : c.endpoint ≡ sub.endpoint
  pub lasts : (1 ≤ c.duration_sec) × (c.duration_sec ≤ 300)
  pub has_bots : (1 ≤ c.bots_per_fleet) × (c.bots_per_fleet ≤ 1000)
  pub row : Run
  pub has_row : get_run c.run_id started.runs ≡ some row
  pub row_is : (row.submission_id ≡ sub.id) × (row.team_id ≡ sub.team_id) × (row.status ≡ running)

control-Launched :
    (req : RunRequest) (sub : Submission) (started : Started)
    → sub.status ≡ deployed
    → get_run req.new_id started.runs ≡ some (new_run req sub)
    → Launched req sub started (control req sub)
control-Launched req sub started up there =
    let (least, most, some_bots, few) = start_limits req.duration_sec req.bots_per_fleet in
    record {
      has_status = up;
      run_is = refl;
      endpoint_is = refl;
      lasts = (least, most);
      has_bots = (some_bots, few);
      row = new_run req sub;
      has_row = there;
      row_is = (refl, refl, refl);
    }

launch_published :
    (req : RunRequest) (sub : Submission) (runs : List Run) (c : StartControl)
    → get_run req.new_id runs ≡ none
    → (launch req sub runs).published ≡ some c
    → (c ≡ control req sub)
      × (sub.status ≡ deployed)
      × (get_run req.new_id (launch req sub runs).runs ≡ some (new_run req sub))
unfolding launch
launch_published req sub runs c new e =
    ground (arith, deployed-by_test sub.status, get_run-insert_run (new_run req sub) runs new)

launch-Launched :
    (req : RunRequest) (sub : Submission) (runs : List Run) (c : StartControl)
    → get_run req.new_id runs ≡ none
    → (launch req sub runs).published ≡ some c
    → Launched req sub (launch req sub runs) c
launch-Launched req sub runs c new e =
    let (is_control, up, there) = launch_published req sub runs c new e in
    subst (Launched req sub (launch req sub runs)) (sym is_control)
      (control-Launched req sub (launch req sub runs) up there)

with_submission-Launched :
    (req : RunRequest) (found : Option Submission) (runs : List Run) (c : StartControl)
    → get_run req.new_id runs ≡ none
    → (with_submission req found runs).published ≡ some c
    → (sub : Submission) × (found ≡ some sub) × Launched req sub (with_submission req found runs) c
with_submission-Launched req none runs c new e = ground (arith, e)
with_submission-Launched req (some sub) runs c new e =
    (sub, refl, launch-Launched req sub runs c new e)

-- If no row has the id of a new run, the bots are told to start it only for a submission that is deployed,
-- at its endpoint, for 1 to 300 seconds and with 1 to 1000 bots each, and the run then has a row for that
-- submission and its team, with the status "running".
pub start_run_published :
    (req : RunRequest) (subs : Submissions) (runs : List Run) (c : StartControl)
    → get_run req.new_id runs ≡ none
    → (start_run req subs runs).published ≡ some c
    → (sub : Submission) × (get_submission req.submission_id subs ≡ some sub)
      × Launched req sub (start_run req subs runs) c
unfolding start_run
start_run_published req subs runs c new e =
    elim (Bool-cases (not req.decodes || not req.db_answers)) [
      | inl refused ↦ ground (arith, (rw refused at e))
      | inr read ↦ rw read (
          with_submission-Launched req (get_submission req.submission_id subs) runs c new
            (rw read at e))
    ]
