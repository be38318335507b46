-- ===== src/Gateway/Deploys.antt =====
-- services/gateway/internal/api/handlers.go, `buildAndDeploy`. What the sandbox and the validator
-- give, and whether each update of the row answers, are fields of the outcome; an endpoint is named by its
-- container. The errors of the updates are dropped, as in the code.
use quantime.Prelude.{ℕ, ◌≡◌, refl, Bool, Option, none, some, arith, ◌==◌, if◌then◌else◌}
use mathlib.Core.Option
use quantime.Prelude.{ap, inl, inr, Bool-cases, List, [], ◌∷◌, true, false, ◌&&◌, ◌||◌}
use quantime.Gateway.Store.{
  SubmissionStatus, building, built, deployed, failed, Submission, Submissions, get_submission,
  set_status, set_correctness, keep_old, update_submission_status, update_submission_correctness,
  get_submission-update,
}

pub record Outcome : Type 0 where
  pub saved : Bool
  pub image_tag : Option ℕ
  pub container : Option ℕ
  pub correctness : ℕ
  pub building_answers : Bool
  pub built_answers : Bool
  pub final_answers : Bool
  pub correctness_answers : Bool

-- A statement, which changes nothing if it fails, whether or not by the end of the job's context.
abbrev pub if_answers : Bool → Submissions → Submissions → Submissions
if_answers answers after before = if answers then after else before

-- From `Sandbox.Run` on.
unfoldable pub run_image : ℕ → Outcome → ℕ → Option ℕ → Submissions → Submissions
unfolding update_submission_status update_submission_correctness
run_image id out tag none rows =
    if_answers out.final_answers (update_submission_status id failed (some tag) none rows) rows
run_image id out tag (some endpoint) rows =
    let rows' =
      if_answers out.final_answers
        (update_submission_status id deployed (some tag) (some endpoint) rows) rows in
    if_answers out.correctness_answers (update_submission_correctness id out.correctness rows')
      rows'

-- From `Sandbox.Build` on.
unfoldable pub build_image : ℕ → Outcome → Option ℕ → Submissions → Submissions
unfolding run_image
build_image id out none rows =
    if_answers out.final_answers (update_submission_status id failed none none rows) rows
build_image id out (some tag) rows =
    run_image id out tag out.container
      (if_answers out.built_answers (update_submission_status id built (some tag) none rows) rows)

unfoldable pub build_and_deploy : ℕ → Outcome → Submissions → Submissions
unfolding build_image
build_and_deploy id out rows =
    if out.saved
    then build_image id out out.image_tag
        (if_answers out.building_answers (update_submission_status id building none none rows) rows)
    else if_answers out.final_answers (update_submission_status id failed none none rows) rows

-- The stages of the job in their order, each with whether its update answers.
abbrev pub stages_run : Outcome → Option ℕ → List (SubmissionStatus × Bool)
stages_run out none = (failed, out.final_answers) ∷ []
stages_run out (some endpoint) = (deployed, out.final_answers) ∷ []

abbrev pub stages_build : Outcome → Option ℕ → List (SubmissionStatus × Bool)
stages_build out none = (failed, out.final_answers) ∷ []
stages_build out (some tag) = (built, out.built_answers) ∷ stages_run out out.container

abbrev pub stages : Outcome → List (SubmissionStatus × Bool)
stages out =
    if out.saved
    then (building, out.building_answers) ∷ stages_build out out.image_tag
    else (failed, out.final_answers) ∷ []

-- The last status whose update answers, or the one before the job.
abbrev pub last_answered : List (SubmissionStatus × Bool) → SubmissionStatus → SubmissionStatus
last_answered [] st = st
last_answered ((st', answers) ∷ more) st = last_answered more (if answers then st' else st)

-- What is written of the image, the endpoint and the validator's result.
abbrev pub if_written : Bool → Option ℕ → Option ℕ → Option ℕ
if_written written new old = if written then keep_old new old else old

abbrev pub is_some : Option ℕ → Bool
is_some none = false
is_some (some n) = true

abbrev pub is_run : Outcome → Bool
is_run out = out.saved && is_some out.image_tag && is_some out.container

-- What becomes of the submission's row.
abbrev pub after_deploy : Outcome → Submission → Submission
after_deploy out s = record s {
  status = last_answered (stages out) s.status;
  image_tag =
      if_written (out.saved && (out.built_answers || out.final_answers)) out.image_tag s.image_tag;
  endpoint = if_written (is_run out && out.final_answers) out.container s.endpoint;
  correctness =
      if is_run out && out.correctness_answers then some out.correctness else s.correctness;
}

-- The rows afterwards are those before, but that a function changes the row of the id, if there is one.
abbrev Acts : ℕ → (Submission → Submission) → Submissions → Submissions → Type 0
Acts id f before after =
    (j : ℕ)
    → get_submission j after
      ≡ (if j == id then Option.map f (get_submission j before) else get_submission j before)

map_id : (o : Option Submission) → Option.map (λ s. s) o ≡ o
map_id none = refl
map_id (some s) = refl

Acts-same : (id : ℕ) (rows : Submissions) → Acts id (λ s. s) rows rows
Acts-same id rows j = ground (arith, map_id (get_submission j rows))

map_then :
    (f g : Submission → Submission) (o : Option Submission)
    → Option.map g (Option.map f o) ≡ Option.map (λ s. g (f s)) o
map_then f g none = refl
map_then f g (some s) = refl

Acts-then :
    (id : ℕ) (f g : Submission → Submission) (a b c : Submissions)
    → Acts id f a b
    → Acts id g b c
    → Acts id (λ s. g (f s)) a c
Acts-then id f g a b c p q j = ground (arith, p j, q j, map_then f g (get_submission j a))

map_equal :
    (f g : Submission → Submission)
    → ((s : Submission) → f s ≡ g s)
    → (o : Option Submission) → Option.map f o ≡ Option.map g o
map_equal f g e none = refl
map_equal f g e (some s) = ap some (e s)

Acts-equal :
    (id : ℕ) (f g : Submission → Submission) (a b : Submissions)
    → ((s : Submission) → f s ≡ g s)
    → Acts id f a b
    → Acts id g a b
Acts-equal id f g a b e p j = ground (arith, p j, map_equal f g e (get_submission j a))

-- A change that is made if its statement answers.
abbrev when : Bool → (Submission → Submission) → Submission → Submission
when answers f s = if answers then f s else s

Acts-if_answers :
    (answers : Bool) (id : ℕ) (f : Submission → Submission) (after rows : Submissions)
    → Acts id f rows after
    → Acts id (when answers f) rows (if_answers answers after rows)
Acts-if_answers true id f after rows h = h
Acts-if_answers false id f after rows h = Acts-same id rows

Acts-status :
    (answers : Bool) (id : ℕ) (st : SubmissionStatus) (tag endpoint : Option ℕ) (rows : Submissions)
    → Acts id
        (when answers (set_status st tag endpoint))
        rows
        (if_answers answers (update_submission_status id st tag endpoint rows) rows)
unfolding update_submission_status
Acts-status answers id st tag endpoint rows =
    Acts-if_answers answers id (set_status st tag endpoint) _ rows
      (λ j. get_submission-update id j (set_status st tag endpoint) rows (λ s. refl))

Acts-correctness :
    (answers : Bool) (id result : ℕ) (rows : Submissions)
    → Acts id
        (when answers (set_correctness result))
        rows
        (if_answers answers (update_submission_correctness id result rows) rows)
unfolding update_submission_correctness
Acts-correctness answers id result rows =
    Acts-if_answers answers id (set_correctness result) _ rows
      (λ j. get_submission-update id j (set_correctness result) rows (λ s. refl))

-- The statements of the job on its row, in their order.
abbrev run_job : Outcome → ℕ → Option ℕ → Submission → Submission
run_job out tag none s = when out.final_answers (set_status failed (some tag) none) s
run_job out tag (some endpoint) s =
    when out.correctness_answers (set_correctness out.correctness)
      (when out.final_answers (set_status deployed (some tag) (some endpoint)) s)

abbrev build_job : Outcome → Option ℕ → Submission → Submission
build_job out none s = when out.final_answers (set_status failed none none) s
build_job out (some tag) s =
    run_job out tag out.container (when out.built_answers (set_status built (some tag) none) s)

abbrev job : Bool → Outcome → Submission → Submission
job true out s =
    build_job out out.image_tag (when out.building_answers (set_status building none none) s)
job false out s = when out.final_answers (set_status failed none none) s

Acts-run_image :
    (id : ℕ) (out : Outcome) (tag : ℕ) (container : Option ℕ) (rows : Submissions)
    → Acts id (run_job out tag container) rows (run_image id out tag container rows)
unfolding run_image
Acts-run_image id out tag none rows = Acts-status out.final_answers id failed (some tag) none rows
Acts-run_image id out tag (some endpoint) rows =
    let rows' =
      if_answers out.final_answers
        (update_submission_status id deployed (some tag) (some endpoint) rows) rows in
    Acts-then id _ _ rows rows' _
      (Acts-status out.final_answers id deployed (some tag) (some endpoint) rows)
      (Acts-correctness out.correctness_answers id out.correctness rows')

Acts-build_image :
    (id : ℕ) (out : Outcome) (tag : Option ℕ) (rows : Submissions)
    → Acts id (build_job out tag) rows (build_image id out tag rows)
unfolding build_image
Acts-build_image id out none rows = Acts-status out.final_answers id failed none none rows
Acts-build_image id out (some tag) rows =
    Acts-then id _ _ rows _ _ (Acts-status out.built_answers id built (some tag) none rows)
      (Acts-run_image id out tag out.container _)

Acts-build_and_deploy :
    (id : ℕ) (out : Outcome) (rows : Submissions)
    → Acts id (job out.saved out) rows (build_and_deploy id out rows)
unfolding build_and_deploy
Acts-build_and_deploy id out rows = elim (Bool-cases out.saved) [
  | inl saved ↦ rw saved (
      Acts-then id _ _ rows _ _ (Acts-status out.building_answers id building none none rows)
        (Acts-build_image id out out.image_tag _))
  | inr lost ↦ rw lost (Acts-status out.final_answers id failed none none rows)
]

job-after_deploy : (out : Outcome) (s : Submission) → job out.saved out s ≡ after_deploy out s
job-after_deploy out s = ground arith

-- The job changes no other submission's row. Its own ends with the status of the last stage whose update
-- answers: "building" once the source is saved, "built" once there is an image, and at the end "deployed"
-- if every stage succeeds and else "failed"; the image, the endpoint and the validator's result are written
-- by the updates that have them and answer.
pub get-build_and_deploy :
    (id j : ℕ) (out : Outcome) (rows : Submissions)
    → get_submission j (build_and_deploy id out rows) ≡ (
        if j == id
        then Option.map (after_deploy out) (get_submission j rows)
        else get_submission j rows)
get-build_and_deploy id j out rows =
    Acts-equal id (job out.saved out) (after_deploy out) rows (build_and_deploy id out rows)
      (job-after_deploy out) (Acts-build_and_deploy id out rows) j
