-- ===== src/Gateway/Reuploads.antt =====
-- services/gateway/internal/api/handlers.go, `createSubmission` and the `buildAndDeploy` job that
-- it starts, on bytes that the team has uploaded before.
use quantime.Prelude.{ℕ, ◌≡◌, true, none, some, arith}
use quantime.Gateway.Store.{
  Submission, Submissions, uploaded, get_submission, same_upload, has_upload,
}
use quantime.Gateway.Submissions.{Upload, uploaded_row, IsComplete, create_submission, create_again}
use quantime.Gateway.Deploys.{Outcome, build_and_deploy, get-build_and_deploy}

-- Whatever the sandbox does with a repeated upload, the job's id is still in no row, and the row
-- of the first upload stays "uploaded", with no image and no endpoint.
pub reupload_lost :
    (u : Upload) (team lang : ℕ) (file : ℕ × ℕ) (rows : Submissions) (old : Submission)
    (out : Outcome)
    → IsComplete u team lang file
    → get_submission u.new_id rows ≡ none
    → get_submission old.id rows ≡ some old
    → same_upload (uploaded_row u team lang file) old ≡ true
    → has_upload (uploaded_row u team lang file) rows ≡ true
    → let rows' = build_and_deploy u.new_id out (create_submission u rows).0 in
      (get_submission u.new_id rows' ≡ none)
      × (get_submission old.id rows'
          ≡ some (record old { status = uploaded; image_tag = none; endpoint = none }))
reupload_lost u team lang file rows old out c new had same conflict =
    let again = create_again u team lang file rows old c new had same conflict in
    let rows' = (create_submission u rows).0 in
    ground (
      arith,
      again,
      get-build_and_deploy u.new_id u.new_id out rows',
      get-build_and_deploy u.new_id old.id out rows',
    )
