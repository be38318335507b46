-- ===== src/Gateway/Submissions.antt =====
-- services/gateway/internal/api/handlers.go, `createSubmission`. What the multipart reader, the
-- hash, the id generator and the database connection give are fields of the upload.
use quantime.Prelude.{
  ℕ, ◌≡◌, refl, Bool, true, false, not, Option, none, some, [], ◌∷◌, arith, if◌then◌else◌,
}
use quantime.Gateway.Store.{
  uploaded, Submission, Submissions, get_submission, has_upload, same_upload, overwrite,
  insert_submission, get_submission-append,
}

-- `file` is what `FormFile` gives: the body's hash and the size in the part's header.
pub record Upload : Type 0 where
  pub form_parses : Bool
  pub team_id : Option ℕ
  pub name : ℕ
  pub lang : Option ℕ
  pub file : Option (ℕ × ℕ)
  pub body_reads : Bool
  pub new_id : ℕ
  pub db_answers : Bool

pub data Response : Type 0 where
  bad_request internal_error : Response
  accepted : ℕ → ℕ → Response

abbrev pub uploaded_row : Upload → ℕ → ℕ → ℕ × ℕ → Submission
uploaded_row u team lang (hash, size) = record {
  id = u.new_id;
  team_id = team;
  name = u.name;
  lang = lang;
  hash = hash;
  image_tag = none;
  endpoint = none;
  status = uploaded;
  size_bytes = size;
  correctness = none;
}

-- From the read of the body on.
unfoldable pub store_upload : Upload → ℕ → ℕ → ℕ × ℕ → Submissions → Submissions × Response
store_upload u team lang file rows =
    if not u.body_reads
    then (rows, bad_request)
    else if not u.db_answers
    then (rows, internal_error)
    else (insert_submission (uploaded_row u team lang file) rows, accepted u.new_id file.0)

abbrev pub with_file : Upload → ℕ → ℕ → Option (ℕ × ℕ) → Submissions → Submissions × Response
with_file u team lang none rows = (rows, bad_request)
with_file u team lang (some file) rows = store_upload u team lang file rows

abbrev pub with_fields : Upload → Option ℕ → Option ℕ → Submissions → Submissions × Response
with_fields u none lang rows = (rows, bad_request)
with_fields u (some team) none rows = (rows, bad_request)
with_fields u (some team) (some lang) rows = with_file u team lang u.file rows

-- The table afterwards and the response; a response `accepted` also starts `buildAndDeploy`.
unfoldable pub create_submission : Upload → Submissions → Submissions × Response
unfolding store_upload
create_submission u rows =
    if not u.form_parses then (rows, bad_request) else with_fields u u.team_id u.lang rows

-- A request that is complete.
pub record IsComplete (u : Upload) (team lang : ℕ) (file : ℕ × ℕ) : Type 0 where
  pub parses : u.form_parses ≡ true
  pub has_team : u.team_id ≡ some team
  pub has_lang : u.lang ≡ some lang
  pub has_file : u.file ≡ some file
  pub reads : u.body_reads ≡ true
  pub answers : u.db_answers ≡ true

create_complete :
    (u : Upload) (team lang : ℕ) (file : ℕ × ℕ) (rows : Submissions)
    → IsComplete u team lang file
    → create_submission u rows
      ≡ (insert_submission (uploaded_row u team lang file) rows, accepted u.new_id file.0)
unfolding create_submission
create_complete u team lang file rows c = ground arith

-- The first upload of some bytes by a team can be polled under the id in the response, and is in
-- the status that the response names.
pub create_new :
    (u : Upload) (team lang : ℕ) (file : ℕ × ℕ) (rows : Submissions)
    → IsComplete u team lang file
    → get_submission u.new_id rows ≡ none
    → has_upload (uploaded_row u team lang file) rows ≡ false
    → let (rows', response) = create_submission u rows in
      (response ≡ accepted u.new_id file.0)
      × (get_submission u.new_id rows' ≡ some (uploaded_row u team lang file))
unfolding insert_submission
create_new u team lang file rows c new no_conflict =
    rw (create_complete u team lang file rows c, no_conflict)
      (
        refl,
        ground (arith, get_submission-append u.new_id (uploaded_row u team lang file) rows new),
      )

get_submission-overwrite-none :
    (j : ℕ) (s : Submission) (rows : Submissions)
    → get_submission j rows ≡ none
    → get_submission j (overwrite s rows) ≡ none
unfolding get_submission overwrite
get_submission-overwrite-none j s [] h = refl
get_submission-overwrite-none j s (r ∷ rows) h =
    ground (arith, get_submission-overwrite-none j s rows)

get_submission-overwrite_same :
    (j : ℕ) (s old : Submission) (rows : Submissions)
    → get_submission j rows ≡ some old
    → same_upload s old ≡ true
    → get_submission j (overwrite s rows)
      ≡ some (record old { status = s.status; image_tag = s.image_tag; endpoint = s.endpoint })
unfolding get_submission overwrite
get_submission-overwrite_same j s old [] h k = ground arith
get_submission-overwrite_same j s old (r ∷ rows) h k =
    ground (arith, get_submission-overwrite_same j s old rows)

-- A team that uploads the same bytes again gets an id that no row has, while the row that it had
-- is set back to "uploaded", with no image and no endpoint.
pub create_again :
    (u : Upload) (team lang : ℕ) (file : ℕ × ℕ) (rows : Submissions) (old : Submission)
    → IsComplete u team lang file
    → get_submission u.new_id rows ≡ none
    → get_submission old.id rows ≡ some old
    → same_upload (uploaded_row u team lang file) old ≡ true
    → has_upload (uploaded_row u team lang file) rows ≡ true
    → let (rows', response) = create_submission u rows in
      (response ≡ accepted u.new_id file.0)
      × (get_submission u.new_id rows' ≡ none)
      × (get_submission old.id rows'
          ≡ some (record old { status = uploaded; image_tag = none; endpoint = none }))
unfolding insert_submission
create_again u team lang file rows old c new had same conflict =
    let s = uploaded_row u team lang file in
    rw (create_complete u team lang file rows c, conflict)
      (
        refl,
        get_submission-overwrite-none u.new_id s rows new,
        get_submission-overwrite_same old.id s old rows had same,
      )
