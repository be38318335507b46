-- ===== src/Gateway/Store.antt =====
-- services/gateway/internal/store/store.go: the statements on the tables `submissions` and `runs`
-- of sql/init.sql. A table is a list of rows. Texts are opaque and only compared, so they are
-- numbers, and `none` stands for an empty image tag or endpoint. Every statement succeeds here
-- but for the constraints: a lost connection is the handlers' parameter.
use quantime.Prelude.{
  ℕ, ◌≡◌, refl, Bool, true, false, ◌&&◌, Option, none, some, List, [], ◌∷◌, ◌++◌, arith, ◌==◌,
  if◌then◌else◌,
}
use mathlib.Core.Option

pub data SubmissionStatus : Type 0 where
  uploaded building built deployed failed : SubmissionStatus

pub record Submission : Type 0 where
  pub id : ℕ
  pub team_id : ℕ
  pub name : ℕ
  pub lang : ℕ
  pub hash : ℕ
  pub image_tag : Option ℕ
  pub endpoint : Option ℕ
  pub status : SubmissionStatus
  pub size_bytes : ℕ
  pub correctness : Option ℕ

abbrev pub Submissions : Type 0
Submissions = List Submission

-- `SELECT … WHERE id = $1`; `none` for `pgx.ErrNoRows`.
unfoldable pub get_submission : ℕ → Submissions → Option Submission
get_submission id [] = none
get_submission id (s ∷ rows) =
    let rest = get_submission id rows in if s.id == id then some s else rest

-- The row that the constraint `UNIQUE (team_id, hash)` names.
abbrev pub same_upload : Submission → Submission → Bool
same_upload s r = r.team_id == s.team_id && r.hash == s.hash

unfoldable pub has_upload : Submission → Submissions → Bool
has_upload s [] = false
has_upload s (r ∷ rows) = let rest = has_upload s rows in if same_upload s r then true else rest

-- `DO UPDATE SET status = EXCLUDED.status, image_tag = …, endpoint = …`
unfoldable pub overwrite : Submission → Submissions → Submissions
overwrite s [] = []
overwrite s (r ∷ rows) =
    (if same_upload s r
      then record r { status = s.status; image_tag = s.image_tag; endpoint = s.endpoint }
      else r)
    ∷ overwrite s rows

-- `INSERT … ON CONFLICT (team_id, hash)`, for an id that no row has.
unfoldable pub insert_submission : Submission → Submissions → Submissions
unfolding has_upload overwrite
insert_submission s rows = if has_upload s rows then overwrite s rows else rows ++ s ∷ []

unfoldable pub update : ℕ → (Submission → Submission) → Submissions → Submissions
update id f [] = []
update id f (s ∷ rows) = (if s.id == id then f s else s) ∷ update id f rows

-- `COALESCE(NULLIF(new, ''), old)`
abbrev pub keep_old : Option ℕ → Option ℕ → Option ℕ
keep_old none old = old
keep_old (some x) old = some x

abbrev pub set_status : SubmissionStatus → Option ℕ → Option ℕ → Submission → Submission
set_status status tag endpoint s = record s {
  status = status;
  image_tag = keep_old tag s.image_tag;
  endpoint = keep_old endpoint s.endpoint;
}

unfoldable pub update_submission_status :
    ℕ → SubmissionStatus → Option ℕ → Option ℕ → Submissions → Submissions
unfolding update
update_submission_status id status tag endpoint = update id (set_status status tag endpoint)

abbrev pub set_correctness : ℕ → Submission → Submission
set_correctness result s = record s { correctness = some result }

unfoldable pub update_submission_correctness : ℕ → ℕ → Submissions → Submissions
unfolding update
update_submission_correctness id result = update id (set_correctness result)

pub data RunStatus : Type 0 where
  running finished : RunStatus

-- The numbers of the JSON column `metrics`, in units in which they are whole; a key that is not there
-- reads as 0.
pub record Metrics : Type 0 where
  pub p50 : ℕ
  pub p90 : ℕ
  pub p99 : ℕ
  pub p99_9 : ℕ
  pub p99_99 : ℕ
  pub max : ℕ
  pub tps : ℕ
  pub err_pct : ℕ

pub record Run : Type 0 where
  pub id : ℕ
  pub submission_id : ℕ
  pub team_id : ℕ
  pub profile : ℕ
  pub seed : ℕ
  pub status : RunStatus
  pub finished_at : Option ℕ
  pub score : Option ℕ
  pub metrics : Option Metrics
  pub is_baseline : Bool
  pub raw_log : Option ℕ

unfoldable pub get_run : ℕ → List Run → Option Run
get_run id [] = none
get_run id (r ∷ rows) = let rest = get_run id rows in if r.id == id then some r else rest

-- `INSERT INTO runs`, for an id that no row has; the other columns take their defaults.
unfoldable pub insert_run : Run → List Run → List Run
insert_run r rows = rows ++ r ∷ []

-- `UPDATE runs SET is_baseline = (id = $1) WHERE team_id = $2`
unfoldable pub set_baseline : ℕ → ℕ → List Run → List Run
set_baseline id team [] = []
set_baseline id team (r ∷ rows) =
    (if r.team_id == team then record r { is_baseline = r.id == id } else r)
    ∷ set_baseline id team rows

pub get_submission-update :
    (id j : ℕ) (f : Submission → Submission) (rows : Submissions)
    → ((s : Submission) → (f s).id ≡ s.id)
    → get_submission j (update id f rows)
      ≡ (if j == id then Option.map f (get_submission j rows) else get_submission j rows)
unfolding get_submission update
get_submission-update id j f [] h = ground arith
get_submission-update id j f (s ∷ rows) h = ground (arith, h s, get_submission-update id j f rows h)

pub get_submission-append :
    (j : ℕ) (s : Submission) (rows : Submissions)
    → get_submission j rows ≡ none
    → get_submission j (rows ++ s ∷ []) ≡ (if s.id == j then some s else none)
unfolding get_submission
get_submission-append j s [] h = refl
get_submission-append j s (r ∷ rows) h = ground (arith, get_submission-append j s rows)
