-- ===== src/Gateway/Summaries.antt =====
-- services/gateway/cmd/main.go: the subscription to run summaries, which keeps a container's log and removes
-- the container. The parsing of an endpoint, docker and the database's answers are parameters; a container
-- is its name.
use mathlib.Core.Path.{subst}
use mathlib.Core.Option
use quantime.Prelude.{
  ℕ, ◌≡◌, refl, ap, sym, ◌∙◌, Bool, true, false, ◌||◌, Option, none, some, List, [], ◌∷◌, ◌==◌,
  arith, if◌then◌else◌,
}
use quantime.Gateway.Store.{Submission, Submissions, get_submission, deployed, Run, get_run}
use quantime.Gateway.Results.{update_run, update_run_log, log_row}
use quantime.Gateway.Runs.{RunRequest, control, start_run, launch}
use quantime.Sandbox.Run.{remove_name, stop}

-- The tables of runs and the containers that exist.
pub record Platform : Type 0 where
  pub runs : List Run
  pub containers : List ℕ

-- The answers to the two queries, `docker logs`, the update and `docker rm`.
pub record Answers : Type 0 where
  pub run_answers : Bool
  pub submission_answers : Bool
  pub logs : Option ℕ
  pub update_answers : Bool
  pub removes : Bool

abbrev pub keep_log : Answers → ℕ → Option ℕ → List Run → List Run
keep_log a run_id none runs = runs
keep_log a run_id (some text) runs =
    let kept = update_run_log run_id text runs in if a.update_answers then kept else runs

abbrev pub stop_container : Answers → ℕ → Option ℕ → Platform → Platform
stop_container a run_id none p = p
stop_container a run_id (some name) p = record {
  runs = keep_log a run_id a.logs p.runs;
  containers = stop a.removes name p.containers;
}

-- `url.Parse(sub.Endpoint)` and `Hostname`; the empty endpoint has the empty name.
abbrev pub hostname_of : (ℕ → Option ℕ) → Option ℕ → Option ℕ
hostname_of hostname none = none
hostname_of hostname (some endpoint) = hostname endpoint

abbrev pub with_submission : (ℕ → Option ℕ) → Answers → ℕ → Option Submission → Platform → Platform
with_submission hostname a run_id none p = p
with_submission hostname a run_id (some sub) p =
    let stopped = stop_container a run_id (hostname_of hostname sub.endpoint) p in
    if a.submission_answers then stopped else p

abbrev pub with_run : (ℕ → Option ℕ) → Answers → ℕ → Submissions → Option Run → Platform → Platform
with_run hostname a run_id subs none p = p
with_run hostname a run_id subs (some r) p =
    let handled = with_submission hostname a run_id (get_submission r.submission_id subs) p in
    if a.run_answers then handled else p

-- A subject that does not have three parts names no run.
unfoldable pub on_summary : (ℕ → Option ℕ) → Answers → Option ℕ → Submissions → Platform → Platform
unfolding get_run get_submission update_run_log
on_summary hostname a none subs p = p
on_summary hostname a (some run_id) subs p =
    with_run hostname a run_id subs (get_run run_id p.runs) p

abbrev pub has_name : ℕ → List ℕ → Bool
has_name name [] = false
has_name name (c ∷ cs) = name == c || has_name name cs

has_name-remove_name : (name : ℕ) (cs : List ℕ) → has_name name (remove_name name cs) ≡ false
has_name-remove_name name [] = refl
has_name-remove_name name (c ∷ cs) = ground (arith, has_name-remove_name name cs)

get_run-update_run :
    (id j : ℕ) (f : Run → Run) (rows : List Run)
    → ((r : Run) → (f r).id ≡ r.id)
    → get_run j (update_run id f rows)
      ≡ (if j == id then Option.map f (get_run j rows) else get_run j rows)
unfolding get_run update_run
get_run-update_run id j f [] h = ground arith
get_run-update_run id j f (r ∷ rows) h = ground (arith, h r, get_run-update_run id j f rows h)

-- The platform after the summary of a run whose container was removed.
pub record IsStopped (run_id name text : ℕ) (r : Run) (sub : Submission) (subs : Submissions)
    (p : Platform) : Type 0 where
  pub gone : has_name name p.containers ≡ false
  pub logged : get_run run_id p.runs ≡ some (log_row text r)
  pub still_started :
      (req : RunRequest)
      → req.submission_id ≡ r.submission_id
      → req.decodes ≡ true
      → req.db_answers ≡ true
      → req.insert_answers ≡ true
      → req.bus_answers ≡ true
      → (start_run req subs p.runs).published ≡ some (control req sub)

start_run-deployed :
    (req : RunRequest) (sub : Submission) (subs : Submissions) (runs : List Run)
    → get_submission req.submission_id subs ≡ some sub
    → sub.status ≡ deployed
    → req.decodes ≡ true
    → req.db_answers ≡ true
    → req.insert_answers ≡ true
    → req.bus_answers ≡ true
    → (start_run req subs runs).published ≡ some (control req sub)
unfolding start_run launch
start_run-deployed req sub subs runs found is_up d b i u = rw (d, b, found, is_up, i, u) refl

-- Every query and every docker command succeeds.
abbrev pub all_answer : ℕ → Answers
all_answer text = record {
  run_answers = true;
  submission_answers = true;
  logs = some text;
  update_answers = true;
  removes = true;
}

on_summary_all :
    (hostname : ℕ → Option ℕ) (run_id endpoint name text : ℕ) (r : Run) (sub : Submission)
    (subs : Submissions) (p : Platform)
    → get_run run_id p.runs ≡ some r
    → get_submission r.submission_id subs ≡ some sub
    → sub.endpoint ≡ some endpoint
    → hostname endpoint ≡ some name
    → on_summary hostname (all_answer text) (some run_id) subs p ≡ record {
      runs = update_run_log run_id text p.runs;
      containers = remove_name name p.containers;
    }
unfolding on_summary
on_summary_all hostname run_id endpoint name text r sub subs p found has at host =
    let a = all_answer text in
    ap (λ o. with_run hostname a run_id subs o p) found
    ∙ ap (λ o. with_submission hostname a run_id o p) has
    ∙ ap (λ o. stop_container a run_id (hostname_of hostname o) p) at
    ∙ ap (λ o. stop_container a run_id o p) host

update_run_log-logged :
    (id text : ℕ) (rows : List Run) (r : Run)
    → get_run id rows ≡ some r
    → get_run id (update_run_log id text rows) ≡ some (log_row text r)
unfolding update_run_log
update_run_log-logged id text rows r found =
    get_run-update_run id id (log_row text) rows (λ x. refl) ∙ ground (arith, found)

-- If the queries and docker answer, the summary of a run removes the container at the endpoint of its
-- submission and keeps the container's log with the run. But the submission stays "deployed" at that
-- endpoint, so that a request for another run of it, if it decodes and the database and the bus answer,
-- still sends the bots there.
pub on_summary-IsStopped :
    (hostname : ℕ → Option ℕ) (run_id endpoint name text : ℕ) (r : Run) (sub : Submission)
    (subs : Submissions) (p : Platform)
    → get_run run_id p.runs ≡ some r
    → get_submission r.submission_id subs ≡ some sub
    → sub.status ≡ deployed
    → sub.endpoint ≡ some endpoint
    → hostname endpoint ≡ some name
    → IsStopped run_id name text r sub subs
        (on_summary hostname (all_answer text) (some run_id) subs p)
on_summary-IsStopped hostname run_id endpoint name text r sub subs p found has up at host =
    subst (IsStopped run_id name text r sub subs)
      (sym (on_summary_all hostname run_id endpoint name text r sub subs p found has at host))
      (record {
        gone = has_name-remove_name name p.containers;
        logged = update_run_log-logged run_id text p.runs r found;
        still_started = λ req same.
            start_run-deployed req sub subs (update_run_log run_id text p.runs)
              (ap (λ id. get_submission id subs) same ∙ has) up;
      })
