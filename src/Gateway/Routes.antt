-- ===== src/Gateway/Routes.antt =====
-- services/gateway/internal/api/router.go, NewRouter: the table of routes, and what net/http's ServeMux does
-- with the patterns that it has. A path is the list of its segments, cleaned and unescaped; a pattern of GET
-- also matches HEAD, and `{id}` one segment that is not empty.
use Prim.Native.String.{String}
use text.Mathlib.Text.{◌==◌}
use quantime.Prelude.{
  Bool, true, false, not, ◌&&◌, ◌||◌, Option, none, some, List, [], ◌∷◌, if◌then◌else◌,
}

pub data Segment : Type 0 where
  literal : String → Segment
  wildcard : Segment

pub data RouteMethod : Type 0 where
  get post : RouteMethod

pub data Target : Type 0 where
  health create_submission get_submission start_run get_run cancel_run set_baseline get_regression :
      Target
  get_leaderboard get_leaderboard_summary stream_run get_judge_teams get_judge_runs : Target
  update_weights reset_platform : Target

pub record Route : Type 0 where
  pub method : RouteMethod
  pub pattern : List Segment
  pub target : Target

abbrev pub route : RouteMethod → List Segment → Target → Route
route method pattern target = record { method = method; pattern = pattern; target = target }

abbrev pub api : List Segment → List Segment
api rest = literal "api" ∷ rest

unfoldable pub routes : List Route
routes =
    route get (api (literal "health" ∷ [])) health
    ∷ route post (api (literal "submissions" ∷ [])) create_submission
    ∷ route get (api (literal "submissions" ∷ wildcard ∷ [])) get_submission
    ∷ route post (api (literal "runs" ∷ [])) start_run
    ∷ route get (api (literal "runs" ∷ wildcard ∷ [])) get_run
    ∷ route post (api (literal "runs" ∷ wildcard ∷ literal "cancel" ∷ [])) cancel_run
    ∷ route post (api (literal "runs" ∷ wildcard ∷ literal "baseline" ∷ [])) set_baseline
    ∷ route get (api (literal "runs" ∷ wildcard ∷ literal "regression" ∷ [])) get_regression
    ∷ route get (api (literal "leaderboard" ∷ [])) get_leaderboard
    ∷ route post (api (literal "leaderboard-summary" ∷ [])) get_leaderboard_summary
    ∷ route get (literal "ws" ∷ literal "runs" ∷ wildcard ∷ []) stream_run
    ∷ route get (api (literal "judge" ∷ literal "teams" ∷ [])) get_judge_teams
    ∷ route get (api (literal "judge" ∷ literal "runs" ∷ [])) get_judge_runs
    ∷ route post (api (literal "judge" ∷ literal "weights" ∷ [])) update_weights
    ∷ route post (api (literal "judge" ∷ literal "reset" ∷ [])) reset_platform
    ∷ []

abbrev pub method_matches : RouteMethod → String → Bool
method_matches get m = m == "GET" || m == "HEAD"
method_matches post m = m == "POST"

abbrev pub segment_matches : Segment → String → Bool
segment_matches (literal w) x = w == x
segment_matches wildcard x = not (x == "")

unfoldable pub path_matches : List Segment → List String → Bool
path_matches [] [] = true
path_matches [] (x ∷ xs) = false
path_matches (p ∷ ps) [] = false
path_matches (p ∷ ps) (x ∷ xs) = segment_matches p x && path_matches ps xs

-- `r.PathValue("id")`, "" for a pattern without it.
unfoldable pub path_value : List Segment → List String → String
path_value [] path = ""
path_value (p ∷ ps) [] = ""
path_value (literal w ∷ ps) (x ∷ xs) = path_value ps xs
path_value (wildcard ∷ ps) (x ∷ xs) = x

abbrev pub route_matches : String → List String → Route → Bool
route_matches m path r = method_matches r.method m && path_matches r.pattern path

-- Statuses 404 and 405, or the handler with the value of its id.
pub data Dispatched : Type 0 where
  not_found method_not_allowed : Dispatched
  handler : Target → String → Dispatched

unfoldable pub has_path : List Route → List String → Bool
unfolding path_matches
has_path [] path = false
has_path (r ∷ rs) path = path_matches r.pattern path || has_path rs path

unfoldable pub first_match : List Route → String → List String → Option Route
unfolding path_matches
first_match [] m path = none
first_match (r ∷ rs) m path =
    let rest = first_match rs m path in if route_matches m path r then some r else rest

abbrev pub dispatched : Bool → List String → Option Route → Dispatched
dispatched found path (some r) = handler r.target (path_value r.pattern path)
dispatched found path none = if found then method_not_allowed else not_found

unfoldable pub dispatch : List Route → String → List String → Dispatched
unfolding has_path first_match path_value
dispatch rs m path = dispatched (has_path rs path) path (first_match rs m path)
