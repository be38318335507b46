-- ===== src/Gateway/ServerTests.antt =====
-- services/gateway/internal/api: ws.go and router.go, and services/gateway/cmd/main.go, on concrete events
-- and calls.
use quantime.Prelude.{ℕ, ◌≡◌, refl, true, false, Option, none, some, List, [], ◌∷◌, ◌++◌, length}
use quantime.Go.Channel.{try_send}
use quantime.Gateway.Store.{
  Submission, Submissions, Run, get_submission, get_run, deployed, running,
}
use quantime.Gateway.Streams.{
  Event, publishes, writes, pings, done, accepted, on_event, run_stream, writes_for, Drained,
  IsStream, run_stream-IsStream, run_stream-drains,
}
use quantime.Gateway.Summaries.{Platform, all_answer, on_summary, IsStopped, on_summary-IsStopped}
use quantime.Gateway.Middleware.{
  get, Handler, write_header, write, with_middleware, analyzer_middleware, start,
}
use quantime.Gateway.Connects.{
  Attempts, connected, connect_loop, pause, store_limit, short_limit, store_fuel, short_fuel,
  sleeping, with_jetstream, store_connect, cache_connect, bus_connect,
}
use quantime.Gateway.Dials.{Ends, connects-End}
use quantime.Prelude.{suc, ◌+◌, ◌*◌, ◌≤◌, ltb, arith}
use Prim.Native.String.{String}
use quantime.Gateway.Routes as Routes
use quantime.Gateway.Routes.{
  Route, route, api, literal, wildcard, get_regression, routes, route_matches, path_matches,
  path_value, dispatch, handler, method_not_allowed, has_path, first_match,
}
use quantime.Gateway.Dispatch.{dispatch-route_matches}
use quantime.Prelude.{get_elem?}
use quantime.Gateway.Answered.{IsAnswered, middleware-IsAnswered}

abbrev stream_events : List Event
stream_events = publishes 5 ∷ publishes 6 ∷ pings true ∷ writes true ∷ publishes 7 ∷ []

run_stream-IsStream_example : IsStream (run_stream (stream_events ++ done ∷ []) accepted)
run_stream-IsStream_example = run_stream-IsStream (stream_events ++ done ∷ [])

still_open : (run_stream stream_events accepted).is_open ≡ true
unfolding run_stream on_event try_send
still_open = refl

run_stream-drains_example :
    let s = run_stream stream_events accepted in
    Drained s s.ch.buffer (run_stream (writes_for (length s.ch.buffer)) s)
run_stream-drains_example = run_stream-drains stream_events still_open

client_test :
    (run_stream (stream_events ++ writes true ∷ writes false ∷ []) accepted).client ≡ 5 ∷ 6 ∷ []
unfolding run_stream on_event try_send
client_test = refl

abbrev sub : Submission
sub = record {
  id = 3;
  team_id = 1;
  name = 5;
  lang = 2;
  hash = 77;
  image_tag = some 8;
  endpoint = some 9;
  status = deployed;
  size_bytes = 300;
  correctness = some 100;
}

abbrev subs : Submissions
subs = sub ∷ []

abbrev ended : Run
ended = record {
  id = 50;
  submission_id = 3;
  team_id = 1;
  profile = 0;
  seed = 42;
  status = running;
  finished_at = none;
  score = none;
  metrics = none;
  is_baseline = false;
  raw_log = none;
}

-- Two containers, of which 20 is the one of the submission.
abbrev platform : Platform
platform = record { runs = ended ∷ []; containers = 20 ∷ 21 ∷ [] }

abbrev hostname : ℕ → Option ℕ
hostname endpoint = some 20

ended_there : get_run 50 platform.runs ≡ some ended
unfolding get_run
ended_there = refl

sub_there : get_submission 3 subs ≡ some sub
unfolding get_submission
sub_there = refl

on_summary-IsStopped_example :
    IsStopped 50 20 99 ended sub subs (on_summary hostname (all_answer 99) (some 50) subs platform)
on_summary-IsStopped_example =
    on_summary-IsStopped hostname 50 9 20 99 ended sub subs platform ended_there sub_there refl refl
      refl

containers_test : (on_summary hostname (all_answer 99) (some 50) subs platform).containers ≡ 21 ∷ []
unfolding on_summary get_run get_submission
containers_test = refl

-- A handler that sends a status, and one that panics half-way in it.
abbrev created_then_panics : Handler
created_then_panics m = record {
  calls = write_header 201 ∷ write ∷ write_header 500 ∷ [];
  panics = true;
}

middleware-IsAnswered_example :
    IsAnswered get (created_then_panics get) (with_middleware created_then_panics get start)
    × IsAnswered get (created_then_panics get) (analyzer_middleware created_then_panics get start)
middleware-IsAnswered_example = middleware-IsAnswered created_then_panics get

-- Nothing answers before the third attempt.
abbrev attempts : Attempts
attempts = record { connects = λ n. ltb 1 n; clock = λ n. 2000 * n; context_done = λ n. false }

attempts_pause : (n : ℕ) → 2000 * n + pause ≤ 2000 * suc n
attempts_pause n = omega arith

connects-End_example :
    Ends attempts (0 + store_limit) store_fuel some (store_connect true attempts 0)
    × Ends (sleeping attempts) (0 + short_limit) short_fuel some (cache_connect true attempts 0)
    × Ends attempts
        (0 + short_limit)
        short_fuel
        (λ r. with_jetstream true (some r))
        (bus_connect true attempts 0)
connects-End_example = connects-End true attempts 0 (omega arith) attempts_pause

store_test : store_connect true attempts 0 ≡ some connected
unfolding store_connect connect_loop
store_test = refl

abbrev regression_path : List String
regression_path = "api" ∷ "runs" ∷ "run_7" ∷ "regression" ∷ []

abbrev regression_route : Route
regression_route =
    route Routes.get (api (literal "runs" ∷ wildcard ∷ literal "regression" ∷ [])) get_regression

route_there : get_elem? routes 7 ≡ some regression_route
unfolding routes
route_there = refl

path_there : route_matches "HEAD" regression_path regression_route ≡ true
unfolding path_matches
path_there = refl

dispatch-route_matches_example :
    dispatch routes "HEAD" regression_path
    ≡ handler get_regression (path_value regression_route.pattern regression_path)
dispatch-route_matches_example =
    dispatch-route_matches 7 regression_route "HEAD" regression_path route_there path_there

id_test : path_value regression_route.pattern regression_path ≡ "run_7"
unfolding path_value
id_test = refl

not_allowed_test : dispatch routes "POST" regression_path ≡ method_not_allowed
unfolding dispatch routes has_path first_match path_matches
not_allowed_test = refl
