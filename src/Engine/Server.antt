-- ===== src/Engine/Server.antt =====
-- examples/sample-engine-go/main.go, `main`: the HTTP handlers, the channel of jobs and the goroutine that
-- owns the engine, as steps in any order. A job carries the number of its response channel; the clock's
-- readings come with the step that serves it. A handler that finds the channel full waits, so that it
-- takes no step.
use quantime.Prelude.{ℕ, ◌+◌, ◌<◌, ◌≡◌, Option, none, some, List, [], ◌∷◌, ◌++◌, length, pos}
use quantime.Go.Channel.{Channel, make, try_send}
use quantime.Engine.Types.{
  RestingOrder, PriceLevel, StpPolicy, Engine, OrderReq, SubmitResp, other_side, other_type,
  new_engine,
}
use quantime.Engine.Book.{best_bid, best_ask}
use quantime.Engine.Submit.{submit}

pub record Job : Type 0 where
  pub ticket : ℕ
  pub req : OrderReq

-- A body that does not decode is `none`.
pub data Request : Type 0 where
  get_healthz get_snapshot : Request
  post_submit : Option OrderReq → Request

pub record BestLevel : Type 0 where
  pub px : ℕ
  pub sz : ℕ

pub data Answer : Type 0 where
  healthy bad_request : Answer
  snapshot : Option BestLevel → Option BestLevel → Answer

-- `orderReq{Type: "__snap"}`
abbrev pub snap_request : OrderReq
snap_request = record {
  id = 0;
  client_id = 0;
  side = other_side;
  type = other_type;
  price = pos 0;
  qty = pos 0;
  target_id = 0;
}

-- What a handler does at once: it answers, or it has a request for the engine.
pub data Handled : Type 0 where
  answers : Answer → Handled
  sends : OrderReq → Handled

abbrev pub handle : Request → Handled
handle get_healthz = answers healthy
handle get_snapshot = sends snap_request
handle (post_submit none) = answers bad_request
handle (post_submit (some req)) = sends req

abbrev pub total_qty : List RestingOrder → ℕ
total_qty [] = 0
total_qty (o ∷ os) = o.qty + total_qty os

abbrev pub maybe_best : Option PriceLevel → Option BestLevel
maybe_best none = none
maybe_best (some l) = some (record { px = l.price_x100; sz = total_qty l.orders })

unfoldable pub snapshot_of : Engine → Answer
unfolding best_bid best_ask
snapshot_of e = snapshot (maybe_best (best_bid e.bk)) (maybe_best (best_ask e.bk))

abbrev pub jobs_capacity : ℕ
jobs_capacity = 16384

-- A job that was served, with the readings of the clock meanwhile.
pub record Served : Type 0 where
  pub job : Job
  pub clock : ℕ → ℕ
  pub now : ℕ

pub record Reply : Type 0 where
  pub ticket : ℕ
  pub resp : SubmitResp

-- `sent` has the jobs in the order in which the channel took them.
pub record Server : Type 0 where
  pub engine : Engine
  pub jobs : Channel Job
  pub sent : List Job
  pub served : List Served
  pub replies : List Reply
  pub snapshots : List Answer

abbrev pub send_job : Job → Server → Server
send_job j s = record s { jobs = try_send jobs_capacity j s.jobs; sent = s.sent ++ j ∷ [] }

-- `j.resp <- eng.submit(j.req)`, for the first job.
abbrev pub serve_job : Served → List Job → Server → Server
serve_job x rest s =
    let (e, resp) = submit x.clock x.now s.engine x.job.req in
    record s {
      engine = e;
      jobs = record (s.jobs) { buffer = rest };
      served = s.served ++ x ∷ [];
      replies = s.replies ++ record { ticket = x.job.ticket; resp = resp } ∷ [];
    }

-- A snapshot reads the book of the engine at any time after its job was served, and not in the goroutine
-- that owns it.
abbrev pub read_snapshot : Server → Server
read_snapshot s = record s { snapshots = snapshot_of s.engine ∷ s.snapshots }

pub data Step : Server → Server → Type 0 where
  sending :
      (s : Server) (r : Request) (j : Job)
      → handle r ≡ sends j.req
      → length s.jobs.buffer < jobs_capacity
      → Step s (send_job j s)
  serving :
      (s : Server) (x : Served) (rest : List Job)
      → s.jobs.buffer ≡ x.job ∷ rest
      → Step s (serve_job x rest s)
  reading :
      (s : Server) (x : Served) (before after : List Served)
      → s.served ≡ before ++ x ∷ after
      → x.job.req ≡ snap_request
      → Step s (read_snapshot s)

abbrev pub boot : StpPolicy → Server
boot policy = record {
  engine = record new_engine { stp_policy = policy };
  jobs = make;
  sent = [];
  served = [];
  replies = [];
  snapshots = [];
}

pub data Reach (policy : StpPolicy) : Server → Type 0 where
  here : Reach policy (boot policy)
  next : {s s' : Server} → Reach policy s → Step s s' → Reach policy s'
