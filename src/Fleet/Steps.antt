-- ===== src/Fleet/Steps.antt =====
-- services/botfleet/cmd/main.go: the goroutine of a run on every replica of the fleet, which share the
-- counters in Redis. Redis drops a key at its deadline. `Incr` and the call of `runFleet` after it are one
-- step; `Expire` is a step of its own, which may be taken, or fail, any number of times while the run goes on.
use quantime.Prelude.{
  ltb, leb, ℕ, ◌+◌, Bool, true, false, not, ◌&&◌, ◌||◌, Option, none, some, List, [], ◌∷◌, ◌==◌,
  if◌then◌else◌, map,
}
use quantime.Fleet.Control.{StartCmd, Message, Job, Replica, Launch, delete, on_control}

-- The replicas by number; the time in seconds; by run, the counter, when its key expires, if it does, and
-- how often it has expired; and the calls of `runFleet` so far, the last first.
pub record System : Type 0 where
  pub replicas : ℕ → Replica
  pub clock : ℕ
  pub counters : ℕ → ℕ
  pub deadlines : ℕ → Option ℕ
  pub eras : ℕ → ℕ
  pub launches : List Launch

abbrev pub with_replica : System → ℕ → Replica → System
with_replica s n r = record s { replicas = λ k. if k == n then r else s.replicas k }

-- `Incr` on the counter of a run.
abbrev pub incr : (ℕ → ℕ) → ℕ → ℕ → ℕ
incr counters run r = if r == run then counters r + 1 else counters r

abbrev pub waits_for : ℕ → Job → Bool
waits_for run j = j.cmd.run_id == run && not j.is_launched

abbrev pub find_waiting : ℕ → List Job → Option StartCmd
find_waiting run [] = none
find_waiting run (j ∷ js) =
    let rest = find_waiting run js in if waits_for run j then some j.cmd else rest

abbrev pub mark_launched : ℕ → Job → Job
mark_launched run j = if waits_for run j then record j { is_launched = true } else j

abbrev pub launched : System → ℕ → Option StartCmd → System
launched s n none = s
launched s n (some c) =
    let r = s.replicas n in
    record (with_replica s n (record r { jobs = map (mark_launched c.run_id) r.jobs })) {
      counters = incr s.counters c.run_id;
      launches =
          record {
            cmd = c;
            bots = r.bots;
            replica_idx = s.counters c.run_id;
            era = s.eras c.run_id;
          }
          ∷ s.launches;
    }

-- The goroutine of a run on a replica, when `Incr` succeeds.
unfoldable pub claim : System → ℕ → ℕ → System
claim s n run = launched s n (find_waiting run (s.replicas n).jobs)

abbrev pub has_launched : ℕ → List Job → Bool
has_launched run [] = false
has_launched run (j ∷ js) = j.cmd.run_id == run && j.is_launched || has_launched run js

-- `time.Hour`
abbrev pub hour : ℕ
hour = 3600

abbrev pub set_deadline : Bool → System → ℕ → ℕ → Option ℕ
set_deadline false s run r = s.deadlines r
set_deadline true s run r = if r == run then some (s.clock + hour) else s.deadlines r

-- The goroutine's `Expire`, when it succeeds, which does nothing if there is no such key.
unfoldable pub expire : System → ℕ → ℕ → System
expire s n run =
    let has_key = has_launched run (s.replicas n).jobs && ltb 0 (s.counters run) in
    record s { deadlines = set_deadline has_key s run }

abbrev pub is_due : Option ℕ → ℕ → Bool
is_due none now = false
is_due (some deadline) now = leb deadline now

-- Some time goes by, and the keys that are due expire.
unfoldable pub pass : System → ℕ → System
pass s seconds =
    let now = s.clock + seconds in
    record s {
      clock = now;
      counters = λ r. if is_due (s.deadlines r) now then 0 else s.counters r;
      deadlines = λ r. if is_due (s.deadlines r) now then none else s.deadlines r;
      eras = λ r. if is_due (s.deadlines r) now then s.eras r + 1 else s.eras r;
    }

abbrev pub remove_job : ℕ → List Job → List Job
remove_job run [] = []
remove_job run (j ∷ js) =
    let rest = remove_job run js in if j.cmd.run_id == run then js else j ∷ rest

-- The goroutine returns, after `runFleet` or when `Incr` fails: its deferred call.
unfoldable pub finish : System → ℕ → ℕ → System
finish s n run =
    let r = s.replicas n in
    with_replica s n
      (record r { supervisors = delete run r.supervisors; jobs = remove_job run r.jobs })

unfoldable pub receive : System → ℕ → Message → System
unfolding on_control
receive s n m = with_replica s n (on_control m (s.replicas n))

pub data Step : System → System → Type 0 where
  receives : (s : System) (n : ℕ) (m : Message) → Step s (receive s n m)
  claims : (s : System) (n run : ℕ) → Step s (claim s n run)
  expires : (s : System) (n run : ℕ) → Step s (expire s n run)
  passes : (s : System) (seconds : ℕ) → Step s (pass s seconds)
  finishes : (s : System) (n run : ℕ) → Step s (finish s n run)

-- The replicas have their number of bots from the environment, and no run.
abbrev pub boot : (ℕ → ℕ) → System
boot bots = record {
  replicas = λ n. record { bots = bots n; supervisors = []; jobs = [] };
  clock = 0;
  counters = λ run. 0;
  deadlines = λ run. none;
  eras = λ run. 0;
  launches = [];
}

pub data Reach (bots : ℕ → ℕ) : System → Type 0 where
  here : Reach bots (boot bots)
  next : {s s' : System} → Reach bots s → Step s s' → Reach bots s'
