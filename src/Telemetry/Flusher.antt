-- ===== src/Telemetry/Flusher.antt =====
-- services/telemetry/cmd/main.go, `flusher` and `publishLive`. The cases of the `select` are events;
-- whether an insert succeeds, whether Redis is connected, and whether it takes the snapshot of a run, are
-- parameters of the events. A latency, and the sum of latencies, are 64-bit patterns. A live
-- snapshot keeps the sums, of which the code takes the quotients. The loop over the map `aggs` is in
-- the order of an association list.
use quantime.Prelude.{
  ◌%◌, ◌^◌, ℕ, ◌+◌, ◌-◌, Bool, true, false, Option, none, some, List, [], ◌∷◌, ◌++◌, map, length,
  leb, ◌==◌, if◌then◌else◌,
}
use quantime.Telemetry.Rows.{Sample, Row, to_row}

pub record RunAgg : Type 0 where
  pub orders : ℕ
  pub errors : ℕ
  pub sum_latency : ℕ
  pub last_orders : ℕ
  pub idle_ticks : ℕ

pub record Snapshot : Type 0 where
  pub run_id : ℕ
  pub orders : ℕ
  pub tps : ℕ
  pub sum_latency : ℕ
  pub errors : ℕ

-- `lost` has the snapshots whose publishing failed, which no program keeps.
pub record Flusher : Type 0 where
  pub batch : List Sample
  pub aggs : List (ℕ × RunAgg)
  pub table : List Row
  pub published : List Snapshot
  pub lost : List Snapshot

pub data Event : Type 0 where
  sampled : Sample → Bool → Event
  ticked : Bool → Event
  lived : Bool → (ℕ → Bool) → Event

abbrev pub batch_max : ℕ
batch_max = 5000

abbrev pub is_empty : List Sample → Bool
is_empty [] = true
is_empty (s ∷ ss) = false

-- An insert that fails is only logged.
unfoldable pub flush : Bool → Flusher → Flusher
flush inserts f =
    if is_empty f.batch
    then f
    else if inserts
    then record f { batch = []; table = f.table ++ map to_row f.batch }
    else record f { batch = [] }

abbrev pub new_agg : RunAgg
new_agg = record { orders = 0; errors = 0; sum_latency = 0; last_orders = 0; idle_ticks = 0 }

abbrev pub failed : Option ℕ → Bool
failed none = false
failed (some e) = true

abbrev pub count_sample : Sample → RunAgg → RunAgg
count_sample s a = record a {
  orders = a.orders + 1;
  sum_latency = (a.sum_latency + s.latency_ns) % 2 ^ 64;
  errors = if failed s.err then a.errors + 1 else a.errors;
}

-- The counters are changed where they stand, or a new entry is made.
unfoldable pub bump : Sample → List (ℕ × RunAgg) → List (ℕ × RunAgg)
bump s [] = (s.run_id, count_sample s new_agg) ∷ []
bump s ((k, a) ∷ m) =
    let later = (k, a) ∷ bump s m in if k == s.run_id then (k, count_sample s a) ∷ m else later

unfoldable pub on_sample : Bool → Sample → Flusher → Flusher
unfolding flush bump
on_sample inserts s f =
    let f' = record f { batch = f.batch ++ s ∷ []; aggs = bump s f.aggs } in
    if leb batch_max (length f'.batch) then flush inserts f' else f'

-- The loop's body for one run: what stays in the map, and the snapshot if one is published.
unfoldable pub live_run : ℕ → RunAgg → Option RunAgg × Option Snapshot
live_run run a =
    let tps = a.orders - a.last_orders in
    let a' = record a { last_orders = a.orders } in
    if tps == 0
    then (
      if leb 15 (a.idle_ticks + 1)
          then none
          else some (record a' { idle_ticks = a.idle_ticks + 1 }),
      none,
    )
    else (
      some (record a' { idle_ticks = 0 }),
      some (record {
        run_id = run;
        orders = a.orders;
        tps = tps;
        sum_latency = a.sum_latency;
        errors = a.errors;
      }),
    )

abbrev pub keep : ℕ → Option RunAgg → List (ℕ × RunAgg) → List (ℕ × RunAgg)
keep run none m = m
keep run (some a) m = (run, a) ∷ m

abbrev pub emit : Option Snapshot → List Snapshot → List Snapshot
emit none out = out
emit (some s) out = s ∷ out

unfoldable pub publish_runs : List (ℕ × RunAgg) → List (ℕ × RunAgg) × List Snapshot
unfolding live_run
publish_runs [] = ([], [])
publish_runs ((run, a) ∷ m) =
    let (m', out) = publish_runs m in
    let (stays, snapshot) = live_run run a in (keep run stays m', emit snapshot out)

-- The snapshots that Redis takes, and those of the runs for which it fails; a failure is only logged.
unfoldable pub accepted : (ℕ → Bool) → List Snapshot → List Snapshot
accepted takes [] = []
accepted takes (s ∷ out) =
    let rest = accepted takes out in if takes s.run_id then s ∷ rest else rest

unfoldable pub refused : (ℕ → Bool) → List Snapshot → List Snapshot
refused takes [] = []
refused takes (s ∷ out) = let rest = refused takes out in if takes s.run_id then rest else s ∷ rest

-- Without a Redis client the function returns at once.
unfoldable pub publish_live : Bool → (ℕ → Bool) → Flusher → Flusher
unfolding publish_runs accepted refused
publish_live has_redis takes f =
    if has_redis
    then (let (m, out) = publish_runs f.aggs in
        record f {
          aggs = m;
          published = f.published ++ accepted takes out;
          lost = f.lost ++ refused takes out;
        })
    else f

unfoldable pub step : Event → Flusher → Flusher
unfolding on_sample flush publish_live
step (sampled s inserts) f = on_sample inserts s f
step (ticked inserts) f = flush inserts f
step (lived redis takes) f = publish_live redis takes f

unfoldable pub run_events : List Event → Flusher → Flusher
unfolding step
run_events [] f = f
run_events (e ∷ es) f = run_events es (step e f)

-- The whole goroutine: the events until the context is done, and the last flush.
unfoldable pub flusher : List Event → Bool → Flusher
unfolding run_events flush
flusher es inserts =
    flush inserts
      (run_events es (record { batch = []; aggs = []; table = []; published = []; lost = [] }))
