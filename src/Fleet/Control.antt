-- ===== src/Fleet/Control.antt =====
-- services/botfleet/cmd/main.go: the control handler of a replica of the fleet, and `runFleet`. A run's
-- context may end at any time. The number of bots starts no bot if it is negative, as if it were 0.
use quantime.Prelude.{
  ℕ, zero, suc, ◌+◌, ◌*◌, Bool, true, false, ◌||◌, Option, none, some, List, [], ◌∷◌, ◌==◌,
  if◌then◌else◌, map, ℤ, pos_part, is_nonpositive,
}

pub data Profile : Type 0 where
  replay : Profile
  other_profile : ℕ → Profile

pub record StartCmd : Type 0 where
  pub run_id : ℕ
  pub endpoint : ℕ
  pub profile : Profile
  pub seed : ℤ
  pub duration_sec : ℕ
  pub bots_per_fleet : ℤ
  pub target_rate_per_bot : ℕ

-- A message by its type, with what the second decoding of it gives.
pub data Message : Type 0 where
  bad_json unknown_type : Message
  start : Option StartCmd → Message
  cancel : Option ℕ → Message

-- The goroutine of a run: whether its context was cancelled, and whether it has its replica index.
pub record Job : Type 0 where
  pub cmd : StartCmd
  pub is_cancelled : Bool
  pub is_launched : Bool

pub record Replica : Type 0 where
  pub bots : ℕ
  pub supervisors : List ℕ
  pub jobs : List Job

abbrev pub has_run : ℕ → List ℕ → Bool
has_run run [] = false
has_run run (r ∷ rs) = run == r || has_run run rs

-- `delete(supervisors, run)`
abbrev pub delete : ℕ → List ℕ → List ℕ
delete run [] = []
delete run (r ∷ rs) = let rest = delete run rs in if run == r then rest else r ∷ rest

abbrev pub new_bots : StartCmd → ℕ → ℕ
new_bots c bots = if is_nonpositive c.bots_per_fleet then bots else pos_part c.bots_per_fleet

abbrev pub new_job : StartCmd → Job
new_job c = record { cmd = c; is_cancelled = false; is_launched = false }

abbrev pub add_job : StartCmd → Replica → Replica
add_job c r = record r { supervisors = c.run_id ∷ r.supervisors; jobs = new_job c ∷ r.jobs }

abbrev pub on_start : StartCmd → Replica → Replica
on_start c r =
    let r' = record r { bots = new_bots c r.bots } in
    if has_run c.run_id r.supervisors then r' else add_job c r'

abbrev pub cancel_job : ℕ → Job → Job
cancel_job run j = if j.cmd.run_id == run then record j { is_cancelled = true } else j

-- The cancel function in the map is that of the run's goroutine.
abbrev pub on_cancel : ℕ → Replica → Replica
on_cancel run r =
    if has_run run r.supervisors then record r { jobs = map (cancel_job run) r.jobs } else r

unfoldable pub on_control : Message → Replica → Replica
on_control bad_json r = r
on_control unknown_type r = r
on_control (start none) r = r
on_control (start (some c)) r = on_start c r
on_control (cancel none) r = r
on_control (cancel (some run)) r = on_cancel run r

-- A call of `runFleet`. The era is not in the code: how often the run's key had expired before.
pub record Launch : Type 0 where
  pub cmd : StartCmd
  pub bots : ℕ
  pub replica_idx : ℕ
  pub era : ℕ

pub record BotConfig : Type 0 where
  pub bot_id : ℕ
  pub run_id : ℕ
  pub endpoint : ℕ
  pub profile : Profile
  pub seed_offset : ℕ
  pub target_rate_per_bot : ℕ

abbrev pub bot_id : Launch → ℕ → ℕ
bot_id l i = l.replica_idx * l.bots + i

abbrev pub bot_config : Launch → ℕ → BotConfig
bot_config l i = record {
  bot_id = bot_id l i;
  run_id = l.cmd.run_id;
  endpoint = l.cmd.endpoint;
  profile = l.cmd.profile;
  seed_offset = bot_id l i;
  target_rate_per_bot = l.cmd.target_rate_per_bot;
}

-- The bots from number `i` on.
unfoldable pub bots_from : Launch → ℕ → ℕ → List BotConfig
bots_from l i zero = []
bots_from l i (suc n) = bot_config l i ∷ bots_from l (i + 1) n

pub record Fleet : Type 0 where
  pub replays : Bool
  pub bot_configs : List BotConfig
  pub publishes_summary : Bool

abbrev pub fleet_as : Launch → Profile → Fleet
fleet_as l replay = record {
  replays = l.replica_idx == 0;
  bot_configs = [];
  publishes_summary = l.replica_idx == 0;
}
fleet_as l (other_profile p) = record {
  replays = false;
  bot_configs = bots_from l 0 l.bots;
  publishes_summary = l.replica_idx == 0;
}

unfoldable pub run_fleet : Launch → Fleet
unfolding bots_from
run_fleet l = fleet_as l l.cmd.profile
