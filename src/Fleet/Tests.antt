-- ===== src/Fleet/Tests.antt =====
-- services/botfleet on concrete bots, lines and replicas.
use quantime.Prelude.{pos, ◌+◌, ◌≡◌, refl, true, false, none, some, arith}
use quantime.Engine.Types.{new_engine, OrderReq, limit, buy}
use quantime.Engine.Submit.{is_seen, refusal}
use quantime.Fleet.Rng.{word, splitmix, advance}
use quantime.Fleet.Bot.{Config, Bot, burst, new_bot, round, round-refusal}
use quantime.Fleet.Replay.{Line, replay_id, replay_line, replay_client_id}
use quantime.Prelude.{map, [], ◌∷◌, ◌==◌, if◌then◌else◌}
use quantime.Fleet.Schedule.{World, answered, drive_all}
use quantime.Fleet.Latency.{SampleOf, due, drive_all-IsMeasured}
use quantime.Prelude.{get_elem?, ℕ, ◌+◌}
use quantime.Fleet.Control.{StartCmd, bot_id, other_profile, start}
use quantime.Fleet.Steps.{
  System, claim, receive, finish, expire, pass, hour, boot, Reach, here, next, receives, claims,
  expires,
}
use quantime.Fleet.Launches.{IsSound, Reach-IsSound}

abbrev config : Config
config = record { bot_id = 4; profile = burst; seed = 42; open_loop = false }

abbrev bot : Bot
bot = new_bot config

bot_unseen : is_seen bot.cfg.bot_id (word (bot.next_oid + 1)) new_engine.seen_ids ≡ false
unfolding is_seen new_engine
bot_unseen = refl

round-refusal_example : refusal new_engine (round true bot).order ≡ none
round-refusal_example = round-refusal new_engine true bot bot_unseen

abbrev line : Line
line = record {
  has_time_prefix = false;
  columns = 6;
  etype = pos 1;
  oid = 12;
  size = pos 30;
  price = pos 1000000;
  dir = pos 1;
}

abbrev line_order : OrderReq
line_order = record {
  id = 20000012;
  client_id = replay_client_id;
  side = buy;
  type = limit;
  price = pos 10000;
  qty = pos 30;
  target_id = 20000012;
}

line-replayed : replay_line 2 line ≡ some line_order
unfolding replay_line
line-replayed = refl

line_unseen : is_seen 9000 (replay_id 2 12) new_engine.seen_ids ≡ false
unfolding is_seen new_engine
line_unseen = refl

-- The first output of splitmix64 for the seed 42.
splitmix_42 : splitmix (advance 42) ≡ 0xBDD732262FEB6E95
unfolding splitmix
splitmix_42 = refl

abbrev start_seven : StartCmd
start_seven = record {
  run_id = 7;
  endpoint = 1;
  profile = other_profile 0;
  seed = pos 42;
  duration_sec = 30;
  bots_per_fleet = pos 3;
  target_rate_per_bot = 0;
}

-- Two replicas start run 7, claim their indices, and call Expire.
abbrev two_replicas : System
two_replicas =
    expire
      (claim
        (expire
          (claim
            (receive (receive (boot (λ n. 50)) 0 (start (some start_seven))) 1
              (start (some start_seven)))
            0 7)
          0 7)
        1 7)
      1 7

two_replicas-Reach : Reach (λ n. 50) two_replicas
two_replicas-Reach =
    next
      (next
        (next (next (next (next here (receives _ 0 _)) (receives _ 1 _)) (claims _ 0 7))
          (expires _ 0 7))
        (claims _ 1 7))
      (expires _ 1 7)

launched_test : map (λ l. l.replica_idx) two_replicas.launches ≡ 1 ∷ 0 ∷ []
unfolding claim receive expire
launched_test = refl

-- An hour later the run ends on replica 0 and starts there again: the index is 0 once more.
abbrev an_hour_later : System
an_hour_later =
    claim (receive (finish (pass two_replicas hour) 0 7) 0 (start (some start_seven))) 0 7

an_hour_later_test :
    map {B = ℕ × ℕ} (λ l. (l.replica_idx, l.era)) an_hour_later.launches
    ≡ (0, 1) ∷ (1, 0) ∷ (0, 0) ∷ []
unfolding claim receive expire pass finish
an_hour_later_test = refl

Reach-IsSound_example : IsSound two_replicas
Reach-IsSound_example = Reach-IsSound (λ n. 50) two_replicas two_replicas-Reach

abbrev start_eight : StartCmd
start_eight = record start_seven { run_id = 8; bots_per_fleet = pos 2 }

-- Run 8 starts on replica 1 before that replica claims its index for run 7: it has 2 bots there, not 3,
-- and its first one has the id of the last one on replica 0.
abbrev mixed : System
mixed =
    claim
      (receive
        (claim
          (receive (receive (boot (λ n. 50)) 0 (start (some start_seven))) 1
            (start (some start_seven)))
          0 7)
        1 (start (some start_eight)))
      1 7

mixed_bots_test : map (λ l. l.bots) mixed.launches ≡ 2 ∷ 3 ∷ []
unfolding claim receive
mixed_bots_test = refl

mixed_ids_test :
    map (λ l. bot_id l (if l.replica_idx == 0 then 2 else 0)) mixed.launches ≡ 2 ∷ 2 ∷ []
unfolding claim receive
mixed_ids_test = refl

abbrev late_world : ℕ → World
late_world n = record {
  high_rate = true;
  send_ts = 9000 + n;
  ack_ts = 9500 + n;
  outcome = answered (some (3 ∷ []));
}

-- An engine that is behind: both orders leave at once, 1000 apart by the schedule.
drive_all-IsMeasured_example :
    SampleOf 7 1000
      (record config { open_loop = true })
      (due true 5000 1000 1 (late_world 1))
      2
      (late_world 1)
      (get_elem?
        (drive_all 7 1000
          (late_world 0 ∷ late_world 1 ∷ [])
          (record { bot = new_bot (record config { open_loop = true }); sched = 5000 }))
        1)
drive_all-IsMeasured_example =
    drive_all-IsMeasured 7 1000 (record config { open_loop = true }) 5000
      (late_world 0 ∷ late_world 1 ∷ []) 1 (late_world 1) refl
      (omega arith, omega arith, omega arith)
