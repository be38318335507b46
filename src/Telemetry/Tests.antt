-- ===== src/Telemetry/Tests.antt =====
-- services/telemetry/cmd/main.go on concrete samples.
use quantime.Prelude.{◌==◌, false, ℕ, ◌+◌, ◌≡◌, refl, true, none, some, List, [], ◌∷◌}
use quantime.Telemetry.Rows.{Sample, sell_text, market_text}
use quantime.Telemetry.Flusher.{Flusher, Event, sampled, ticked, lived, run_events}
use quantime.Go.Channel.{try_send}
use quantime.Telemetry.Intake.{
  Input, message, takes, ticks, lives, on_input, run_inputs, ready, IsAtMostOnce,
  run_inputs-IsAtMostOnce,
}
use quantime.Telemetry.Live.{account, samples_of, account-run_events}
use quantime.Prelude.{lookup}
use quantime.Telemetry.Scores.{Aggregates, math_exp_decay, latency_scale, composite}
use quantime.Telemetry.Finals.{Answers, Finals, higher}

abbrev sample : ℕ → Sample
sample id = record {
  run_id = 7;
  bot_id = 1;
  order_id = id;
  side = sell_text;
  type = market_text;
  price_x100 = 100;
  qty = 2;
  send_ts = 10;
  ack_ts = 15;
  latency_ns = 5;
  status = 0;
  err = none;
}

abbrev events : List Event
events =
    sampled (sample 1) true
    ∷ lived true (λ run. run == 7)
    ∷ sampled (sample 2) true
    ∷ ticked true
    ∷ lived true (λ run. false)
    ∷ sampled (sample 3) true
    ∷ []

abbrev idle : Flusher
idle = record { batch = []; aggs = []; table = []; published = []; lost = [] }

account-run_events_example :
    account 7 (run_events events idle) ≡ account 7 idle + samples_of 7 events
account-run_events_example = account-run_events 7 events idle tt

abbrev slow_run : Aggregates
slow_run = record {
  p99 = record { num = 200000000; den = 1 };
  tps = record { num = 100000; den = 1 };
  err_rate = record { num = 0; den = 500 };
}

-- A p99 of 200 ms gives a speed score of 50.
decay_test : math_exp_decay slow_run.p99 latency_scale ≡ record { num = 200000000; den = 400000000 }
unfolding math_exp_decay
decay_test = refl

abbrev all_answer : Answers
all_answer = record {
  aggregates = some slow_run;
  oracle = none;
  team_id = some 3;
  update_answers = true;
  has_redis = true;
  zadd_answers = true;
  hset_answers = true;
  publish_answers = true;
}

-- Team 3 had 90 points before.
abbrev board : Finals
board = record {
  updates = [];
  scores = (3, record { num = 90; den = 1 }) ∷ [];
  metrics = [];
  published = [];
}

old_score : lookup 3 board.scores ≡ some (record { num = 90; den = 1 })
unfolding lookup
old_score = refl

-- The score is the old one.
kept_test : higher (lookup 3 board.scores) (composite slow_run none) ≡ record { num = 90; den = 1 }
unfolding lookup composite
kept_test = refl

abbrev inputs : List Input
inputs =
    message (some (sample 1))
    ∷ message none
    ∷ message (some (sample 2))
    ∷ takes true
    ∷ ticks true
    ∷ lives true (λ run. false)
    ∷ []

run_inputs-IsAtMostOnce_example : IsAtMostOnce (run_inputs inputs ready)
run_inputs-IsAtMostOnce_example =
    run_inputs-IsAtMostOnce inputs (tt, (tt, (tt, (refl, (refl, (tt, tt))))))

inputs_test : (run_inputs inputs ready).buf.buffer ≡ sample 2 ∷ []
unfolding run_inputs on_input try_send
inputs_test = refl
