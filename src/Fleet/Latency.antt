-- ===== src/Fleet/Latency.antt =====
-- services/botfleet/internal/bot/bot.go: what the samples of `Bot.Run` measure.
use quantime.Prelude.{
  ℕ, zero, suc, ◌+◌, ◌-◌, ◌*◌, ◌^◌, ◌≤◌, ◌<◌, ◌≡◌, refl, ap, sym, ◌∙◌, Bool, true, false, Option,
  some, List, [], ◌∷◌, get_elem?, arith,
}
use mathlib.Core.Path.{subst}
use mathlib.Core.Option.{some-injective}
use quantime.Telemetry.Rows.{Sample}
use quantime.Engine.Types.{OrderReq}
use quantime.Fleet.Rng.{word}
use quantime.Fleet.Bot.{Bot, Config, Round, round, paced, build_order, order_of, new_bot}
use quantime.Fleet.Schedule.{World, effective, sample_of, next_sched, drive, drive_all, err_of}

-- When the order of a round counts as sent.
abbrev pub due : Bool → ℕ → ℕ → ℕ → World → ℕ
due true start interval i w = start + i * interval
due false start interval i w = w.send_ts

-- What the round keeps of a bot.
record Follows (b : Bot) (r : Round) : Type 0 where
  cfg_is : r.bot.cfg ≡ b.cfg
  oid_is : r.bot.next_oid ≡ word (b.next_oid + 1)
  id_is : r.order.id ≡ word (b.next_oid + 1)
  client_is : r.order.client_id ≡ b.cfg.bot_id

paced-Follows : (p high_rate : Bool) (b : Bot) → Follows b (paced p high_rate b)
unfolding build_order order_of
paced-Follows true high_rate b = record {
  cfg_is = refl;
  oid_is = refl;
  id_is = refl;
  client_is = refl;
}
paced-Follows false high_rate b = record {
  cfg_is = refl;
  oid_is = refl;
  id_is = refl;
  client_is = refl;
}

word_next : (n : ℕ) → word (word n + 1) ≡ word (n + 1)
word_next n = omega arith

word_latency : (ack eff : ℕ) → eff ≤ ack → ack < 2 ^ 64 → word (ack + 2 ^ 64 - eff) ≡ ack - eff
word_latency ack eff h k = omega (arith, h, k)

round-Follows : (high_rate : Bool) (b : Bot) → Follows b (round high_rate b)
unfolding round
round-Follows high_rate b = paced-Follows b.cfg.open_loop high_rate b

-- The sample of a round: from when it counts its order as sent, and how long the engine took from there,
-- the wait before the order was sent included.
pub record IsMeasured (cfg : Config) (sent : ℕ) (number : ℕ) (w : World) (s : Sample) : Type 0 where
  pub send_is : s.send_ts ≡ sent
  pub latency_is : s.latency_ns ≡ (w.ack_ts - w.send_ts) + (w.send_ts - sent)
  pub order_is : s.order_id ≡ word number
  pub bot_is : s.bot_id ≡ cfg.bot_id
  pub ack_is : s.ack_ts ≡ w.ack_ts
  pub err_is : s.err ≡ err_of w.outcome

-- A round after which the clock does not go back, and that does not send before its order is due.
abbrev pub IsClocked : ℕ → World → Type 0
IsClocked sent w = (sent ≤ w.send_ts) × (w.send_ts ≤ w.ack_ts) × (w.ack_ts < 2 ^ 64)

sample_of-IsMeasured :
    (run_id : ℕ) (cfg : Config) (sent number : ℕ) (w : World) (o : OrderReq)
    → IsClocked sent w
    → o.id ≡ word number
    → o.client_id ≡ cfg.bot_id
    → IsMeasured cfg sent number w (sample_of run_id sent o w)
sample_of-IsMeasured run_id cfg sent number w o (due_by, acked, small) id client = record {
  send_is = refl;
  latency_is =
      word_latency w.ack_ts sent (omega (arith, due_by, acked)) small
      ∙ omega (arith, due_by, acked);
  order_is = id;
  bot_is = client;
  ack_is = refl;
  err_is = refl;
}

due_now :
    (p : Bool) (start interval : ℕ) (w : World)
    → due p start interval 0 w ≡ effective p start w.send_ts
due_now true start interval w = omega arith
due_now false start interval w = refl

due_later :
    (p : Bool) (start interval i : ℕ) (w : World)
    → due p (next_sched p interval start) interval i w ≡ due p start interval (suc i) w
due_later true start interval i w = omega arith
due_later false start interval i w = refl

-- The number of the order after as many as its bot has sent.
record IsNumbered (n : ℕ) (cfg : Config) (b : Bot) : Type 0 where
  cfg_is : b.cfg ≡ cfg
  oid_is : b.next_oid ≡ word n

round-IsNumbered :
    (high_rate : Bool) (n : ℕ) (cfg : Config) (b : Bot)
    → IsNumbered n cfg b
    → IsNumbered (n + 1) cfg (round high_rate b).bot
round-IsNumbered high_rate n cfg b h =
    let f = round-Follows high_rate b in
    record {
      cfg_is = f.cfg_is ∙ h.cfg_is;
      oid_is = f.oid_is ∙ ap (λ k. word (k + 1)) h.oid_is ∙ word_next n;
    }

module _ (run_id interval : ℕ) (cfg : Config) where
  -- The sample with a number is that of its round.
  abbrev pub SampleOf : ℕ → ℕ → World → Option Sample → Type 0
  SampleOf sent number w o = (s : Sample) × (o ≡ some s) × IsMeasured cfg sent number w s

  first_sample :
      (n start : ℕ) (w : World) (b : Bot)
      → IsNumbered n cfg b
      → IsClocked (due cfg.open_loop start interval 0 w) w
      → SampleOf
          (due cfg.open_loop start interval 0 w)
          (n + 1)
          w
          (some (drive run_id interval w (record { bot = b; sched = start })).0)
  unfolding drive
  first_sample n start w b h c =
      let o = (round w.high_rate b).order in
      let f = round-Follows w.high_rate b in
      let is_due =
        due_now cfg.open_loop start interval w
        ∙ ap (λ c. effective c.open_loop start w.send_ts) (sym h.cfg_is) in
      (
        sample_of run_id (effective b.cfg.open_loop start w.send_ts) o w,
        refl,
        subst
            (λ t.
              IsMeasured cfg (due cfg.open_loop start interval 0 w) (n + 1) w
                (sample_of run_id t o w))
            is_due
            (sample_of-IsMeasured run_id cfg (due cfg.open_loop start interval 0 w) (n + 1) w o c
              (f.id_is ∙ ap (λ k. word (k + 1)) h.oid_is ∙ word_next n)
              (f.client_is ∙ ap (λ c. c.bot_id) h.cfg_is)),
      )

  samples :
      (ws : List World) (i n start : ℕ) (w : World) (b : Bot)
      → IsNumbered n cfg b
      → get_elem? ws i ≡ some w
      → IsClocked (due cfg.open_loop start interval i w) w
      → SampleOf
          (due cfg.open_loop start interval i w)
          (n + i + 1)
          w
          (get_elem? (drive_all run_id interval ws (record { bot = b; sched = start })) i)
  unfolding drive_all drive
  samples [] i n start w b h there c = absurd (ground (arith, there))
  samples (v ∷ ws) zero n start w b h there c =
      subst
        (λ k.
          SampleOf (due cfg.open_loop start interval 0 w) k w
            (some (drive run_id interval v (record { bot = b; sched = start })).0))
        (omega arith)
        (subst
          (λ x.
            SampleOf (due cfg.open_loop start interval 0 w) (n + 1) w
              (some (drive run_id interval x (record { bot = b; sched = start })).0))
          (sym (some-injective v w there)) (first_sample n start w b h c))
  samples (v ∷ ws) (suc i) n start w b h there c =
      let start' = next_sched cfg.open_loop interval start in
      let same = due_later cfg.open_loop start interval i w in
      let rest =
        samples ws i (n + 1) start' w (round v.high_rate b).bot
          (round-IsNumbered v.high_rate n cfg b h) there
          (subst (λ t. IsClocked t w) (sym same) c) in
      subst
        (λ k. SampleOf (due cfg.open_loop start interval (suc i) w) k w (
          get_elem?
            (drive_all run_id interval ws
              (drive run_id interval v (record { bot = b; sched = start })).1)
            i))
        (omega arith)
        (subst
          (λ p. SampleOf (due cfg.open_loop start interval (suc i) w) (n + 1 + i + 1) w (
            get_elem?
              (drive_all run_id interval ws
                (record { bot = (round v.high_rate b).bot; sched = next_sched p interval start }))
              i))
          (ap (λ c. c.open_loop) (sym h.cfg_is))
          (subst
            (λ t. SampleOf t (n + 1 + i + 1) w (
              get_elem?
                (drive_all run_id interval ws
                  (record { bot = (round v.high_rate b).bot; sched = start' }))
                i))
            same rest))

-- Every order of a new bot publishes one sample, none is skipped. If the clock does not go back after it
-- and it is not sent before it is due, the sample of order i has the id i + 1 and counts as sent when the
-- order was due: in the open loop at the start plus i intervals, however late it was in fact sent, and in
-- the closed loop when it was sent. Its latency is what the engine took and that delay together.
pub drive_all-IsMeasured :
    (run_id interval : ℕ) (cfg : Config) (start : ℕ) (ws : List World) (i : ℕ) (w : World)
    → get_elem? ws i ≡ some w
    → IsClocked (due cfg.open_loop start interval i w) w
    → SampleOf run_id interval cfg
        (due cfg.open_loop start interval i w)
        (i + 1)
        w
        (get_elem? (drive_all run_id interval ws (record { bot = new_bot cfg; sched = start })) i)
unfolding new_bot
drive_all-IsMeasured run_id interval cfg start ws i w there c =
    subst
      (λ k.
        SampleOf run_id interval cfg (due cfg.open_loop start interval i w) k w (
          get_elem? (drive_all run_id interval ws (record { bot = new_bot cfg; sched = start })) i))
      (omega arith)
      (samples run_id interval cfg ws i 0 start w (new_bot cfg)
        (record { cfg_is = refl; oid_is = refl }) there c)
