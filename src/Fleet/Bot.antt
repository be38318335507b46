-- ===== src/Fleet/Bot.antt =====
-- services/botfleet/internal/bot/bot.go: one round of `Bot.Run`, up to the body that it posts. The
-- clock's test of the burst profile is a parameter. An int64 id is its 64-bit pattern, as in the engine.
use quantime.Prelude.{
  ℕ, pos, pos_part, ◌+◌, ◌-◌, ◌%◌, ◌^◌, ◌≤◌, ◌≡◌, Bool, true, false, none, arith, ltb, zero, suc,
  ◌==◌, if◌then◌else◌,
}
use quantime.Engine.Types.{Engine, OrderReq, buy, sell, OrderType, limit, market, cancel}
use quantime.Engine.Submit.{is_seen, refusal}
use quantime.Fleet.Rng.{Xoshiro, next, new_xoshiro, word}

pub data Profile : Type 0 where
  burst adversarial other_profile : Profile

pub record Config : Type 0 where
  pub bot_id : ℕ
  pub profile : Profile
  pub seed : ℕ
  pub open_loop : Bool

pub record Bot : Type 0 where
  pub cfg : Config
  pub rng : Xoshiro
  pub next_oid : ℕ

unfoldable pub new_bot : Config → Bot
new_bot cfg = record { cfg = cfg; rng = new_xoshiro (word cfg.seed); next_oid = 0 }

-- `pauseUs`, for one draw.
unfoldable pub pause_us : Profile → Bool → ℕ → ℕ
pause_us burst high_rate draw = if high_rate then 50 + draw % 200 else 500 + draw % 500
pause_us adversarial high_rate draw = 20 + draw % 80
pause_us other_profile high_rate draw = 200 + draw % 400

abbrev pub mid_price : ℕ
mid_price = 10000

abbrev pub order_type : ℕ → OrderType
order_type mix = if ltb mix 70 then limit else if ltb mix 90 then market else cancel

-- The order of an id, a bot and five draws.
unfoldable pub order_of : ℕ → ℕ → ℕ → ℕ → ℕ → ℕ → ℕ → OrderReq
order_of id bot_id side_draw px_draw qty_draw mix_draw target_draw = record {
  id = id;
  client_id = bot_id;
  side = if side_draw % 2 == 0 then sell else buy;
  type = order_type (mix_draw % 100);
  price = pos (mid_price + px_draw % 50 - 25);
  qty = pos (1 + qty_draw % 9);
  target_id = word (id + 2 ^ 64 - (target_draw % 5 + 1));
}

-- One round: the pause of the closed loop, and the order.
pub record Round : Type 0 where
  pub bot : Bot
  pub pause : ℕ
  pub order : OrderReq

unfoldable pub build_order : Bot → Xoshiro → ℕ → Round
unfolding order_of
build_order b rng pause =
    let id = word (b.next_oid + 1) in
    let (r1, side_draw) = next rng in
    let (r2, px_draw) = next r1 in
    let (r3, qty_draw) = next r2 in
    let (r4, mix_draw) = next r3 in
    let (r5, target_draw) = next r4 in
    record {
      bot = record b { rng = r5; next_oid = id };
      pause = pause;
      order = order_of id b.cfg.bot_id side_draw px_draw qty_draw mix_draw target_draw;
    }

-- The pause, in the open loop and in the closed one, and the order.
abbrev pub paced : Bool → Bool → Bot → Round
paced true high_rate b = build_order b b.rng 0
paced false high_rate b =
    let (rng, draw) = next b.rng in build_order b rng (pause_us b.cfg.profile high_rate draw)

unfoldable pub round : Bool → Bot → Round
unfolding build_order pause_us
round high_rate b = paced b.cfg.open_loop high_rate b

order_of-refusal :
    (e : Engine) (id bot_id d1 d2 d3 d4 d5 : ℕ)
    → is_seen bot_id id e.seen_ids ≡ false
    → refusal e (order_of id bot_id d1 d2 d3 d4 d5) ≡ none
unfolding refusal order_of
order_of-refusal e id bot_id d1 d2 d3 d4 d5 h = ground arith

order_of-limits :
    (id bot_id d1 d2 d3 d4 d5 : ℕ)
    → let o = order_of id bot_id d1 d2 d3 d4 d5 in
      (9975 ≤ pos_part o.price)
      × (pos_part o.price ≤ 10024)
      × (1 ≤ pos_part o.qty)
      × (pos_part o.qty ≤ 9)
unfolding order_of
order_of-limits id bot_id d1 d2 d3 d4 d5 = (omega arith, omega arith, omega arith, omega arith)

abbrev IsModest : OrderReq → Type 0
IsModest o =
    (9975 ≤ pos_part o.price)
    × (pos_part o.price ≤ 10024)
    × (1 ≤ pos_part o.qty)
    × (pos_part o.qty ≤ 9)

abbrev draw_at : ℕ → Xoshiro → ℕ
draw_at zero rng = (next rng).1
draw_at (suc n) rng = draw_at n (next rng).0

build_order-IsModest :
    (b : Bot) (rng : Xoshiro) (pause : ℕ) → IsModest (build_order b rng pause).order
unfolding build_order
build_order-IsModest b rng pause =
    order_of-limits (word (b.next_oid + 1)) b.cfg.bot_id (draw_at 0 rng) (draw_at 1 rng)
      (draw_at 2 rng) (draw_at 3 rng) (draw_at 4 rng)

build_order-refusal :
    (e : Engine) (b : Bot) (rng : Xoshiro) (pause : ℕ)
    → is_seen b.cfg.bot_id (word (b.next_oid + 1)) e.seen_ids ≡ false
    → refusal e (build_order b rng pause).order ≡ none
unfolding build_order
build_order-refusal e b rng pause =
    order_of-refusal e (word (b.next_oid + 1)) b.cfg.bot_id (draw_at 0 rng) (draw_at 1 rng)
      (draw_at 2 rng) (draw_at 3 rng) (draw_at 4 rng)

paced-IsModest : (p high_rate : Bool) (b : Bot) → IsModest (paced p high_rate b).order
paced-IsModest true high_rate b = build_order-IsModest b b.rng 0
paced-IsModest false high_rate b =
    let (rng, draw) = next b.rng in
    build_order-IsModest b rng (pause_us b.cfg.profile high_rate draw)

paced-refusal :
    (p : Bool) (e : Engine) (high_rate : Bool) (b : Bot)
    → is_seen b.cfg.bot_id (word (b.next_oid + 1)) e.seen_ids ≡ false
    → refusal e (paced p high_rate b).order ≡ none
paced-refusal true e high_rate b = build_order-refusal e b b.rng 0
paced-refusal false e high_rate b =
    let (rng, draw) = next b.rng in
    build_order-refusal e b rng (pause_us b.cfg.profile high_rate draw)

-- Whatever the generator draws, an order asks for 1 to 9 units, at a price of 9975 to 10024 ticks.
round_limits :
    (high_rate : Bool) (b : Bot)
    → let o = (round high_rate b).order in
      (9975 ≤ pos_part o.price)
      × (pos_part o.price ≤ 10024)
      × (1 ≤ pos_part o.qty)
      × (pos_part o.qty ≤ 9)
unfolding round
round_limits high_rate b = paced-IsModest b.cfg.open_loop high_rate b

-- The sample engine's validation passes every order of a bot whose next id it has not seen.
pub round-refusal :
    (e : Engine) (high_rate : Bool) (b : Bot)
    → is_seen b.cfg.bot_id (word (b.next_oid + 1)) e.seen_ids ≡ false
    → refusal e (round high_rate b).order ≡ none
unfolding round
round-refusal e high_rate b = paced-refusal b.cfg.open_loop e high_rate b
