-- ===== src/Gateway/Dials.antt =====
-- services/gateway/internal: when the three Connect end, and with what.
use quantime.Prelude.{
  ℕ, zero, suc, ◌+◌, ◌*◌, ◌≤◌, ◌<◌, ◌≡◌, refl, ap, sym, ◌∙◌, ◌⊎◌, inl, inr, Bool, true, false,
  Option, none, some, ltb, arith, Bool-cases,
}
use mathlib.Core.Path.{subst}
use mathlib.Core.Option
use mathlib.Core.Option.{some-injective}
use quantime.Sandbox.Run.{
  Waited, is_healthy, exited, timed_out, Inspect, state, running, healthy, other_health, Rounds,
  verdict, wait_rounds, after_verdict,
}
use quantime.Sandbox.Run as Run
use quantime.Sandbox.Waits.{IsWaited, EndsWith, wait_rounds-IsWaited, clock_after}
use quantime.Gateway.Connects.{
  Attempts, Connected, connected, unreachable, cancelled, after_attempt, connect_loop, pause,
  store_limit, short_limit, store_fuel, short_fuel, sleeping, with_jetstream, store_connect,
  cache_connect, bus_connect,
}

-- The attempts as the rounds of a wait.
abbrev inspect_of : Bool → Inspect
inspect_of true = state running true healthy
inspect_of false = state running true other_health

abbrev rounds_of : Attempts → Rounds
rounds_of a = record {
  inspect = λ n. inspect_of (a.connects n);
  clock = a.clock;
  context_done = a.context_done;
}

abbrev outcome : Waited → Connected
outcome is_healthy = connected
outcome exited = connected
outcome timed_out = unreachable
outcome Run.cancelled = cancelled

outcome-after_verdict :
    (a : Attempts) (deadline n : ℕ) (b : Bool) (later : Option Waited)
    → after_attempt a deadline n (Option.map outcome later) b
      ≡ Option.map outcome (after_verdict (rounds_of a) deadline n later (verdict (inspect_of b)))
outcome-after_verdict a deadline n true later = refl
outcome-after_verdict a deadline n false later = elim (Bool-cases (ltb deadline (a.clock n))) [
  | inl over ↦ rw over refl
  | inr early ↦ elim (Bool-cases (a.context_done n)) [
    | inl gone ↦ rw (early, gone) refl
    | inr waits ↦ rw (early, waits) refl
  ]
]

connect_loop-wait_rounds :
    (a : Attempts) (deadline n fuel : ℕ)
    → connect_loop a deadline n fuel
      ≡ Option.map outcome (wait_rounds (rounds_of a) deadline n fuel)
unfolding connect_loop wait_rounds
connect_loop-wait_rounds a deadline n zero = refl
connect_loop-wait_rounds a deadline n (suc fuel) =
    ap (λ l. after_attempt a deadline n l (a.connects n))
      (connect_loop-wait_rounds a deadline (n + 1) fuel)
    ∙ outcome-after_verdict a deadline n (a.connects n)
        (wait_rounds (rounds_of a) deadline (n + 1) fuel)

-- Why an attempt is the last one.
abbrev pub LastAs : Attempts → ℕ → ℕ → Connected → Type 0
LastAs a deadline n r =
    ((r ≡ connected) × (a.connects n ≡ true))
    ⊎ ((r ≡ unreachable) × (deadline < a.clock n))
    ⊎ ((r ≡ cancelled) × (a.context_done n ≡ true))

-- The attempts before the last one fail, within the deadline.
pub record IsTried (a : Attempts) (deadline fuel : ℕ) (r : Connected) : Type 0 where
  pub last : ℕ
  pub within : last < fuel
  pub failed : (j : ℕ) → j < last → a.connects j ≡ false
  pub in_time : (j : ℕ) → j < last → a.clock j ≤ deadline
  pub ends : LastAs a deadline last r

fails : (b : Bool) → verdict (inspect_of b) ≡ none → b ≡ false
fails true h = absurd (ground (arith, h))
fails false h = refl

succeeds :
    (b : Bool) (r : Waited) → verdict (inspect_of b) ≡ some r → (outcome r ≡ connected) × (b ≡ true)
succeeds true r h = (ap outcome (sym (some-injective is_healthy r h)), refl)
succeeds false r h = absurd (ground (arith, h))

last_as :
    (a : Attempts) (deadline n : ℕ) (r : Waited)
    → EndsWith (rounds_of a) deadline n r
    → LastAs a deadline n (outcome r)
last_as a deadline n r (inl decided) = inl (succeeds (a.connects n) r decided)
last_as a deadline n r (inr (inl (late, over))) = inr (inl (ap outcome late, over))
last_as a deadline n r (inr (inr (gone, done))) = inr (inr (ap outcome gone, done))

add_zero : (n : ℕ) → n + 0 ≡ n
add_zero n = omega arith

zero_add : (n : ℕ) → n ≡ 0 + n
zero_add n = omega arith

IsTried-of_waited :
    (a : Attempts) (deadline fuel : ℕ) (r : Waited)
    → IsWaited (rounds_of a) deadline 0 fuel r
    → IsTried a deadline fuel (outcome r)
IsTried-of_waited a deadline fuel r w = record {
  last = w.last;
  within = w.within;
  failed = λ j l.
      fails (a.connects j)
        (ap (λ i. verdict (inspect_of (a.connects i))) (sym (add_zero j)) ∙ w.undecided j l);
  in_time = λ j l. subst (λ i. a.clock i ≤ deadline) (add_zero j) (w.in_time j l);
  ends =
      last_as a deadline w.last r
        (subst (λ i. EndsWith (rounds_of a) deadline i r) (add_zero w.last) w.ends);
}

-- A loop with enough fuel ends, and how.
abbrev pub Ends : Attempts → ℕ → ℕ → (Connected → Option Connected) → Option Connected → Type 0
Ends a deadline fuel finish o = (r : Connected) × (o ≡ finish r) × IsTried a deadline fuel r

-- The deadline passes before the fuel is used up.
connect_loop-Ends :
    (a : Attempts) (start limit fuel : ℕ)
    → start ≤ a.clock 0
    → ((n : ℕ) → a.clock n + pause ≤ a.clock (suc n))
    → limit < fuel * pause
    → Ends a (start + limit) (suc fuel) some (connect_loop a (start + limit) 0 (suc fuel))
connect_loop-Ends a start limit fuel after_start steps enough =
    let late = clock_after (λ n. a.clock n) pause steps fuel in
    let late' =
      subst (λ i. start + limit < a.clock i) (zero_add fuel)
        (omega (arith, late, after_start, enough)) in
    let (r, e, w) = wait_rounds-IsWaited (rounds_of a) (start + limit) fuel 0 late' in
    (
      outcome r,
      connect_loop-wait_rounds a (start + limit) 0 (suc fuel) ∙ ap (Option.map outcome) e,
      IsTried-of_waited a (start + limit) (suc fuel) r w,
    )

-- If the clock does not go back before the first attempt and moves by at least two seconds from one to the
-- next, each Connect of a URL that parses ends: the store's within 32 attempts, the cache's and the bus's
-- within 17, by the first that succeeds, at the first check that is past 60 and 30 seconds, or because the
-- context is done; the cache's does not see the context, and the bus then needs JetStream too.
pub connects-End :
    (answers : Bool) (a : Attempts) (start : ℕ)
    → start ≤ a.clock 0
    → ((n : ℕ) → a.clock n + pause ≤ a.clock (suc n))
    → Ends a (start + store_limit) store_fuel some (store_connect true a start)
      × Ends (sleeping a) (start + short_limit) short_fuel some (cache_connect true a start)
      × Ends a
          (start + short_limit)
          short_fuel
          (λ r. with_jetstream answers (some r))
          (bus_connect answers a start)
unfolding store_connect cache_connect bus_connect
connects-End answers a start after_start steps =
    let (r, e, tried) = connect_loop-Ends a start short_limit 16 after_start steps (omega arith) in
    (
      connect_loop-Ends a start store_limit 31 after_start steps (omega arith),
      connect_loop-Ends (sleeping a) start short_limit 16 after_start steps (omega arith),
      (r, ap (with_jetstream answers) e, tried),
    )
