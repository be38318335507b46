-- ===== src/Gateway/Connects.antt =====
-- services/gateway/internal: Connect of store/store.go, cache/cache.go and bus/bus.go, in the order in which
-- services/gateway/cmd/main.go calls them. The times are in milliseconds.
use quantime.Prelude.{
  ℕ, zero, suc, ◌+◌, ◌*◌, Bool, true, false, Option, none, some, ltb, if◌then◌else◌,
}

-- By the number of the attempt: whether it succeeds, the time when the deadline is checked, and whether the
-- pause ends by the context.
pub record Attempts : Type 0 where
  pub connects : ℕ → Bool
  pub clock : ℕ → ℕ
  pub context_done : ℕ → Bool

pub data Connected : Type 0 where
  connected unreachable cancelled invalid no_jetstream : Connected

abbrev pub after_attempt : Attempts → ℕ → ℕ → Option Connected → Bool → Option Connected
after_attempt a deadline n later true = some connected
after_attempt a deadline n later false =
    if ltb deadline (a.clock n)
    then some unreachable
    else if a.context_done n
    then some cancelled
    else later

-- With fuel for a number of attempts; `none` when it runs out.
unfoldable pub connect_loop : Attempts → ℕ → ℕ → ℕ → Option Connected
connect_loop a deadline n zero = none
connect_loop a deadline n (suc fuel) =
    let later = connect_loop a deadline (n + 1) fuel in
    after_attempt a deadline n later (a.connects n)

abbrev pub pause : ℕ
pause = 2 * 1000

abbrev pub store_limit : ℕ
store_limit = 60 * 1000

abbrev pub short_limit : ℕ
short_limit = 30 * 1000

-- The attempts that fit into the limit, and one.
abbrev pub store_fuel : ℕ
store_fuel = 32

abbrev pub short_fuel : ℕ
short_fuel = 17

abbrev pub if_parses : Bool → Option Connected → Option Connected
if_parses parses rest = if parses then rest else some invalid

-- `time.Sleep` does not see the context.
abbrev pub sleeping : Attempts → Attempts
sleeping a = record a { context_done = λ n. false }

abbrev pub with_jetstream : Bool → Option Connected → Option Connected
with_jetstream answers (some connected) = if answers then some connected else some no_jetstream
with_jetstream answers (some unreachable) = some unreachable
with_jetstream answers (some cancelled) = some cancelled
with_jetstream answers (some invalid) = some invalid
with_jetstream answers (some no_jetstream) = some no_jetstream
with_jetstream answers none = none

unfoldable pub store_connect : Bool → Attempts → ℕ → Option Connected
unfolding connect_loop
store_connect parses a start = if_parses parses (connect_loop a (start + store_limit) 0 store_fuel)

unfoldable pub cache_connect : Bool → Attempts → ℕ → Option Connected
unfolding connect_loop
cache_connect parses a start =
    if_parses parses (connect_loop (sleeping a) (start + short_limit) 0 short_fuel)

unfoldable pub bus_connect : Bool → Attempts → ℕ → Option Connected
unfolding connect_loop
bus_connect answers a start =
    with_jetstream answers (connect_loop a (start + short_limit) 0 short_fuel)
