-- ===== src/Sandbox/Run.antt =====
-- services/gateway/internal/sandbox/sandbox.go: Build, Run, Stop and waitHealthy. What docker answers, the
-- clock and the context are parameters. A container is its name; the new name comes from the id generator.
use quantime.Prelude.{
  ℕ, zero, suc, ◌+◌, ◌*◌, Bool, true, false, Option, none, some, List, [], ◌∷◌, ◌==◌, ltb,
  if◌then◌else◌,
}

abbrev pub first_bytes : ℕ → List ℕ → List ℕ
first_bytes zero s = []
first_bytes (suc n) [] = []
first_bytes (suc n) (c ∷ cs) = c ∷ first_bytes n cs

abbrev pub short_hash : List ℕ → List ℕ
short_hash = first_bytes 12

pub record ImageTag : Type 0 where
  pub submission : ℕ
  pub short_hash : List ℕ

abbrev pub tag_of : ℕ → List ℕ → ImageTag
tag_of submission hash = record { submission = submission; short_hash = short_hash hash }

-- What `docker image inspect` ends with.
pub data ImageInspect : Type 0 where
  found exit_error other_error : ImageInspect

-- Whether the image exists, and whether the check itself went wrong, which Build ignores.
abbrev pub image_exists : ImageInspect → Bool × Bool
image_exists found = (true, false)
image_exists exit_error = (false, false)
image_exists other_error = (false, true)

abbrev pub build : ImageInspect → Bool → ℕ → List ℕ → Option ImageTag
build inspected builds submission hash =
    if (image_exists inspected).0
    then some (tag_of submission hash)
    else if builds
    then some (tag_of submission hash)
    else none

pub data Running : Type 0 where
  running stopped other_state : Running

pub data Health : Type 0 where
  healthy no_health other_health : Health

-- `docker inspect`: an error or a malformed line, or the state, whether the exit code is "0", and the
-- health.
pub data Inspect : Type 0 where
  no_state : Inspect
  state : Running → Bool → Health → Inspect

pub data Waited : Type 0 where
  is_healthy exited timed_out cancelled : Waited

abbrev pub verdict_running : Health → Option Waited
verdict_running healthy = some is_healthy
verdict_running no_health = some is_healthy
verdict_running other_health = none

abbrev pub verdict : Inspect → Option Waited
verdict no_state = none
verdict (state running exit_zero h) = verdict_running h
verdict (state stopped exit_zero h) = if exit_zero then none else some exited
verdict (state other_state exit_zero h) = none

-- By the number of the round: docker's answer, the time in milliseconds when the deadline is checked, and
-- whether the wait for the next round ends by the context.
pub record Rounds : Type 0 where
  pub inspect : ℕ → Inspect
  pub clock : ℕ → ℕ
  pub context_done : ℕ → Bool

abbrev pub after_verdict : Rounds → ℕ → ℕ → Option Waited → Option Waited → Option Waited
after_verdict rounds deadline n later (some r) = some r
after_verdict rounds deadline n later none =
    if ltb deadline (rounds.clock n)
    then some timed_out
    else if rounds.context_done n
    then some cancelled
    else later

-- With fuel for a number of rounds; `none` when it runs out.
unfoldable pub wait_rounds : Rounds → ℕ → ℕ → ℕ → Option Waited
wait_rounds rounds deadline n zero = none
wait_rounds rounds deadline n (suc fuel) =
    let later = wait_rounds rounds deadline (n + 1) fuel in
    after_verdict rounds deadline n later (verdict (rounds.inspect n))

abbrev pub max_wait : ℕ
max_wait = 30 * 1000

abbrev pub poll_interval : ℕ
poll_interval = 500

-- The rounds that fit into the wait, and one.
abbrev pub wait_fuel : ℕ
wait_fuel = 62

unfoldable pub wait_healthy : Rounds → ℕ → Option Waited
unfolding wait_rounds
wait_healthy rounds start = wait_rounds rounds (start + max_wait) 0 wait_fuel

-- The containers that exist, and `docker rm`.
abbrev pub remove_name : ℕ → List ℕ → List ℕ
remove_name name [] = []
remove_name name (c ∷ cs) = let rest = remove_name name cs in if name == c then rest else c ∷ rest

abbrev pub stop : Bool → ℕ → List ℕ → List ℕ
stop removes name containers = if removes then remove_name name containers else containers

abbrev pub after_wait : Bool → ℕ → List ℕ → Option Waited → Option ℕ × List ℕ
after_wait removes name containers none = (none, containers)
after_wait removes name containers (some is_healthy) = (some name, containers)
after_wait removes name containers (some exited) = (none, stop removes name containers)
after_wait removes name containers (some timed_out) = (none, stop removes name containers)
after_wait removes name containers (some cancelled) = (none, stop removes name containers)

-- Run: the container's name, `none` for an error, and the containers that then exist. A `docker run` that
-- fails may have created the container.
unfoldable pub run_container : Rounds → ℕ → Bool → Bool → Bool → ℕ → List ℕ → Option ℕ × List ℕ
unfolding wait_healthy
run_container rounds start runs creates removes name containers =
    let waited = after_wait removes name (name ∷ containers) (wait_healthy rounds start) in
    if runs then waited else (none, if creates then name ∷ containers else containers)
