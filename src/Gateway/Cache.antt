-- ===== src/Gateway/Cache.antt =====
-- services/gateway/internal/cache/cache.go: the leaderboard in Redis, a sorted set of scores and a map of
-- metrics by member, and the finalizations of services/telemetry/cmd/main.go that fill them. Members are
-- numbered in the order of their texts.
use quantime.Prelude.{
  ℤ, pos, negsuc, zero, suc, length, ◌-◌, ℕ, Bool, ◌&&◌, ◌||◌, not, Option, List, [], ◌∷◌, map,
  take, lookup, ltb,
}
use quantime.Go.Sort.{slice_stable}
use quantime.Telemetry.Scores.{Fraction, Aggregates}
use quantime.Telemetry.Finals.{Answers, Finals, is_less, finalize_run}
use quantime.Gateway.Leaderboards.{Entry}

abbrev pub entry_of : ℕ × Fraction → Entry
entry_of (member, score) = record { member = member; score = score }

-- Descending, and equal scores by descending members.
abbrev pub ranks_above : Entry → Entry → Bool
ranks_above a b =
    is_less b.score a.score || (not (is_less a.score b.score) && ltb b.member a.member)

-- The ranks 0 to n - 1 of a list; a negative last rank counts from the end of it, -1 for the last one.
abbrev pub range_to : ℤ → List Entry → List Entry
range_to (pos zero) zs = zs
range_to (pos (suc n)) zs = take zs (suc n)
range_to (negsuc n) zs = take zs (length zs - suc n)

-- `ZREVRANGE leaderboard:scores 0 n-1 WITHSCORES`
unfoldable pub leaderboard_top : ℤ → List (ℕ × Fraction) → List Entry
unfolding slice_stable
leaderboard_top n scores = range_to n (slice_stable ranks_above (map entry_of scores))

-- `HMGET leaderboard:metrics`, by the members in their order; no command for none.
unfoldable pub leaderboard_metrics : List ℕ → List (ℕ × Aggregates) → List (Option Aggregates)
unfolding lookup
leaderboard_metrics [] metrics = []
leaderboard_metrics (id ∷ ids) metrics = lookup id metrics ∷ leaderboard_metrics ids metrics

-- One finalization after the other, the first of the list last.
unfoldable pub finalize_all : List (Answers × ℕ) → Finals → Finals
unfolding finalize_run
finalize_all [] s = s
finalize_all ((a, run_id) ∷ runs) s = finalize_run a run_id (finalize_all runs s)
