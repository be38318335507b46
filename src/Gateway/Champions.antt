-- ===== src/Gateway/Champions.antt =====
-- services/telemetry/cmd/main.go, `finalizeRun`, and services/gateway/internal/cache/cache.go, LeaderboardTop:
-- whose score the leaderboard shows.
use mathlib.Core.Path.{subst}
use mathlib.Core.Option.{some-injective}
use quantime.Prelude.{
  ℤ, pos, negsuc, zero, suc, ◌-◌, ◌<◌, ℕ, ◌≤◌, ◌<◌, ◌≡◌, refl, sym, inl, inr, ◌&&◌, Option, none,
  some, List, [], ◌∷◌, ◌==◌, map, lookup, insert, erase, lookup-erase, length, if◌then◌else◌, All,
  All-map, All-take, length-take_le, arith, Bool-cases,
}
use quantime.Go.Sort.{slice_stable-All}
use quantime.Telemetry.Scores.{
  Fraction, Aggregates, composite, IsMeasured, IsOracle, composite-IsPercentage,
}
use quantime.Telemetry.Finals.{Answers, Finals, zadd_gt, or_run, finalize_run, with_aggregates}
use quantime.Gateway.Leaderboards.{Entry}
use quantime.Gateway.Cache.{range_to, entry_of, ranks_above, leaderboard_top, finalize_all}
use quantime.Gateway.Bests.{IsBest, Holds, Defined, zadd_gt-Holds}

-- The score that a finalization adds to the sorted set, if it adds one.
abbrev pub kept_of : Answers → ℕ → Option Aggregates → Option (ℕ × Fraction)
kept_of a run_id none = none
kept_of a run_id (some m) =
    if a.has_redis && a.zadd_answers
    then some (or_run a.team_id run_id, composite m a.oracle)
    else none

abbrev pub add_kept : Option (ℕ × Fraction) → List (ℕ × Fraction) → List (ℕ × Fraction)
add_kept none ks = ks
add_kept (some k) ks = k ∷ ks

-- The scores of the runs that reached Redis, by team.
abbrev pub added : List (Answers × ℕ) → List (ℕ × Fraction)
added [] = []
added (r ∷ runs) = add_kept (kept_of r.0 r.1 r.0.aggregates) (added runs)

abbrev add_score : Option (ℕ × Fraction) → List (ℕ × Fraction) → List (ℕ × Fraction)
add_score none scores = scores
add_score (some k) scores = zadd_gt k.0 k.1 scores

with_aggregates-scores :
    (a : Answers) (run_id : ℕ) (s : Finals) (o : Option Aggregates)
    → (with_aggregates a run_id o s).scores ≡ add_score (kept_of a run_id o) s.scores
with_aggregates-scores a run_id s none = refl
with_aggregates-scores a run_id s (some m) = elim (Bool-cases a.has_redis) [
  | inr off ↦ rw off refl
  | inl on ↦ elim (Bool-cases a.zadd_answers) [
    | inl kept ↦ rw (on, kept) refl
    | inr lost ↦ rw (on, lost) refl
  ]
]

finalize_run-scores :
    (a : Answers) (run_id : ℕ) (s : Finals)
    → (finalize_run a run_id s).scores ≡ add_score (kept_of a run_id a.aggregates) s.scores
unfolding finalize_run
finalize_run-scores a run_id s = with_aggregates-scores a run_id s a.aggregates

-- The queries give what can be scored.
abbrev pub RunMeasured : Answers × ℕ → Type 0
RunMeasured r = ((m : Aggregates) → r.0.aggregates ≡ some m → IsMeasured m) × IsOracle r.0.oracle

abbrev pub UniqueKeys : List (ℕ × Fraction) → Type 0
UniqueKeys [] = Unit
UniqueKeys (k ∷ m) = (lookup k.0 m ≡ none) × UniqueKeys m

UniqueKeys-erase : (j : ℕ) (m : List (ℕ × Fraction)) → UniqueKeys m → UniqueKeys (erase j m)
unfolding erase
UniqueKeys-erase j [] h = tt
UniqueKeys-erase j ((k, v) ∷ m) h = elim (Bool-cases (j == k)) [
  | inl e ↦ rw e (UniqueKeys-erase j m h.1)
  | inr e ↦ rw e (ground (arith, lookup-erase k j m, h.0), UniqueKeys-erase j m h.1)
]

UniqueKeys-zadd_gt :
    (u : ℕ) (g : Fraction) (m : List (ℕ × Fraction)) → UniqueKeys m → UniqueKeys (zadd_gt u g m)
unfolding zadd_gt insert
UniqueKeys-zadd_gt u g m h = (ground (arith, lookup-erase u u m), UniqueKeys-erase u m h)

found_later :
    (k : ℕ) (v : Fraction) (m : List (ℕ × Fraction)) (x : ℕ × Fraction)
    → lookup k m ≡ none
    → lookup x.0 m ≡ some x.1
    → lookup x.0 ((k, v) ∷ m) ≡ some x.1
unfolding lookup
found_later k v m x n e = elim (Bool-cases (x.0 == k)) [
  | inl same ↦ absurd (ground (arith, same, n, e))
  | inr other ↦ rw other e
]

all_found : (m : List (ℕ × Fraction)) → UniqueKeys m → All (λ x. lookup x.0 m ≡ some x.1) m
unfolding lookup
all_found [] h = tt
all_found ((k, v) ∷ m) h =
    (ground arith, All-map _ _ (λ x e. found_later k v m x h.0 e) m (all_found m h.1))

All-entries :
    (P : Entry → Type 0) (m : List (ℕ × Fraction))
    → All (λ x. P (entry_of x)) m
    → All P (map entry_of m)
All-entries P [] h = tt
All-entries P (x ∷ m) h = (h.0, All-entries P m h.1)

-- What holds of the sorted set after finalizations.
pub record IsRanked (runs : List (Answers × ℕ)) (scores : List (ℕ × Fraction)) : Type 0 where
  pub holds : Holds scores (added runs)
  pub unique : UniqueKeys scores
  pub are_defined : Defined (added runs)

add_score-IsRanked :
    (o : Option (ℕ × Fraction)) (scores ks : List (ℕ × Fraction))
    → ((k : ℕ × Fraction) → o ≡ some k → 0 < k.1.den)
    → Holds scores ks
    → UniqueKeys scores
    → Defined ks
    → Holds (add_score o scores) (add_kept o ks)
      × UniqueKeys (add_score o scores)
      × Defined (add_kept o ks)
add_score-IsRanked none scores ks new h u d = (h, u, d)
add_score-IsRanked (some k) scores ks new h u d =
    (zadd_gt-Holds k.0 k.1 scores ks h d, UniqueKeys-zadd_gt k.0 k.1 scores u, (new k refl, d))

kept_of-defined :
    (a : Answers) (run_id : ℕ) (o : Option Aggregates)
    → ((m : Aggregates) → o ≡ some m → IsMeasured m)
    → IsOracle a.oracle
    → (k : ℕ × Fraction) → kept_of a run_id o ≡ some k
    → 0 < k.1.den
kept_of-defined a run_id none h oracle k e = absurd (ground (arith, e))
kept_of-defined a run_id (some m) h oracle k e = elim (Bool-cases (a.has_redis && a.zadd_answers)) [
  | inl on ↦
      let kept : some (or_run a.team_id run_id, composite m a.oracle) ≡ some k =
        ground (arith, on, e) in
      subst (λ x. 0 < x.1.den) (some-injective _ k kept)
        (composite-IsPercentage m a.oracle (h m refl) oracle).defined
  | inr off ↦ absurd (ground (arith, off, e))
]

abbrev pub empty : Finals
empty = record { updates = []; scores = []; metrics = []; published = [] }

finalize_all-IsRanked :
    (runs : List (Answers × ℕ))
    → All RunMeasured runs
    → IsRanked runs (finalize_all runs empty).scores
unfolding finalize_all lookup
finalize_all-IsRanked [] h = record {
  holds = record { best = λ t f e. absurd (ground (arith, e)); absent = λ t e. tt };
  unique = tt;
  are_defined = tt;
}
finalize_all-IsRanked (r ∷ runs) h =
    let before = finalize_all-IsRanked runs h.1 in
    let (holds, unique, are_defined) =
      add_score-IsRanked (kept_of r.0 r.1 r.0.aggregates) (finalize_all runs empty).scores
        (added runs) (kept_of-defined r.0 r.1 r.0.aggregates h.0.0 h.0.1) before.holds before.unique
        before.are_defined in
    subst (IsRanked (r ∷ runs)) (sym (finalize_run-scores r.0 r.1 (finalize_all runs empty)))
      (record { holds = holds; unique = unique; are_defined = are_defined })

All-range_to : (P : Entry → Type 0) (n : ℤ) (zs : List Entry) → All P zs → All P (range_to n zs)
All-range_to P (pos zero) zs h = h
All-range_to P (pos (suc n)) zs h = All-take P zs (suc n) h
All-range_to P (negsuc n) zs h = All-take P zs (length zs - suc n) h

length-range_to : (n : ℕ) (zs : List Entry) → 0 < n → length (range_to (pos n) zs) ≤ n
length-range_to zero zs h = absurd (omega (arith, h))
length-range_to (suc n) zs h = length-take_le zs (suc n)

-- If the queries give what can be scored, then after any finalizations, whatever calls fail, the entries
-- that LeaderboardTop gives for a positive n are at most n, and each shows the score of a run of its team
-- that reached Redis, and no run of the team that did has a higher one.
pub leaderboard_top-IsBest :
    (n : ℕ) (runs : List (Answers × ℕ))
    → 0 < n
    → All RunMeasured runs
    → All
        (λ z. IsBest z.member z.score (added runs))
        (leaderboard_top (pos n) (finalize_all runs empty).scores)
      × (length (leaderboard_top (pos n) (finalize_all runs empty).scores) ≤ n)
unfolding leaderboard_top
leaderboard_top-IsBest n runs positive h =
    let r = finalize_all-IsRanked runs h in
    let scores = (finalize_all runs empty).scores in
    let entries =
      All-entries (λ z. IsBest z.member z.score (added runs)) scores
        (All-map _ _ (λ x e. r.holds.best x.0 x.1 e) scores (all_found scores r.unique)) in
    (
      All-range_to _ (pos n) _ (slice_stable-All ranks_above _ (map entry_of scores) entries),
      length-range_to n _ positive,
    )
