-- ===== src/Telemetry/Finals.antt =====
-- services/telemetry/cmd/main.go: `finalizeRun`, with the two Redis keys of the leaderboard as maps by team.
-- What the queries and Redis answer is a parameter.
use mathlib.Core.Path.{subst}
use mathlib.Core.Option.{some-injective}
use quantime.Prelude.{
  sym, inl, inr, ℕ, ◌*◌, ◌≡◌, refl, ◌∙◌, Bool, Option, none, some, List, ◌∷◌, ◌==◌, ltb, lookup,
  insert, lookup-insert, if◌then◌else◌, arith, Bool-cases,
}
use quantime.Telemetry.Scores.{
  Fraction, Aggregates, composite, IsPercentage, IsMeasured, IsOracle, composite-IsPercentage,
}

-- `UPDATE runs SET status='finished', score=$2, metrics=$3 WHERE id=$1`, and the final snapshot.
pub record Final : Type 0 where
  pub run_id : ℕ
  pub score : Fraction
  pub metrics : Aggregates

pub record Finals : Type 0 where
  pub updates : List Final
  pub scores : List (ℕ × Fraction)
  pub metrics : List (ℕ × Aggregates)
  pub published : List Final

abbrev pub is_less : Fraction → Fraction → Bool
is_less a b = ltb (a.num * b.den) (b.num * a.den)

-- `ZADD GT`: the score that a member has afterwards.
abbrev pub higher : Option Fraction → Fraction → Fraction
higher none score = score
higher (some old) score = if is_less old score then score else old

unfoldable pub zadd_gt : ℕ → Fraction → List (ℕ × Fraction) → List (ℕ × Fraction)
unfolding lookup insert
zadd_gt member score scores = insert member (higher (lookup member scores) score) scores

-- What the calls in one finalization answer: the aggregates, the oracle's score, the run's team, whether
-- the update succeeds, whether there is a Redis and whether its calls succeed.
pub record Answers : Type 0 where
  pub aggregates : Option Aggregates
  pub oracle : Option Fraction
  pub team_id : Option ℕ
  pub update_answers : Bool
  pub has_redis : Bool
  pub zadd_answers : Bool
  pub hset_answers : Bool
  pub publish_answers : Bool

abbrev pub or_run : Option ℕ → ℕ → ℕ
or_run none run_id = run_id
or_run (some team_id) run_id = team_id

abbrev pub if_answers {ℓ} : {A : Type ℓ} → Bool → A → A → A
if_answers answers after before = if answers then after else before

abbrev pub write_redis : Answers → ℕ → Final → Finals → Finals
write_redis a team_id f s = record s {
  scores = if_answers a.zadd_answers (zadd_gt team_id f.score s.scores) s.scores;
  metrics = if_answers a.hset_answers (insert team_id f.metrics s.metrics) s.metrics;
  published = if_answers a.publish_answers (f ∷ s.published) s.published;
}

abbrev pub with_aggregates : Answers → ℕ → Option Aggregates → Finals → Finals
with_aggregates a run_id none s = s
with_aggregates a run_id (some m) s =
    let f : Final = record { run_id = run_id; score = composite m a.oracle; metrics = m } in
    let s' = record s { updates = if_answers a.update_answers (f ∷ s.updates) s.updates } in
    if a.has_redis then write_redis a (or_run a.team_id run_id) f s' else s'

unfoldable pub finalize_run : Answers → ℕ → Finals → Finals
unfolding composite zadd_gt insert
finalize_run a run_id s = with_aggregates a run_id a.aggregates s

-- What the leaderboard keeps of a team.
abbrev pub ScoresBounded : Finals → Type 0
ScoresBounded s = (t : ℕ) (f : Fraction) → lookup t s.scores ≡ some f → IsPercentage f

higher-IsPercentage :
    (o : Option Fraction) (score : Fraction)
    → ((f : Fraction) → o ≡ some f → IsPercentage f)
    → IsPercentage score
    → IsPercentage (higher o score)
higher-IsPercentage none score h p = p
higher-IsPercentage (some old) score h p = elim (Bool-cases (is_less old score)) [
  | inl less ↦ rw less p
  | inr more ↦ rw more (h old refl)
]

zadd_gt-bounded :
    (team_id : ℕ) (score : Fraction) (scores : List (ℕ × Fraction))
    → ((t : ℕ) (f : Fraction) → lookup t scores ≡ some f → IsPercentage f)
    → IsPercentage score
    → (t : ℕ) (f : Fraction) → lookup t (zadd_gt team_id score scores) ≡ some f
    → IsPercentage f
unfolding zadd_gt
zadd_gt-bounded team_id score scores h p t f found =
    let new = higher (lookup team_id scores) score in
    let e = sym (lookup-insert t team_id new scores) ∙ found in
    elim (Bool-cases (t == team_id)) [
      | inl same ↦
          subst IsPercentage (some-injective new f (ground (arith, same, e)))
            (higher-IsPercentage (lookup team_id scores) score (h team_id) p)
      | inr other ↦ h t f (ground (arith, other, e))
    ]

module _ (a : Answers) (run_id : ℕ) (s : Finals) where
  with_aggregates-bounded :
      (o : Option Aggregates)
      → ScoresBounded s
      → ((m : Aggregates) → o ≡ some m → IsMeasured m)
      → IsOracle a.oracle
      → ScoresBounded (with_aggregates a run_id o s)
  with_aggregates-bounded none h measured oracle = h
  with_aggregates-bounded (some m) h measured oracle =
      let p = composite-IsPercentage m a.oracle (measured m refl) oracle in
      elim (Bool-cases a.has_redis) [
        | inr no_redis ↦ rw no_redis h
        | inl redis ↦ elim (Bool-cases a.zadd_answers) [
          | inr lost ↦ rw (redis, lost) h
          | inl kept ↦
              rw (redis, kept)
                (zadd_gt-bounded (or_run a.team_id run_id) (composite m a.oracle) s.scores h p)
        ]
      ]

  -- If what the query measures has denominators that are not 0 and the oracle's score is at most 100,
  -- finalizing a run keeps every score of the leaderboard at most 100, whatever calls fail.
  finalize_run-ScoresBounded :
      ScoresBounded s
      → ((m : Aggregates) → a.aggregates ≡ some m → IsMeasured m)
      → IsOracle a.oracle
      → ScoresBounded (finalize_run a run_id s)
  unfolding finalize_run
  finalize_run-ScoresBounded = with_aggregates-bounded a.aggregates
