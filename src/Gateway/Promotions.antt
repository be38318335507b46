-- ===== src/Gateway/Promotions.antt =====
-- services/gateway/internal/store/store.go: the run that is promoted is the one that GetTeamBaseline finds.
use mathlib.Core.Path.{subst}
use mathlib.Core.Option.{some-injective}
use quantime.Prelude.{
  ==_iff, ℕ, ◌≡◌, refl, ap, ◌∙◌, inl, inr, true, false, none, some, List, [], ◌∷◌, ◌==◌, arith,
  Bool-cases,
}
use quantime.Gateway.Store.{Run, finished, get_run, set_baseline}
use quantime.Gateway.Results.{team_baseline}

-- No two rows have the same id.
abbrev pub DistinctIds : List Run → Type 0
DistinctIds [] = Unit
DistinctIds (r ∷ rows) = (get_run r.id rows ≡ none) × DistinctIds rows

-- Without the promoted run, a team has no baseline.
team_baseline-none :
    (id team : ℕ) (rows : List Run)
    → get_run id rows ≡ none
    → team_baseline team (set_baseline id team rows) ≡ none
unfolding team_baseline set_baseline get_run
team_baseline-none id team [] h = refl
team_baseline-none id team (r ∷ rows) h = ground (arith, team_baseline-none id team rows)

-- The promoted run is the team's baseline, when it comes first,
team_baseline-first :
    (id : ℕ) (r : Run) (rows : List Run)
    → (r.id == id) ≡ true
    → get_run id rows ≡ none
    → r.status ≡ finished
    → team_baseline r.team_id (set_baseline id r.team_id (r ∷ rows))
      ≡ some (record r { is_baseline = true })
unfolding team_baseline set_baseline
team_baseline-first id r rows same h done =
    ground (arith, team_baseline-none id r.team_id rows h, same, done)

-- and the other rows do not count.
team_baseline-other :
    (id team : ℕ) (r : Run) (rows : List Run)
    → (r.id == id) ≡ false
    → team_baseline team (set_baseline id team (r ∷ rows))
      ≡ team_baseline team (set_baseline id team rows)
unfolding team_baseline set_baseline
team_baseline-other id team r rows h = ground (arith, h)

pub team_baseline-set_baseline :
    (id : ℕ) (rows : List Run) (run : Run)
    → DistinctIds rows
    → get_run id rows ≡ some run
    → run.status ≡ finished
    → team_baseline run.team_id (set_baseline id run.team_id rows)
      ≡ some (record run { is_baseline = true })
unfolding get_run
team_baseline-set_baseline id [] run d found done = ground arith
team_baseline-set_baseline id (r ∷ rows) run d found done = elim (Bool-cases (r.id == id)) [
  | inl same ↦
      let is_run : r ≡ run = some-injective r run (ground (arith, same, found)) in
      subst
        (λ x.
          team_baseline x.team_id (set_baseline id x.team_id (r ∷ rows))
          ≡ some (record x { is_baseline = true }))
        is_run
        (team_baseline-first id r rows same
          (subst (λ k. get_run k rows ≡ none) ((==_iff r.id id).0 same) d.0)
          (ap (λ x. x.status) is_run ∙ done))
  | inr other ↦
      team_baseline-other id run.team_id r rows other
      ∙ team_baseline-set_baseline id rows run d.1 (ground arith) done
]
