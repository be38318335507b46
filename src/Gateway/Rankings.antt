-- ===== src/Gateway/Rankings.antt =====
-- services/gateway/internal/store/store.go: Leaderboard and GetAllTeams rank the teams alike.
use quantime.Prelude.{
  ℕ, ℤ, ◌≡◌, ◌≤◌, refl, ap, sym, ◌∙◌, inl, inr, Bool, Option, none, some, List, [], ◌∷◌, ltb,
  if◌then◌else◌, map, take, length, arith, Bool-cases, length-take_le, map-take,
}
use mathlib.Core.Path.{subst}
use quantime.Go.Sort.{slice_stable, slice_stable-map, slice_stable_sorts, IsSorted}
use quantime.Gateway.Store.{Run}
use quantime.Gateway.Leaderboards.{LeaderboardRow}
use quantime.Gateway.Queries.{
  TeamRow, or_zero, is_run_of, is_below, better, best_run, score_of, ranked, scan_row, limit_or_50,
  leaderboard, larger, max_score, AdminTeamRow, admin_team, get_all_teams,
}

-- What both show of a team.
pub record Place : Type 0 where
  pub team_id : ℕ
  pub name : ℕ
  pub region : ℕ
  pub score : ℕ

abbrev pub place_of : LeaderboardRow → Place
place_of r = record { team_id = r.team_id; name = r.name; region = r.region; score = r.score.num }

abbrev pub admin_place : AdminTeamRow → Place
admin_place r = record {
  team_id = r.team_id;
  name = r.name;
  region = r.region;
  score = r.best_score;
}

abbrev pub before : Place → Place → Bool
before a b = ltb b.score a.score

abbrev score_column : Option Run → Option ℕ
score_column none = none
score_column (some r) = r.score

larger-none : (a : Option ℕ) → a ≡ larger a none
larger-none none = refl
larger-none (some a) = refl

-- The better of two runs has the larger of their scores.
larger_if :
    (a b : Option ℕ) (r q : Run)
    → r.score ≡ a
    → q.score ≡ b
    → (if is_below a b then q else r).score ≡ larger a b
larger_if none none r q ra qb = ra
larger_if none (some b) r q ra qb = qb
larger_if (some a) none r q ra qb = ra
larger_if (some a) (some b) r q ra qb = elim (Bool-cases (ltb a b)) [
  | inl e ↦ rw e qb
  | inr e ↦ rw e ra
]

larger-better :
    (r : Run) (rest : Option Run)
    → score_column (some (better r rest)) ≡ larger r.score (score_column rest)
larger-better r none = larger-none r.score
larger-better r (some q) = larger_if r.score q.score r q refl refl

max_score-best_run :
    (team : ℕ) (runs : List Run) → max_score team runs ≡ score_column (best_run team runs)
unfolding max_score best_run
max_score-best_run team [] = refl
max_score-best_run team (r ∷ runs) = elim (Bool-cases (is_run_of team r)) [
  | inl e ↦ rw e (
      ap (larger r.score) (max_score-best_run team runs)
      ∙ sym (larger-better r (best_run team runs)))
  | inr e ↦ rw e (max_score-best_run team runs)
]

or_zero-score_column : (o : Option Run) → or_zero (score_column o) ≡ score_of o
or_zero-score_column none = refl
or_zero-score_column (some r) = refl

-- The two rows of a team agree.
same_place :
    (runs : List Run) (t : TeamRow)
    → place_of (scan_row (ranked runs t)) ≡ admin_place (admin_team runs t)
unfolding ranked admin_team
same_place runs t =
    ap (λ n. record { team_id = t.id; name = t.name; region = or_zero t.region; score = n })
      (sym (ap or_zero (max_score-best_run t.id runs) ∙ or_zero-score_column (best_run t.id runs)))

-- The places of the teams in the order of the table.
abbrev places : List TeamRow → List Run → List Place
places teams runs = map (λ t. admin_place (admin_team runs t)) teams

map-map {ℓ κ μ} :
    {A : Type ℓ} {B : Type κ} {C : Type μ} (g : B → C) (f : A → B) (h : A → C)
    → ((a : A) → g (f a) ≡ h a)
    → (xs : List A) → map g (map f xs) ≡ map h xs
map-map g f h e [] = refl
map-map g f h e (x ∷ xs) = ap (λ l. g (f x) ∷ l) (map-map g f h e xs) ∙ ap (λ c. c ∷ map h xs) (e x)

ranked-places :
    (teams : List TeamRow) (runs : List Run)
    → map
        (λ x. place_of (scan_row x))
        (slice_stable (λ a b. ltb b.score a.score) (map (ranked runs) teams))
      ≡ slice_stable before (places teams runs)
ranked-places teams runs =
    slice_stable-map (λ x. place_of (scan_row x)) before (map (ranked runs) teams)
    ∙ ap (slice_stable before) (
        map-map (λ x. place_of (scan_row x)) (ranked runs) (λ t. admin_place (admin_team runs t))
          (same_place runs) teams)

leaderboard-places :
    (teams : List TeamRow) (runs : List Run) (limit : ℤ)
    → map place_of (leaderboard teams runs limit)
      ≡ take (slice_stable before (places teams runs)) (limit_or_50 limit)
unfolding leaderboard
leaderboard-places teams runs limit =
    map-map place_of scan_row (λ x. place_of (scan_row x)) (λ x. refl) _
    ∙ map-take (λ x. place_of (scan_row x)) _ (limit_or_50 limit)
    ∙ ap (λ l. take l (limit_or_50 limit)) (ranked-places teams runs)

get_all_teams-places :
    (teams : List TeamRow) (runs : List Run)
    → map admin_place (get_all_teams teams runs) ≡ slice_stable before (places teams runs)
unfolding get_all_teams
get_all_teams-places teams runs =
    slice_stable-map admin_place before (map (admin_team runs) teams)
    ∙ ap (slice_stable before) (
        map-map admin_place (admin_team runs) (λ t. admin_place (admin_team runs t)) (λ t. refl)
          teams)

-- A ranking: the best score first, and at most as many rows as asked for.
pub record IsRanking (limit : ℕ) (shown : List LeaderboardRow) (all : List Place) : Type 0 where
  pub same : map place_of shown ≡ take all limit
  pub by_score : IsSorted before all
  pub bounded : length shown ≤ limit

length-map {ℓ κ} :
    {A : Type ℓ} {B : Type κ} (f : A → B) (xs : List A) → length (map f xs) ≡ length xs
length-map f [] = refl
length-map f (x ∷ xs) = omega (arith, length-map f xs)

length-leaderboard :
    (teams : List TeamRow) (runs : List Run) (limit : ℤ)
    → length (leaderboard teams runs limit) ≤ limit_or_50 limit
unfolding leaderboard
length-leaderboard teams runs limit =
    subst (λ n. n ≤ limit_or_50 limit) (sym (length-map scan_row _))
      (length-take_le _ (limit_or_50 limit))

-- For all tables, if rows of equal scores come in the table's order, the Postgres leaderboard shows the first teams, at most as many as it is asked for and 50
-- if that is not positive, of those that the judge console shows, with the same names, regions and best
-- scores and in the same order, the highest score first.
pub leaderboard-get_all_teams :
    (teams : List TeamRow) (runs : List Run) (limit : ℤ)
    → IsRanking
        (limit_or_50 limit)
        (leaderboard teams runs limit)
        (map admin_place (get_all_teams teams runs))
unfolding leaderboard
leaderboard-get_all_teams teams runs limit = record {
  same =
      leaderboard-places teams runs limit
      ∙ ap (λ l. take l (limit_or_50 limit)) (sym (get_all_teams-places teams runs));
  by_score = subst (IsSorted before) (sym (get_all_teams-places teams runs)) (
      slice_stable_sorts before (λ x y z a b. ground (arith, a, b)) (λ x y a. ground (arith, a))
        (places teams runs));
  bounded = length-leaderboard teams runs limit;
}
