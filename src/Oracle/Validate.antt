-- ===== src/Oracle/Validate.antt =====
-- services/gateway/internal/validator/validator.go, `Validate`. The deployed engine is a parameter:
-- a state and an answer to each order, `none` where the HTTP exchange fails or carries no ack. The
-- score is kept as `passed` of `total`, of which the code takes 100 times the quotient.
use quantime.Prelude.{
  ℕ, ◌+◌, ◌≤◌, ◌≡◌, ◌↔◌, refl, Bool, true, false, Option, none, some, List, [], ◌∷◌, ◌++◌, arith,
  length, ◌==◌, if◌then◌else◌,
}
use quantime.Oracle.Types.{VOrder, Book, new_book}
use quantime.Oracle.Book.{apply}
use quantime.Oracle.Scenario.{scenario}

pub record Case : Type 0 where
  pub id : ℕ
  pub expected : ℕ
  pub actual : ℕ
  pub pass : Bool
  pub reachable : Bool

pub record Result : Type 0 where
  pub passed : ℕ
  pub total : ℕ
  pub cases : List Case
  pub ts : ℕ

module _ {S : Type 0} (submit : S → VOrder → S × Option ℕ) where
  -- The loop's body, after the two calls.
  abbrev pub judge : VOrder → ℕ → Option ℕ → Case
  judge o expected none = record {
    id = o.id;
    expected = expected;
    actual = 0;
    pass = false;
    reachable = false;
  }
  judge o expected (some actual) = record {
    id = o.id;
    expected = expected;
    actual = actual;
    pass = actual == expected;
    reachable = true;
  }

  abbrev pub add_case : Case → Result → Result
  add_case c r = record r {
    passed = if c.pass then r.passed + 1 else r.passed;
    cases = r.cases ++ c ∷ [];
  }

  unfoldable pub validate_from : S → Book → List VOrder → Result → Result
  validate_from s b [] r = r
  validate_from s b (o ∷ os) r =
      let (b', expected) = apply o b in
      let (s', answer) = submit s o in validate_from s' b' os (add_case (judge o expected answer) r)

  unfoldable pub validate : S → ℕ → Result
  unfolding validate_from
  validate s now =
      validate_from s new_book scenario
        (record { passed = 0; total = length scenario; cases = []; ts = now })

  -- The cases that an engine answers with the fill that the reference book computes.
  unfoldable pub agreements : S → Book → List VOrder → ℕ
  agreements s b [] = 0
  agreements s b (o ∷ os) =
      let (b', expected) = apply o b in
      let (s', answer) = submit s o in
      (if (judge o expected answer).pass then 1 else 0) + agreements s' b' os

  validate_from_passed :
      (s : S) (b : Book) (os : List VOrder) (r : Result)
      → (validate_from s b os r).passed ≡ r.passed + agreements s b os
  unfolding validate_from agreements
  validate_from_passed s b [] r = omega arith
  validate_from_passed s b (o ∷ os) r =
      let (b', expected) = apply o b in
      let (s', answer) = submit s o in
      ground (arith, validate_from_passed s' b' os (add_case (judge o expected answer) r))

  validate_from_total :
      (s : S) (b : Book) (os : List VOrder) (r : Result) → (validate_from s b os r).total ≡ r.total
  unfolding validate_from
  validate_from_total s b [] r = refl
  validate_from_total s b (o ∷ os) r =
      let (b', expected) = apply o b in
      let (s', answer) = submit s o in
      validate_from_total s' b' os (add_case (judge o expected answer) r)

  -- All orders are answered as the reference book expects.
  abbrev pub AllAgree : S → Book → List VOrder → Type 0
  AllAgree s b [] = Unit
  AllAgree s b (o ∷ os) =
      ((submit s o).1 ≡ some (apply o b).1) × AllAgree (submit s o).0 (apply o b).0 os

  agreements_all :
      (s : S) (b : Book) (os : List VOrder) → AllAgree s b os → agreements s b os ≡ length os
  unfolding agreements
  agreements_all s b [] h = refl
  agreements_all s b (o ∷ os) h =
      ground (arith, agreements_all (submit s o).0 (apply o b).0 os h.1, h.0)

  agreements_le : (s : S) (b : Book) (os : List VOrder) → agreements s b os ≤ length os
  unfolding agreements
  agreements_le s b [] = omega arith
  agreements_le s b (o ∷ os) = ground (arith, agreements_le (submit s o).0 (apply o b).0 os)

  -- As many agreements as orders: all agree.
  all_agree :
      (s : S) (b : Book) (os : List VOrder) → agreements s b os ≡ length os → AllAgree s b os
  unfolding agreements
  all_agree s b [] h = tt
  all_agree s b (o ∷ os) h = ground (
    arith,
    all_agree (submit s o).0 (apply o b).0 os,
    agreements_le (submit s o).0 (apply o b).0 os,
  )

  -- An engine passes all cases, and so scores 100, exactly if it reports for each order of the
  -- scenario the fill that the reference book computes.
  pub validate_full :
      (s : S) (now : ℕ)
      → ((validate s now).passed ≡ (validate s now).total) ↔ AllAgree s new_book scenario
  unfolding validate
  validate_full s now =
      let r : Result = record { passed = 0; total = length scenario; cases = []; ts = now } in
      let passed = validate_from_passed s new_book scenario r in
      let total = validate_from_total s new_book scenario r in
      (
        λ e. all_agree s new_book scenario (omega (arith, passed, total)),
        λ h. omega (arith, passed, total, agreements_all s new_book scenario h),
      )
