-- ===== src/Sandbox/Waits.antt =====
-- services/gateway/internal/sandbox/sandbox.go: when waitHealthy ends, and with what.
use mathlib.Core.Path.{subst}
use quantime.Prelude.{
  ℕ, zero, suc, ◌+◌, ◌*◌, ◌≤◌, ◌<◌, ◌≡◌, refl, ◌∙◌, ◌⊎◌, inl, inr, true, Option, none, some, ltb,
  arith, Bool-cases, Option-cases, ltb→lt, ltb→le,
}
use quantime.Sandbox.Run.{
  Waited, timed_out, cancelled, verdict, Rounds, after_verdict, wait_rounds, wait_fuel, max_wait,
  poll_interval, wait_healthy,
}

-- Why a round ends the wait.
abbrev pub EndsWith : Rounds → ℕ → ℕ → Waited → Type 0
EndsWith rounds deadline n r =
    (verdict (rounds.inspect n) ≡ some r)
    ⊎ ((r ≡ timed_out) × (deadline < rounds.clock n))
    ⊎ ((r ≡ cancelled) × (rounds.context_done n ≡ true))

-- The wait from round `n` on ends in one of the next rounds, all before it without a verdict and within
-- the deadline.
pub record IsWaited (rounds : Rounds) (deadline n fuel : ℕ) (r : Waited) : Type 0 where
  pub last : ℕ
  pub within : last < fuel
  pub undecided : (j : ℕ) → j < last → verdict (rounds.inspect (j + n)) ≡ none
  pub in_time : (j : ℕ) → j < last → rounds.clock (j + n) ≤ deadline
  pub ends : EndsWith rounds deadline (last + n) r

ends_now :
    (rounds : Rounds) (deadline n fuel : ℕ) (r : Waited)
    → EndsWith rounds deadline n r
    → IsWaited rounds deadline n (suc fuel) r
ends_now rounds deadline n fuel r h = record {
  last = 0;
  within = omega arith;
  undecided = λ j l. absurd (omega arith);
  in_time = λ j l. absurd (omega arith);
  ends = subst (λ i. EndsWith rounds deadline i r) (omega arith) h;
}

module _ (rounds : Rounds) (deadline n : ℕ) where
  -- What a predicate says of the next rounds, it says of the rounds from here on but the first.
  shift :
      (P : ℕ → Type 0) (k : ℕ)
      → P n
      → ((j : ℕ) → j < k → P (j + (n + 1)))
      → (j : ℕ) → j < suc k
      → P (j + n)
  shift P k now next zero l = subst P (omega arith) now
  shift P k now next (suc j) l = subst P (omega arith) (next j (omega (arith, l)))

  ends_later :
      (fuel : ℕ) (r : Waited)
      → verdict (rounds.inspect n) ≡ none
      → rounds.clock n ≤ deadline
      → IsWaited rounds deadline (n + 1) fuel r
      → IsWaited rounds deadline n (suc fuel) r
  ends_later fuel r none_yet early w = record {
    last = suc w.last;
    within = omega (arith, w.within);
    undecided = shift (λ i. verdict (rounds.inspect i) ≡ none) w.last none_yet w.undecided;
    in_time = shift (λ i. rounds.clock i ≤ deadline) w.last early w.in_time;
    ends = subst (λ i. EndsWith rounds deadline i r) (omega arith) w.ends;
  }

-- A round ends the wait, or leaves it to the later ones.
round_cases :
    (rounds : Rounds) (deadline n : ℕ) (later : Option Waited)
    → ((r : Waited) × (after_verdict rounds deadline n later (verdict (rounds.inspect n)) ≡ some r)
        × EndsWith rounds deadline n r)
      ⊎ ((verdict (rounds.inspect n) ≡ none)
          × (rounds.clock n ≤ deadline)
          × (after_verdict rounds deadline n later (verdict (rounds.inspect n)) ≡ later))
round_cases rounds deadline n later = elim (Option-cases (verdict (rounds.inspect n))) [
  | inr (r, decided) ↦ inl (r, rw decided refl, inl decided)
  | inl none_yet ↦ elim (Bool-cases (ltb deadline (rounds.clock n))) [
    | inl over ↦ inl (
      timed_out,
      rw (none_yet, over) refl,
      inr (inl (refl, ltb→lt deadline (rounds.clock n) over)),
    )
    | inr early ↦ elim (Bool-cases (rounds.context_done n)) [
      | inl gone ↦ inl (cancelled, rw (none_yet, early, gone) refl, inr (inr (refl, gone)))
      | inr waits ↦
          inr (none_yet, ltb→le deadline (rounds.clock n) early, rw (none_yet, early, waits) refl)
    ]
  ]
]

add_zero : (n : ℕ) → n + 0 ≡ n
add_zero n = omega arith

-- The deadline passes before the fuel is used up.
pub wait_rounds-IsWaited :
    (rounds : Rounds) (deadline fuel n : ℕ)
    → deadline < rounds.clock (n + fuel)
    → (r : Waited) × (wait_rounds rounds deadline n (suc fuel) ≡ some r)
      × IsWaited rounds deadline n (suc fuel) r
unfolding wait_rounds
wait_rounds-IsWaited rounds deadline zero n late = elim (round_cases rounds deadline n none) [
  | inl (r, ends, why) ↦ (r, ends, ends_now rounds deadline n 0 r why)
  | inr (none_yet, early, e) ↦
      let at_n : deadline < rounds.clock n =
        subst (λ i. deadline < rounds.clock i) (add_zero n) late in
      absurd (omega (arith, at_n, early))
]
wait_rounds-IsWaited rounds deadline (suc fuel) n late =
    elim (round_cases rounds deadline n (wait_rounds rounds deadline (n + 1) (suc fuel))) [
      | inl (r, ends, why) ↦ (r, ends, ends_now rounds deadline n (suc fuel) r why)
      | inr (none_yet, early, e) ↦
          let late' = subst (λ i. deadline < rounds.clock i) (omega arith) late in
          let (r, ends, w) = wait_rounds-IsWaited rounds deadline fuel (n + 1) late' in
          (r, e ∙ ends, ends_later rounds deadline n (suc fuel) r none_yet early w)
    ]

-- The clock is behind by at most what the rounds wait.
pub clock_after :
    (clock : ℕ → ℕ) (interval : ℕ)
    → ((n : ℕ) → clock n + interval ≤ clock (suc n))
    → (n : ℕ) → clock 0 + n * interval ≤ clock n
clock_after clock interval steps zero = omega arith
clock_after clock interval steps (suc n) =
    omega (arith, clock_after clock interval steps n, steps n)

-- If the clock does not go back before the first round and moves by at least 500 ms from one round to the
-- next, waitHealthy ends within 62 rounds: by the first answer of docker that is a verdict, by the first
-- check of the clock that is past the 30 seconds, or because the context is done.
pub wait_healthy-IsWaited :
    (rounds : Rounds) (start : ℕ)
    → start ≤ rounds.clock 0
    → ((n : ℕ) → rounds.clock n + poll_interval ≤ rounds.clock (suc n))
    → (r : Waited) × (wait_healthy rounds start ≡ some r)
      × IsWaited rounds (start + max_wait) 0 wait_fuel r
unfolding wait_healthy
wait_healthy-IsWaited rounds start after_start steps =
    wait_rounds-IsWaited rounds (start + max_wait) 61 0
      (omega (arith, clock_after (λ n. rounds.clock n) poll_interval steps 61, after_start))
