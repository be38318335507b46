-- ===== src/Analyzer/Retries.antt =====
-- services/ai-analyzer/internal/llm/provider.go: when the retry loop of `GenerateJSON` stops, and with
-- what.
use quantime.Prelude.{
  ℕ, zero, suc, ◌+◌, ◌*◌, ◌<◌, ◌≤◌, ◌≡◌, refl, ap, ◌∙◌, Bool, true, false, inl, inr, Option, List,
  arith, Bool-cases,
}
use quantime.Analyzer.Llm.{
  Attempt, text, failure, Tries, is_retriable, no_tries, after_call, try_loop, max_tries, parse,
  generate_json,
}

-- Whether the loop goes on after an answer.
abbrev pub retries : Attempt → Bool
retries (text s) = false
retries (failure e) = is_retriable e

abbrev called : ℕ → Tries → Attempt → Tries
called i t a = record t { calls = t.calls + 1; slept = t.slept + (i + 1) * 2; last = a }

after_call_stop :
    (i : ℕ) (t : Tries) (a : Attempt) (continue : Tries → Tries)
    → retries a ≡ false
    → after_call i t a continue ≡ record t { calls = t.calls + 1; last = a }
after_call_stop i t (text s) continue h = refl
after_call_stop i t (failure e) continue h = ground arith

after_call_more :
    (i : ℕ) (t : Tries) (a : Attempt) (continue : Tries → Tries)
    → retries a ≡ true
    → after_call i t a continue ≡ continue (called i t a)
after_call_more i t (text s) continue h = ground arith
after_call_more i t (failure e) continue h = ground arith

-- The seconds that all rounds sleep.
abbrev sleeps : ℕ → ℕ → ℕ
sleeps zero i = 0
sleeps (suc n) i = (i + 1) * 2 + sleeps n (i + 1)

-- The loop from call `i` on, after `k` answers that it retries.
pub record Tried (generate : ℕ → Attempt) (i rounds : ℕ) (t r : Tries) (k : ℕ) : Type 0 where
  pub within : k < rounds
  pub calls_made : r.calls ≡ t.calls + suc k
  pub last_answer : r.last ≡ generate (i + k)
  pub earlier : (j : ℕ) → j < k → retries (generate (i + j)) ≡ true
  pub stopped : suc k < rounds → retries (generate (i + k)) ≡ false
  pub slept_at_most : r.slept ≤ t.slept + sleeps rounds i

at :
    (generate : ℕ → Attempt) (m n : ℕ) {b : Bool}
    → m ≡ n
    → retries (generate m) ≡ b
    → retries (generate n) ≡ b
at generate m n e h = rw (← e) h

earlier_more :
    (generate : ℕ → Attempt) (i k : ℕ)
    → retries (generate i) ≡ true
    → ((j : ℕ) → j < k → retries (generate (i + 1 + j)) ≡ true)
    → (j : ℕ) → j < suc k
    → retries (generate (i + j)) ≡ true
earlier_more generate i k h more zero l = at generate i (i + 0) (omega arith) h
earlier_more generate i k h more (suc j) l =
    at generate (i + 1 + j) (i + suc j) (omega arith) (more j (omega arith))

Tried-stop :
    (generate : ℕ → Attempt) (rounds i : ℕ) (t : Tries)
    → retries (generate i) ≡ false
    → Tried generate i (suc rounds) t (record t { calls = t.calls + 1; last = generate i }) 0
Tried-stop generate rounds i t h = record {
  within = omega arith;
  calls_made = omega arith;
  last_answer = ap generate (omega arith);
  earlier = λ j l. absurd (omega arith);
  stopped = λ l. at generate i (i + 0) (omega arith) h;
  slept_at_most = omega arith;
}

Tried-more :
    (generate : ℕ → Attempt) (rounds i k : ℕ) (t r : Tries)
    → retries (generate i) ≡ true
    → Tried generate (i + 1) rounds (called i t (generate i)) r k
    → Tried generate i (suc rounds) t r (suc k)
Tried-more generate rounds i k t r h d = record {
  within = omega (arith, d.within);
  calls_made = omega (arith, d.calls_made);
  last_answer = d.last_answer ∙ ap generate (omega arith);
  earlier = earlier_more generate i k h d.earlier;
  stopped = λ l. at generate (i + 1 + k) (i + suc k) (omega arith) (d.stopped (omega arith));
  slept_at_most = omega (arith, d.slept_at_most);
}

Tried-last :
    (generate : ℕ → Attempt) (i : ℕ) (t : Tries) → Tried generate i 1 t (called i t (generate i)) 0
Tried-last generate i t = record {
  within = omega arith;
  calls_made = omega arith;
  last_answer = ap generate (omega arith);
  earlier = λ j l. absurd (omega arith);
  stopped = λ l. absurd (omega arith);
  slept_at_most = omega arith;
}

try_loop-Tried :
    (rounds i : ℕ) (generate : ℕ → Attempt) (t : Tries)
    → (k : ℕ) × Tried generate i (suc rounds) t (try_loop (suc rounds) i generate t) k
unfolding try_loop
try_loop-Tried zero i generate t = elim (Bool-cases (retries (generate i))) [
  | inl again ↦ (
    0,
    rw (after_call_more i t (generate i) (try_loop 0 (i + 1) generate) again)
        (Tried-last generate i t),
  )
  | inr stop ↦ (
    0,
    rw (after_call_stop i t (generate i) (try_loop 0 (i + 1) generate) stop)
        (Tried-stop generate 0 i t stop),
  )
]
try_loop-Tried (suc rounds) i generate t = elim (Bool-cases (retries (generate i))) [
  | inl again ↦
      let (k, d) = try_loop-Tried rounds (i + 1) generate (called i t (generate i)) in
      (
        suc k,
        rw (after_call_more i t (generate i) (try_loop (suc rounds) (i + 1) generate) again)
            (Tried-more generate (suc rounds) i k t _ again d),
      )
  | inr stop ↦ (
    0,
    rw (after_call_stop i t (generate i) (try_loop (suc rounds) (i + 1) generate) stop)
        (Tried-stop generate (suc rounds) i t stop),
  )
]

-- `GenerateJSON` makes one to three calls and sleeps at most 12 seconds; every answer but the last is
-- an error that it retries, the last is none such unless it is the third, and it is the last whose
-- error is returned or whose text is decoded.
pub generate_json-Tried {ℓ} :
    {A : Type ℓ} (decode : List ℕ → Option A) (generate : ℕ → Attempt)
    → (k : ℕ) × Tried generate 0 max_tries no_tries (try_loop max_tries 0 generate no_tries) k
      × (generate_json decode generate ≡ parse decode (generate k))
unfolding generate_json
generate_json-Tried decode generate =
    let (k, d) = try_loop-Tried 2 0 generate no_tries in
    (k, d, ap (parse decode) (d.last_answer ∙ ap generate (omega arith)))
