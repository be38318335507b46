-- ===== src/Analyzer/Llm.antt =====
-- services/ai-analyzer/internal/llm/provider.go, `GenerateJSON`. The provider is a parameter: its answer
-- to the call with a number, since each try calls it anew. Of an error's text only the four substrings
-- that are looked for matter. The decoder is a parameter, on the text from its first bracket on.
use quantime.Prelude.{
  ℕ, zero, suc, ◌+◌, ◌*◌, Bool, ◌||◌, Option, none, some, List, [], ◌∷◌, ◌==◌, if◌then◌else◌,
}

pub record ApiError : Type 0 where
  pub has_503 : Bool
  pub has_429 : Bool
  pub has_500 : Bool
  pub has_502 : Bool

pub data Attempt : Type 0 where
  text : List ℕ → Attempt
  failure : ApiError → Attempt

-- The retry loop's variables: the calls made, the seconds slept, and `text, err`.
pub record Tries : Type 0 where
  pub calls : ℕ
  pub slept : ℕ
  pub last : Attempt

abbrev pub is_retriable : ApiError → Bool
is_retriable e = e.has_503 || e.has_429 || e.has_500 || e.has_502

-- `text` and `err` before the first call are empty.
abbrev pub no_tries : Tries
no_tries = record { calls = 0; slept = 0; last = text [] }

-- The body's end for one answer; `continue` is the next round.
abbrev pub after_call : ℕ → Tries → Attempt → (Tries → Tries) → Tries
after_call i t (text s) continue = record t { calls = t.calls + 1; last = text s }
after_call i t (failure e) continue =
    let t' = record t { calls = t.calls + 1; last = failure e } in
    let later = continue (record t' { slept = t.slept + (i + 1) * 2 }) in
    if is_retriable e then later else t'

unfoldable pub try_loop : ℕ → ℕ → (ℕ → Attempt) → Tries → Tries
try_loop zero i generate t = t
try_loop (suc rounds) i generate t = after_call i t (generate i) (try_loop rounds (i + 1) generate)

abbrev pub max_tries : ℕ
max_tries = 3

pub data Outcome {ℓ} (A : Type ℓ) : Type ℓ where
  parsed : A → Outcome A
  api_error : ApiError → Outcome A
  no_json : Outcome A
  bad_json : List ℕ → Outcome A

-- `strings.IndexAny(text, "{[")`, and the text from there on.
abbrev pub is_bracket : ℕ → Bool
is_bracket c = c == 123 || c == 91

unfoldable pub from_bracket : List ℕ → Option (List ℕ)
from_bracket [] = none
from_bracket (c ∷ cs) = let rest = from_bracket cs in if is_bracket c then some (c ∷ cs) else rest

module _ {ℓ} {A : Type ℓ} (decode : List ℕ → Option A) where
  abbrev pub decoded : List ℕ → Option A → Outcome A
  decoded s none = bad_json s
  decoded s (some a) = parsed a

  abbrev pub parse_from : Option (List ℕ) → Outcome A
  parse_from none = no_json
  parse_from (some s) = decoded s (decode s)

  abbrev pub parse : Attempt → Outcome A
  parse (failure e) = api_error e
  parse (text s) = parse_from (from_bracket s)

  unfoldable pub generate_json : (ℕ → Attempt) → Outcome A
  unfolding try_loop from_bracket
  generate_json generate = parse (try_loop max_tries 0 generate no_tries).last
