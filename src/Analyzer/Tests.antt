-- ===== src/Analyzer/Tests.antt =====
-- The theorems on services/ai-analyzer at concrete inputs.
use mathlib.Core.List.Permᴰ
use quantime.Prelude.{ℕ, zero, suc, ◌≡◌, true, false, Option, none, some, List, [], ◌∷◌}
use quantime.Analyzer.Llm.{
  ApiError, Attempt, text, failure, parse, generate_json, try_loop, no_tries, max_tries,
}
use quantime.Analyzer.Retries.{Tried, generate_json-Tried}
use quantime.Analyzer.Agents.{Finding, high, correctness, Provider, Synthesis, Tools}
use quantime.Analyzer.Providers.{
  Client, new_claude_provider, no_model, ollama, Override, override_provider,
  override_report_provider,
}
use quantime.Analyzer.Handlers.{Body, json_body, read_body, analyze_handler}
use quantime.Telemetry.Scores.{Fraction, Aggregates, composite, IsMeasured}
use quantime.Analyzer.Breakdown.{
  Same, signed, plus_fifth, composite_of, metrics_of, score_breakdown, score_breakdown-composite,
}
use quantime.Prelude.{arith}
use quantime.Analyzer.Requests.{
  IsSafe, Answered, analyze_handler-Answered, override_provider-IsSafe,
}

abbrev overloaded : ApiError
overloaded = record { has_503 = true; has_429 = false; has_500 = false; has_502 = false }

-- Overloaded once, then an answer with a bracket.
abbrev recovers : ℕ → Attempt
recovers n = elim n [ zero ↦ failure overloaded | suc m ↦ text (32 ∷ 123 ∷ 125 ∷ []) ]

abbrev decode_all : List ℕ → Option (List ℕ)
decode_all s = some s

generate_json-Tried_example :
    (k : ℕ) × Tried recovers 0 max_tries no_tries (try_loop max_tries 0 recovers no_tries) k
    × (generate_json decode_all recovers ≡ parse decode_all (recovers k))
generate_json-Tried_example = generate_json-Tried decode_all recovers

abbrev one_finding : Finding
one_finding = record {
  severity = high;
  category = correctness;
  location = 1;
  description = 2;
  suggestion = 3;
}

abbrev no_synthesis : Synthesis
no_synthesis = record { summary = 0; strengths = []; recommendations = [] }

abbrev test_tools : Tools
test_tools = record {
  decode_findings = λ s. some (one_finding ∷ []);
  decode_synthesis = λ s. none;
  partly_decoded = λ s. no_synthesis;
  sort = λ fs. fs;
  agent_location = 7;
  error_description = 8;
  retry_suggestion = 9;
}

abbrev test_provider : Provider
test_provider request = recovers

abbrev test_source : List ℕ
test_source = 1 ∷ 2 ∷ 3 ∷ 4 ∷ 5 ∷ 6 ∷ 7 ∷ 8 ∷ 9 ∷ 10 ∷ 11 ∷ []

abbrev test_client : Client
test_client = new_claude_provider (some 42) no_model

abbrev asks_ollama : Override
asks_ollama = record { provider = ollama; model = no_model; api_key = some 5 }

abbrev test_body : Body
test_body =
    json_body (some record { source_code = test_source; logs = none; override = asks_ollama })

analyze_handler-Answered_example :
    Answered
      (λ c. test_provider)
      test_tools
      test_client
      (read_body test_body)
      (analyze_handler (λ c. test_provider) test_tools test_client test_body)
analyze_handler-Answered_example =
    analyze_handler-Answered (λ c. test_provider) test_tools test_client test_body

override_provider-IsSafe_example :
    IsSafe asks_ollama test_client (override_provider asks_ollama test_client)
    × IsSafe asks_ollama test_client (override_report_provider asks_ollama test_client)
override_provider-IsSafe_example = override_provider-IsSafe asks_ollama test_client

abbrev measured : Aggregates
measured = record {
  p99 = record { num = 200000000; den = 1 };
  tps = record { num = 100000; den = 1 };
  err_rate = record { num = 5; den = 500 };
}

measured-IsMeasured : IsMeasured measured
measured-IsMeasured = record {
  p99_defined = omega arith;
  tps_defined = omega arith;
  err_rate_defined = omega arith;
  err_rate_share = omega arith;
}

-- The oracle gives 80.
abbrev oracle : Fraction
oracle = record { num = 80; den = 1 }

score_breakdown-composite_example :
    Same (signed (composite measured none)) (composite_of measured)
    × Same (plus_fifth (composite_of measured) (signed oracle)) (
        plus_fifth
          (signed (composite measured (some oracle)))
          (score_breakdown (metrics_of measured)).correctness)
score_breakdown-composite_example = score_breakdown-composite measured oracle measured-IsMeasured
