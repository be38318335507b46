-- ===== src/Analyzer/Risk.antt =====
-- services/ai-analyzer/internal/agents/synthesizer.go: what a report holds, and how its risk score comes
-- about.
use mathlib.Core.List.{Permᴰ}
use quantime.Prelude.{◌*◌, ◌==◌, if◌then◌else◌, ℕ, ◌+◌, ◌≡◌, ◌⊎◌, Option, List, [], ◌∷◌, min, All}
use quantime.Analyzer.Llm.{Outcome, parsed, api_error, no_json, bad_json, generate_json}
use quantime.Analyzer.Agents.{
  Severity, critical, high, medium, low, info, other_severity, agent_request, Category, security,
  performance, correctness, Finding, Provider, AnalysisReport, risk_score, Tools, run_agent,
  collect, all_findings,
}

-- A category that an agent has.
abbrev pub IsAgent : Category → Type 0
IsAgent c = (c ≡ security) ⊎ (c ≡ performance) ⊎ (c ≡ correctness)

abbrev pub HasAgent : Finding → Type 0
HasAgent f = IsAgent f.category

module _ (tools : Tools) (provider : Provider) (source_code : List ℕ) (logs : Option ℕ) where
  -- The findings that an agent adds.
  abbrev pub part : Category → List Finding
  part c = collect tools c (run_agent tools c provider source_code logs)

-- The findings of a severity.
abbrev severity_number : Severity → ℕ
severity_number critical = 0
severity_number high = 1
severity_number medium = 2
severity_number low = 3
severity_number info = 4
severity_number other_severity = 5

abbrev pub count_severity : Severity → List Finding → ℕ
count_severity s [] = 0
count_severity s (f ∷ fs) =
    (if severity_number f.severity == severity_number s then 1 else 0) + count_severity s fs

-- 25 for a critical finding, 15 for a high one, 8 for medium, 3 for low and 1 for info.
abbrev pub points_of : List Finding → ℕ
points_of fs =
    25 * count_severity critical fs
    + 15 * count_severity high fs
    + 8 * count_severity medium fs
    + 3 * count_severity low fs
    + count_severity info fs

-- An agent counts the points of its findings, or 1 if it fails.
abbrev pub points : Outcome (List Finding) → ℕ
points (parsed fs) = points_of fs
points (api_error e) = 1
points no_json = 1
points (bad_json s) = 1

module _ (tools : Tools) (provider : Provider) (source_code : List ℕ) (logs : Option ℕ) where
  -- What an agent gets.
  abbrev pub answer_to : Category → Outcome (List Finding)
  answer_to c = generate_json tools.decode_findings (provider (agent_request c source_code logs))

-- What a report is made of, the sorted findings of the three agents; an agent that failed has one
-- finding, which counts 1.
pub record IsReport (tools : Tools) (provider : Provider) (source_code : List ℕ) (logs : Option ℕ)
    (report : AnalysisReport) : Type 0 where
  pub rearranged : Permᴰ report.findings (all_findings tools provider source_code logs)
  pub by_agents : All HasAgent report.findings
  pub risk :
      report.risk_score
      ≡ min 100 (
          points (answer_to tools provider source_code logs security)
          + points (answer_to tools provider source_code logs performance)
          + points (answer_to tools provider source_code logs correctness))
